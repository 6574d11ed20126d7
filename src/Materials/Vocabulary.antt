-- ===== src/Materials/Vocabulary.antt =====
-- packages/shared/src/materials.ts: the form of a code, and the products listed under a material.
use proofchain.Prelude.{
  leb, ◌==◌, if◌then◌else◌, is_empty, length, take, every, exists, Text, text_eq, ℕ, Bool, true,
  false, ◌&&◌, ◌||◌, Option, none, some, List, [], ◌∷◌, ◌++◌,
}

-- `String.prototype.toUpperCase` and `toLowerCase`, whose tables are Unicode's.
pub record Casing : Type 0 where
  pub to_upper : Text → Text
  pub to_lower : Text → Text

-- What `\s` and `trim` take for white space.
unfoldable pub is_space : ℕ → Bool
is_space c =
    (leb 9 c && leb c 13)
    || (c == 32
        || (c == 160
            || (c == 5760
                || ((leb 8192 c && leb c 8202)
                    || (c == 8232
                        || (c == 8233
                            || (c == 8239 || (c == 8287 || (c == 12288 || c == 65279)))))))))

unfoldable pub trim_start : Text → Text
trim_start [] = []
trim_start (c ∷ s) = let rest = trim_start s in if is_space c then rest else c ∷ s

unfoldable pub trim_end : Text → Text
trim_end [] = []
trim_end (c ∷ s) = let rest = trim_end s in if is_space c && is_empty rest then [] else c ∷ rest

unfoldable pub trim : Text → Text
trim s = trim_end (trim_start s)

-- `replace(/\s+/g, " ")`; the first argument says that the unit before was white space.
unfoldable pub collapse : Bool → Text → Text
collapse spaced [] = []
collapse spaced (c ∷ s) =
    let within = collapse true s in
    let beyond = c ∷ collapse false s in
    if is_space c then (if spaced then within else 32 ∷ within) else beyond

unfoldable pub is_code_start : ℕ → Bool
is_code_start c = (leb 65 c && leb c 90) || (leb 48 c && leb c 57)

-- /^[A-Z0-9][A-Z0-9_-]{1,15}$/
unfoldable pub is_material_code : Text → Bool
is_material_code [] = false
is_material_code (c ∷ s) =
    is_code_start c
    && (every (λ d. is_code_start d || (d == 95 || d == 45)) s
        && (leb 1 (length s) && leb (length s) 15))

unfoldable pub clean_example : Text → Text
clean_example entry = trim (take 60 (trim (collapse false entry)))

-- `seen` and `out` of `normaliseExamples`.
pub record ExamplesSoFar : Type 0 where
  pub seen : List Text
  pub out : List Text

module _ (casing : Casing) where
  -- One round of the loop; nothing is added once the loop has been left.
  unfoldable pub add_example : ExamplesSoFar → Text → ExamplesSoFar
  add_example s entry =
      let cleaned = clean_example entry in
      let key = casing.to_lower cleaned in
      if leb 8 (length s.out) || (is_empty cleaned || exists (text_eq key) s.seen)
      then s
      else record { seen = s.seen ++ key ∷ []; out = s.out ++ cleaned ∷ [] }

  -- An entry that is not a string is skipped.
  unfoldable pub add_entry : ExamplesSoFar → Option Text → ExamplesSoFar
  add_entry s none = s
  add_entry s (some entry) = add_example s entry

  unfoldable pub add_examples : ExamplesSoFar → List (Option Text) → ExamplesSoFar
  add_examples s [] = s
  add_examples s (e ∷ es) = add_examples (add_entry s e) es

  -- The value has any type: `none` is one that is not an array, and an entry `none` of an array is one that
  -- is not a string.
  unfoldable pub normalise_examples : Option (List (Option Text)) → List Text
  normalise_examples none = []
  normalise_examples (some entries) = (add_examples (record { seen = []; out = [] }) entries).out
