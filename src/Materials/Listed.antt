-- ===== src/Materials/Listed.antt =====
-- The products listed under a material are few, short and no two alike.
use proofchain.Prelude.{
  leb, Bool-cases, is_empty, length, take, exists, All, length-append, All-map, All-snoc,
  exists-none, Text, text_eq_iff, text_eq, ℕ, zero, suc, ◌≤◌, ◌≡◌, refl, sym, ap, subst, ◌∙◌, ◌≢◌,
  inl, inr, Bool, false, ◌||◌, Option, none, some, List, [], ◌∷◌, ◌++◌, map, map-append, arith,
}
use proofchain.Materials.Vocabulary.{
  Casing, ExamplesSoFar, add_example, clean_example, collapse, trim, trim_end, trim_start,
  add_examples, normalise_examples, add_entry,
}

trim_start_le : (s : Text) → length (trim_start s) ≤ length s
unfolding trim_start
trim_start_le [] = omega arith
trim_start_le (c ∷ s) = ground (arith, trim_start_le s)

trim_end_le : (s : Text) → length (trim_end s) ≤ length s
unfolding trim_end
trim_end_le [] = omega arith
trim_end_le (c ∷ s) = ground (arith, trim_end_le s)

take_le : (n : ℕ) (s : Text) → length (take n s) ≤ n
take_le zero s = omega arith
take_le (suc n) [] = omega arith
take_le (suc n) (c ∷ s) = omega (arith, take_le n s)

clean_example_le : (entry : Text) → length (clean_example entry) ≤ 60
unfolding clean_example trim
clean_example_le entry =
    let cut = take 60 (trim (collapse false entry)) in
    let a = trim_end_le (trim_start cut) in
    let b = trim_start_le cut in let c = take_le 60 (trim (collapse false entry)) in omega arith

-- No entry occurs twice.
abbrev pub Distinct : List Text → Type 0
Distinct [] = Unit
Distinct (x ∷ xs) = All (λ y. x ≢ y) xs × Distinct xs

Distinct-snoc :
    (xs : List Text) (k : Text) → Distinct xs → All (λ x. x ≢ k) xs → Distinct (xs ++ k ∷ [])
Distinct-snoc [] k d h = (tt, tt)
Distinct-snoc (x ∷ xs) k d h = (All-snoc (λ y. x ≢ y) xs k d.0 h.0, Distinct-snoc xs k d.1 h.1)

unseen : (k : Text) (xs : List Text) → exists (text_eq k) xs ≡ false → All (λ x. x ≢ k) xs
unseen k xs h =
    All-map (λ x other same. absurd (cc (other, (text_eq_iff k x).1 (sym same)))) xs
      (exists-none (text_eq k) xs h)

-- Between one and sixty units.
abbrev pub IsShort : Text → Type 0
IsShort e = (1 ≤ length e) × (length e ≤ 60)

filled : (s : Text) → is_empty s ≡ false → 1 ≤ length s
filled [] h = cc
filled (c ∷ s) h = omega arith

none_of : (a b c : Bool) → (a || (b || c)) ≡ false → (a ≡ false) × (b ≡ false) × (c ≡ false)
none_of a b c h = (ground arith, ground arith, ground arith)

module _ (casing : Casing) where
  record IsTidy (s : ExamplesSoFar) : Type 0 where
    few : length s.out ≤ 8
    short : All IsShort s.out
    keys : s.seen ≡ map casing.to_lower s.out
    apart : Distinct s.seen

  pushed-IsTidy :
      (s : ExamplesSoFar) (cleaned : Text)
      → leb 8 (length s.out) ≡ false
      → is_empty cleaned ≡ false
      → length cleaned ≤ 60
      → exists (text_eq (casing.to_lower cleaned)) s.seen ≡ false
      → IsTidy s
      → IsTidy
          (record { seen = s.seen ++ casing.to_lower cleaned ∷ []; out = s.out ++ cleaned ∷ [] })
  pushed-IsTidy s cleaned room some_text short fresh v =
      let size = length-append s.out (cleaned ∷ []) in
      record {
        few = ground (arith, size);
        short = All-snoc IsShort s.out cleaned v.short (filled cleaned some_text, short);
        keys =
            ap (λ ks. ks ++ casing.to_lower cleaned ∷ []) v.keys
            ∙ sym (map-append casing.to_lower s.out (cleaned ∷ []));
        apart =
            Distinct-snoc s.seen (casing.to_lower cleaned) v.apart
              (unseen (casing.to_lower cleaned) s.seen fresh);
      }

  add_example-IsTidy :
      (s : ExamplesSoFar) (entry : Text) → IsTidy s → IsTidy (add_example casing s entry)
  unfolding add_example
  add_example-IsTidy s entry v =
      elim (Bool-cases (
        leb 8 (length s.out)
        || (is_empty (clean_example entry)
            || exists (text_eq (casing.to_lower (clean_example entry))) s.seen))) [
              | inl skipped ↦ rw skipped v
              | inr added ↦
                  let (room, some_text, fresh) = none_of _ _ _ added in
                  rw added (
                    pushed-IsTidy s (clean_example entry) room some_text (clean_example_le entry)
                      fresh v)
            ]

  add_examples-IsTidy :
      (s : ExamplesSoFar) (entries : List (Option Text))
      → IsTidy s
      → IsTidy (add_examples casing s entries)
  unfolding add_examples add_entry
  add_examples-IsTidy s [] v = v
  add_examples-IsTidy s (none ∷ es) v = add_examples-IsTidy s es v
  add_examples-IsTidy s (some e ∷ es) v =
      add_examples-IsTidy (add_example casing s e) es (add_example-IsTidy s e v)

  -- Whatever value is given, of whatever type, at most eight products are listed, each of one to sixty units,
  -- and no two that differ in case alone.
  pub normalise_examples-bounds :
      (entries : Option (List (Option Text)))
      → (length (normalise_examples casing entries) ≤ 8)
        × All IsShort (normalise_examples casing entries)
        × Distinct (map casing.to_lower (normalise_examples casing entries))
  unfolding normalise_examples
  normalise_examples-bounds none = (omega arith, tt, tt)
  normalise_examples-bounds (some entries) =
      let v =
        add_examples-IsTidy (record { seen = []; out = [] }) entries
          (record { few = omega arith; short = tt; keys = refl; apart = tt }) in
      (v.few, v.short, subst Distinct v.keys v.apart)
