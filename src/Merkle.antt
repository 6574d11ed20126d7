-- ===== src/Merkle.antt =====
-- packages/shared/src/merkle.ts: the tree, the sibling path of a leaf, and its verification.
-- Hashes are lowercase hex strings, as in the source. An index is a natural number, so of the
-- source's index test only `index >= leafHexes.length` can fail.
pub mod Level
pub mod Rounds
pub mod Tree
pub mod Completeness
pub mod Paths
pub mod Commitment
pub mod Fold
pub mod Soundness
mod Examples
use proofchain.Prelude.{
  ltb, leb, ◌==◌, if◌then◌else◌, length, get_elem?, Result, throw_if, ok, err, Text, text_eq, ℕ,
  zero, suc, ◌+◌, ◌-◌, ◌/◌, ◌%◌, Bool, false, ◌&&◌, Option, none, some, List, [], ◌∷◌, ◌++◌, ◌>>=◌,
  ◌>>◌,
}
use proofchain.Hashing.{Sha256}
use proofchain.Hashing.Hex.{Bytes, is_hash_hex, from_hex}

pub data Side : Type 0 where
  left right : Side

pub record MerkleProofStep : Type 0 where
  pub hash : Text
  pub side : Side

pub record MerkleTree : Type 0 where
  pub levels : List (List Text)
  pub root : Text

pub data MerkleError : Type 0 where
  no_leaves : MerkleError
  bad_leaf : ℕ → MerkleError
  index_out_of_range : ℕ → MerkleError

-- The index of the first leaf that is not a hash.
first_bad : ℕ → List Text → Option ℕ
first_bad i [] = none
first_bad i (h ∷ hs) = let rest = first_bad (i + 1) hs in if is_hash_hex h then rest else some i

assert_indexed : Option ℕ → Result MerkleError (Unit {0})
assert_indexed none = ok tt
assert_indexed (some i) = err (bad_leaf i)

unfoldable pub assert_leaves : List Text → Result MerkleError (Unit {0})
unfolding first_bad assert_indexed
assert_leaves leaf_hexes =
    if length leaf_hexes == 0 then err no_leaves else assert_indexed (first_bad 0 leaf_hexes)

-- `levels.slice(0, -1)`
unfoldable pub all_but_last : List (List Text) → List (List Text)
all_but_last [] = []
all_but_last (l ∷ []) = []
all_but_last (l ∷ m ∷ ls) = l ∷ all_but_last (m ∷ ls)

-- `current` when the loop ends.
unfoldable pub last_level : List (List Text) → List Text
last_level [] = []
last_level (l ∷ []) = l
last_level (l ∷ m ∷ ls) = last_level (m ∷ ls)

-- `current[0]!`
unfoldable pub first : List Text → Text
first [] = []
first (h ∷ hs) = h

unfoldable pub is_right_child : ℕ → Bool
is_right_child idx = idx % 2 == 1

unfoldable pub sibling_idx : ℕ → ℕ
unfolding is_right_child
sibling_idx idx = if is_right_child idx then idx - 1 else idx + 1

-- No sibling means that the node was promoted, and nothing is recorded.
unfoldable pub record_sibling : Bool → Option Text → List MerkleProofStep
record_sibling is_right none = []
record_sibling is_right (some sibling) =
    record { hash = sibling; side = if is_right then left else right } ∷ []

-- One round of the loop in `merkleProof`.
unfoldable pub sibling_step : List Text → ℕ → List MerkleProofStep
unfolding is_right_child sibling_idx record_sibling
sibling_step level idx = record_sibling (is_right_child idx) (get_elem? level (sibling_idx idx))

unfoldable pub sibling_path : List (List Text) → ℕ → List MerkleProofStep
unfolding sibling_step
sibling_path [] idx = []
sibling_path (level ∷ ls) idx = sibling_step level idx ++ sibling_path ls (idx / 2)

module _ (sha : Sha256) where
  open sha use {hex}

  -- The leaf of some bytes, and of a string.
  unfoldable pub hash_leaf : Bytes → Text
  hash_leaf bytes = hex (0 ∷ bytes)

  unfoldable pub hash_internal : Text → Text → Text
  hash_internal left_hex right_hex = hex (1 ∷ from_hex left_hex ++ from_hex right_hex)

  -- The inner loop: pairs left to right, a lone trailing node promoted.
  unfoldable pub next_level : List Text → List Text
  next_level [] = []
  next_level (a ∷ []) = a ∷ []
  next_level (a ∷ b ∷ hs) = hash_internal a b ∷ next_level hs

  -- The levels from `current` up; the fuel bounds the rounds of the outer loop.
  unfoldable pub levels_from : ℕ → List Text → List (List Text)
  levels_from zero current = current ∷ []
  levels_from (suc fuel) current =
      let above = levels_from fuel (next_level current) in
      if ltb 1 (length current) then current ∷ above else current ∷ []

  unfoldable pub build_merkle_tree : List Text → Result MerkleError MerkleTree
  build_merkle_tree leaf_hexes = do
    assert_leaves leaf_hexes
    let levels = levels_from (length leaf_hexes) leaf_hexes
    ok (record { levels = levels; root = first (last_level levels) })

  unfoldable pub merkle_root_hex : List Text → Result MerkleError Text
  merkle_root_hex leaf_hexes = do tree ← build_merkle_tree leaf_hexes; ok tree.root

  unfoldable pub merkle_proof : List Text → ℕ → Result MerkleError (List MerkleProofStep)
  merkle_proof leaf_hexes index = do
    assert_leaves leaf_hexes
    throw_if (leb (length leaf_hexes) index) (index_out_of_range index)
    tree ← build_merkle_tree leaf_hexes
    ok (sibling_path (all_but_last tree.levels) index)

  -- The accumulator after one step, and after all of them; `none` when a step's hash is malformed.
  unfoldable pub combine : MerkleProofStep → Text → Text
  combine step acc = elim step.side [
    | left ↦ hash_internal step.hash acc
    | right ↦ hash_internal acc step.hash
  ]

  unfoldable pub fold_proof : Text → List MerkleProofStep → Option Text
  unfolding combine
  fold_proof acc [] = some acc
  fold_proof acc (step ∷ steps) =
      let rest = fold_proof (combine step acc) steps in if is_hash_hex step.hash then rest else none

  same_root : Text → Option Text → Bool
  same_root root_hex none = false
  same_root root_hex (some acc) = text_eq acc root_hex

  unfoldable pub verify_merkle_proof : Text → List MerkleProofStep → Text → Bool
  unfolding same_root
  verify_merkle_proof leaf_hex proof root_hex =
      is_hash_hex leaf_hex && is_hash_hex root_hex && same_root root_hex (fold_proof leaf_hex proof)
