-- ===== src/Merkle/Level.antt =====
-- One level of the tree and the next: where a node goes, and what its sibling is.
use proofchain.Prelude.{
  ◌==◌, length, get_elem?, All, Text, ℕ, zero, suc, ◌+◌, ◌*◌, ◌/◌, ◌≤◌, ◌≡◌, refl, ap, ap₂, true,
  some, List, [], ◌∷◌, ◌++◌, arith,
}
use proofchain.Hashing.{Sha256}
use proofchain.Hashing.Hex.{is_hash_hex}
use proofchain.Merkle.{
  MerkleProofStep, next_level, sibling_step, combine, fold_proof, hash_internal, is_right_child,
  sibling_idx, record_sibling,
}

is_right_child-suc : (i : ℕ) → is_right_child (suc (suc i)) ≡ is_right_child i
unfolding is_right_child
is_right_child-suc i = ap (λ (n : ℕ). n == 1) (omega arith)

sibling_idx-suc : (i : ℕ) → sibling_idx (suc (suc i)) ≡ suc (suc (sibling_idx i))
unfolding sibling_idx
sibling_idx-suc i = ground arith

pub sibling_step-cons :
    (a b : Text) (hs : List Text) (i : ℕ)
    → sibling_step (a ∷ b ∷ hs) (suc (suc i)) ≡ sibling_step hs i
unfolding sibling_step
sibling_step-cons a b hs i =
    ap₂ record_sibling (is_right_child-suc i) (ap (get_elem? (a ∷ b ∷ hs)) (sibling_idx-suc i))

module _ (sha : Sha256) where
  abbrev pub AllHashes : List Text → Type 0
  AllHashes = All (λ h. is_hash_hex h ≡ true)

  pub next_level-AllHashes : (hs : List Text) → AllHashes hs → AllHashes (next_level sha hs)
  unfolding next_level hash_internal
  next_level-AllHashes [] v = tt
  next_level-AllHashes (a ∷ []) v = v
  next_level-AllHashes (a ∷ b ∷ hs) v = (sha.hex-is_hash_hex _, next_level-AllHashes hs v.1.1)

  pub length-next_level : (hs : List Text) → 2 * length (next_level sha hs) ≤ length hs + 1
  unfolding next_level
  length-next_level [] = omega arith
  length-next_level (a ∷ []) = omega arith
  length-next_level (a ∷ b ∷ hs) = omega (arith, length-next_level hs)

  pub length-next_level_lower : (hs : List Text) → length hs ≤ 2 * length (next_level sha hs)
  unfolding next_level
  length-next_level_lower [] = omega arith
  length-next_level_lower (a ∷ []) = omega arith
  length-next_level_lower (a ∷ b ∷ hs) = omega (arith, length-next_level_lower hs)

  -- A step of the path takes a node to its parent.
  pub fold-sibling_step :
      (hs : List Text) (i : ℕ) (a : Text) (rest : List MerkleProofStep)
      → AllHashes hs
      → get_elem? hs i ≡ some a
      → (b : Text) × (get_elem? (next_level sha hs) (i / 2) ≡ some b)
        × (fold_proof sha a (sibling_step hs i ++ rest) ≡ fold_proof sha b rest)
  unfolding next_level fold_proof sibling_step combine
  fold-sibling_step [] i a rest v e = cc
  fold-sibling_step (x ∷ []) zero a rest v e = (x, refl, cc)
  fold-sibling_step (x ∷ []) (suc i) a rest v e = cc
  fold-sibling_step (x ∷ y ∷ hs) zero a rest v e = (hash_internal sha x y, refl, ground (arith))
  fold-sibling_step (x ∷ y ∷ hs) (suc zero) a rest v e = (hash_internal sha x y, refl, ground arith)
  fold-sibling_step (x ∷ y ∷ hs) (suc (suc i)) a rest v e =
      let ih = fold-sibling_step hs i a rest v.1.1 e in
      let half : suc (suc i) / 2 ≡ suc (i / 2) = omega arith in
      (ih.0, rw half ih.1, rw (sibling_step-cons x y hs i) ih.2)
