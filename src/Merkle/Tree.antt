-- ===== src/Merkle/Tree.antt =====
-- The specification of the root: a binary tree over the leaves' bytes, and its digest. The level
-- loop of merkle.ts is the same loop over trees.
use proofchain.Prelude.{
  length, Text, ◌+◌, ◌*◌, ◌≤◌, ◌≡◌, refl, ap, List, [], ◌∷◌, ◌++◌, map, append_assoc, arith,
}
use proofchain.Hashing.{Sha256}
use proofchain.Hashing.Hex.{Bytes}
use proofchain.Merkle.{hash_leaf, hash_internal, next_level}

pub data Tree : Type 0 where
  leaf : Bytes → Tree
  node : Tree → Tree → Tree

-- The leaves from left to right.
abbrev pub fringe : Tree → List Bytes
fringe (leaf d) = d ∷ []
fringe (node l r) = fringe l ++ fringe r

abbrev pub fringes : List Tree → List Bytes
fringes [] = []
fringes (t ∷ ts) = fringe t ++ fringes ts

abbrev pub pair_up : List Tree → List Tree
pair_up [] = []
pair_up (t ∷ []) = t ∷ []
pair_up (t ∷ u ∷ ts) = node t u ∷ pair_up ts

pub fringes-pair_up : (ts : List Tree) → fringes (pair_up ts) ≡ fringes ts
fringes-pair_up [] = refl
fringes-pair_up (t ∷ []) = refl
fringes-pair_up (t ∷ u ∷ ts) = simp (append_assoc, fringes-pair_up ts)

pub length-pair_up : (ts : List Tree) → 2 * length (pair_up ts) ≤ length ts + 1
length-pair_up [] = omega arith
length-pair_up (t ∷ []) = omega arith
length-pair_up (t ∷ u ∷ ts) = omega (arith, length-pair_up ts)

pub length-pair_up_lower : (ts : List Tree) → length ts ≤ 2 * length (pair_up ts)
length-pair_up_lower [] = omega arith
length-pair_up_lower (t ∷ []) = omega arith
length-pair_up_lower (t ∷ u ∷ ts) = omega (arith, length-pair_up_lower ts)

pub fringes-leaf : (ds : List Bytes) → fringes (map leaf ds) ≡ ds
fringes-leaf [] = refl
fringes-leaf (d ∷ ds) = ap (◌∷◌ d) (fringes-leaf ds)

module _ (sha : Sha256) where
  abbrev pub digest : Tree → Text
  digest (leaf d) = hash_leaf sha d
  digest (node l r) = hash_internal sha (digest l) (digest r)

  pub digest-leaf : (ds : List Bytes) → map digest (map leaf ds) ≡ map (hash_leaf sha) ds
  digest-leaf [] = refl
  digest-leaf (d ∷ ds) = ap (◌∷◌ (hash_leaf sha d)) (digest-leaf ds)

  pub next_level-pair_up :
      (ts : List Tree) → next_level sha (map digest ts) ≡ map digest (pair_up ts)
  unfolding next_level
  next_level-pair_up [] = refl
  next_level-pair_up (t ∷ []) = refl
  next_level-pair_up (t ∷ u ∷ ts) =
      ap (◌∷◌ (hash_internal sha (digest t) (digest u))) (next_level-pair_up ts)
