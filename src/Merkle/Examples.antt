-- ===== src/Merkle/Examples.antt =====
-- The theorems on merkle.ts at concrete trees.
use proofchain.Prelude.{
  get_elem?, replicate, ok, Text, text_eq, ℕ, ◌≡◌, refl, ◌⊎◌, true, some, List, [], ◌∷◌, map,
}
use proofchain.Hashing.Toy.{toy, toy_hex}
use proofchain.Hashing.Hex.{Bytes, from_hex, is_hash_hex, is_hex_unit}
use proofchain.Merkle.{
  hash_leaf, merkle_root_hex, assert_leaves, build_merkle_tree, first, hash_internal, last_level,
  levels_from, next_level, MerkleProofStep, all_but_last, fold_proof, merkle_proof, sibling_path,
  verify_merkle_proof, left,
}
use proofchain.Merkle.Soundness.{merkle_root_hex_injective, verify_merkle_proof_sound, TreeOf}
use proofchain.Merkle.Fold.{HashedBy}
use proofchain.Merkle.Commitment.{Collision, HashedIn}
use proofchain.Merkle.Level.{AllHashes}
use proofchain.Merkle.Completeness.{merkle_proof-verifies}
use proofchain.Merkle.Tree.{Tree}

abbrev three : List Bytes
three = (1 ∷ []) ∷ (2 ∷ []) ∷ (3 ∷ []) ∷ []

abbrev three_leaves : List Text
three_leaves = map (hash_leaf toy) three

-- Opens what a run of the Merkle code computes with.
running : Unit {0}
unfolding merkle_root_hex build_merkle_tree assert_leaves is_hash_hex is_hex_unit levels_from
    next_level hash_internal hash_leaf last_level first from_hex toy_hex merkle_proof sibling_path
    all_but_last verify_merkle_proof fold_proof
running = tt

abbrev digit_hash : ℕ → Text
digit_hash c = c ∷ replicate 63 48

abbrev honest : List MerkleProofStep
honest = record { hash = digit_hash b'1'; side = left } ∷ []

three-AllHashes : AllHashes toy three_leaves
unfolding running
three-AllHashes = (refl, (refl, (refl, tt)))

three_root : merkle_root_hex toy three_leaves ≡ ok (digit_hash b'1')
unfolding running
three_root = refl

third_verifies : verify_merkle_proof toy (hash_leaf toy (3 ∷ [])) honest (digit_hash b'1') ≡ true
unfolding running text_eq
third_verifies = refl

-- The third leaf was promoted once, so that its proof has one step.
merkle_proof-verifies_example :
    (proof : List MerkleProofStep) × (root : Text) × (merkle_proof toy three_leaves 2 ≡ ok proof)
    × (merkle_root_hex toy three_leaves ≡ ok root)
    × (verify_merkle_proof toy (hash_leaf toy (3 ∷ [])) proof root ≡ true)
merkle_proof-verifies_example =
    merkle_proof-verifies toy three_leaves 2 (hash_leaf toy (3 ∷ [])) three-AllHashes refl

merkle_root_hex_injective_example :
    (three ≡ three)
    ⊎ ((t : Tree) × (u : Tree) × TreeOf toy three (digit_hash b'1') t
        × TreeOf toy three (digit_hash b'1') u
        × Collision toy (HashedIn toy t) (HashedIn toy u))
merkle_root_hex_injective_example =
    merkle_root_hex_injective toy three three (digit_hash b'1') three_root three_root

verify_merkle_proof_sound_example :
    ((i : ℕ) × (get_elem? three i ≡ some (3 ∷ [])) × (merkle_proof toy three_leaves i ≡ ok honest))
    ⊎ ((t : Tree) × TreeOf toy three (digit_hash b'1') t
        × Collision toy (HashedBy toy (3 ∷ []) honest) (HashedIn toy t))
verify_merkle_proof_sound_example =
    verify_merkle_proof_sound toy three (digit_hash b'1') (3 ∷ []) honest three_root third_verifies
