-- ===== src/Merkle/Completeness.antt =====
-- Every honest proof verifies.
use proofchain.Prelude.{
  leb, ◌==◌, length, get_elem?, get_elem?-lt, All-get_elem?, ok, Text, text_eq_refl, ℕ, zero, suc,
  ◌+◌, ◌/◌, ◌≤◌, ◌<◌, ◌≡◌, refl, true, false, none, some, List, [], ◌∷◌, arith, dec_lt,
}
use proofchain.Hashing.{Sha256}
use proofchain.Merkle.{
  all_but_last, fold_proof, levels_from, next_level, sibling_path, first, last_level,
  MerkleProofStep, merkle_proof, merkle_root_hex, verify_merkle_proof, assert_leaves,
  build_merkle_tree, first_bad, same_root,
}
use proofchain.Merkle.Level.{AllHashes, fold-sibling_step, length-next_level, next_level-AllHashes}
use proofchain.Merkle.Rounds.{
  all_but_last-more, last_level-more, levels_from-one, last_level-AllHashes, length-last_level,
}
use proofchain.Hashing.Hex.{is_hash_hex}

-- The one node of the last level.
only :
    (hs : List Text) (i : ℕ) (a : Text)
    → length hs ≤ 1
    → get_elem? hs i ≡ some a
    → some a ≡ some (first hs)
unfolding first
only [] i a l e = cc
only (h ∷ []) zero a l e = cc
only (h ∷ []) (suc i) a l e = cc
only (h ∷ k ∷ hs) i a l e = absurd (omega arith)

module _ (sha : Sha256) where
  pub fold-sibling_path :
      (f : ℕ) (hs : List Text) (i : ℕ) (a : Text)
      → AllHashes sha hs
      → length hs ≤ suc f
      → get_elem? hs i ≡ some a
      → fold_proof sha a (sibling_path (all_but_last (levels_from sha f hs)) i)
        ≡ some (first (last_level (levels_from sha f hs)))
  unfolding sibling_path last_level first all_but_last fold_proof
  fold-sibling_path zero hs i a v l e = rw (levels_from-one sha zero hs l) (only hs i a l e)
  fold-sibling_path (suc f) hs i a v l e = elim (dec_lt 1 (length hs)) [
    | yes more ↦
        let up =
          fold-sibling_step sha hs i a
            (sibling_path (all_but_last (levels_from sha f (next_level sha hs))) (i / 2)) v e in
        rw (all_but_last-more sha f hs more, last_level-more sha f hs more, up.2)
          (fold-sibling_path f (next_level sha hs) (i / 2) up.0 (next_level-AllHashes sha hs v)
            (omega (arith, length-next_level sha hs)) up.1)
    | no done ↦ rw (levels_from-one sha (suc f) hs (omega arith)) (only hs i a (omega arith) e)
  ]

  first-is_hash_hex :
      (hs : List Text) → length hs ≡ 1 → AllHashes sha hs → is_hash_hex (first hs) ≡ true
  unfolding first
  first-is_hash_hex [] l v = absurd (omega arith)
  first-is_hash_hex (h ∷ hs) l v = v.0

  first_bad-AllHashes : (i : ℕ) (hs : List Text) → AllHashes sha hs → first_bad i hs ≡ none
  unfolding first_bad
  first_bad-AllHashes i [] v = refl
  first_bad-AllHashes i (h ∷ hs) v = rw v.0 (first_bad-AllHashes (i + 1) hs v.1)

  pub assert_leaves-ok :
      (hs : List Text) → 1 ≤ length hs → AllHashes sha hs → assert_leaves hs ≡ ok tt
  unfolding assert_leaves
  assert_leaves-ok hs l v =
      let some_leaf : (length hs == 0) ≡ false = ground arith in
      rw (some_leaf, first_bad-AllHashes 0 hs v)

  module _ (leaves : List Text) (l : 1 ≤ length leaves) (v : AllHashes sha leaves) where
    pub build_merkle_tree-ok :
        build_merkle_tree sha leaves
        ≡ ok (record {
          levels = levels_from sha (length leaves) leaves;
          root = first (last_level (levels_from sha (length leaves) leaves));
        })
    unfolding build_merkle_tree
    build_merkle_tree-ok = rw (assert_leaves-ok leaves l v)

    root-is_hash_hex :
        is_hash_hex (first (last_level (levels_from sha (length leaves) leaves))) ≡ true
    root-is_hash_hex =
        first-is_hash_hex (last_level (levels_from sha (length leaves) leaves))
          (length-last_level sha (length leaves) leaves l (omega arith))
          (last_level-AllHashes sha (length leaves) leaves (omega arith) v)

    pub merkle_root_hex-ok :
        (root : Text) × (merkle_root_hex sha leaves ≡ ok root)
        × (is_hash_hex root ≡ true)
        × (root ≡ first (last_level (levels_from sha (length leaves) leaves)))
    unfolding merkle_root_hex
    merkle_root_hex-ok = (
      first (last_level (levels_from sha (length leaves) leaves)),
      rw build_merkle_tree-ok,
      root-is_hash_hex,
      refl,
    )

    pub merkle_proof-ok :
        (i : ℕ)
        → i < length leaves
        → merkle_proof sha leaves i
          ≡ ok (sibling_path (all_but_last (levels_from sha (length leaves) leaves)) i)
    unfolding merkle_proof
    merkle_proof-ok i h =
        let in_range : leb (length leaves) i ≡ false = ground arith in
        rw (assert_leaves-ok leaves l v, build_merkle_tree-ok, in_range)

  -- For hashes as leaves and an index among them, the tree is built, `merkle_proof` returns a
  -- proof, and the proof verifies that leaf against the root.
  pub merkle_proof-verifies :
      (leaves : List Text) (i : ℕ) (leaf_hex : Text)
      → AllHashes sha leaves
      → get_elem? leaves i ≡ some leaf_hex
      → (proof : List MerkleProofStep) × (root : Text) × (merkle_proof sha leaves i ≡ ok proof)
        × (merkle_root_hex sha leaves ≡ ok root)
        × (verify_merkle_proof sha leaf_hex proof root ≡ true)
  unfolding verify_merkle_proof same_root
  merkle_proof-verifies leaves i leaf_hex v e =
      let h = get_elem?-lt leaves i e in
      let l : 1 ≤ length leaves = omega arith in
      let root = merkle_root_hex-ok leaves l v in
      (
        sibling_path (all_but_last (levels_from sha (length leaves) leaves)) i,
        root.0,
        merkle_proof-ok leaves l v i h,
        root.1,
        rw
            (
              All-get_elem? _ leaves i v e,
              root.2,
              fold-sibling_path (length leaves) leaves i leaf_hex v (omega arith) e,
              root.3,
            )
            (text_eq_refl (first (last_level (levels_from sha (length leaves) leaves)))),
      )
