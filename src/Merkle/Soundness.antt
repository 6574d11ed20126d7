-- ===== src/Merkle/Soundness.antt =====
-- An accepted proof is an honest proof, and a root stands for one list of leaves.
use proofchain.Prelude.{
  Option-cases, length, get_elem?, get_elem?-lt, length-map, ok_injective, ok, Text, text_eq_iff, ℕ,
  zero, suc, ◌≤◌, ◌<◌, ◌≡◌, refl, sym, ap, subst, ◌∙◌, ◌⊎◌, inl, inr, true, some, List, [], ◌∷◌,
  ◌++◌, map, arith,
}
use proofchain.Hashing.{Sha256}
use proofchain.Hashing.Hex.{Bytes, is_hash_hex}
use proofchain.Merkle.{
  MerkleProofStep, fold_proof, hash_leaf, assert_leaves, build_merkle_tree, merkle_proof,
  merkle_root_hex, verify_merkle_proof, all_but_last, first, last_level, levels_from, same_root,
  sibling_path,
}
use proofchain.Merkle.Tree.{Tree, leaf, digest, fringe, digest-leaf, fringes-leaf}
use proofchain.Merkle.Commitment.{Collision, digest-is_hash_hex, digest_injective, HashedIn}
use proofchain.Merkle.Paths.{PathTo, Built, PathIn, build_tree}
use proofchain.Merkle.Level.{AllHashes}
use proofchain.Merkle.Completeness.{merkle_proof-ok, merkle_root_hex-ok}
use proofchain.Merkle.Fold.{HashedBy, fold-PathTo}

get_elem?-leaf :
    (ds : List Bytes) (i : ℕ) {t : Tree}
    → get_elem? (map leaf ds) i ≡ some t
    → (d : Bytes) × (get_elem? ds i ≡ some d) × (t ≡ leaf d)
get_elem?-leaf [] i e = cc
get_elem?-leaf (d ∷ ds) zero e = (d, refl, cc)
get_elem?-leaf (d ∷ ds) (suc i) e = get_elem?-leaf ds i e

module _ (sha : Sha256) where
  leaves-AllHashes : (ds : List Bytes) → AllHashes sha (map (hash_leaf sha) ds)
  leaves-AllHashes [] = tt
  leaves-AllHashes (d ∷ ds) = (digest-is_hash_hex sha (leaf d), leaves-AllHashes ds)

  -- A root is only returned for one leaf or more.
  root_nonempty :
      (ds : List Bytes) {root : Text}
      → merkle_root_hex sha (map (hash_leaf sha) ds) ≡ ok root
      → 1 ≤ length ds
  unfolding merkle_root_hex build_merkle_tree assert_leaves
  root_nonempty [] e = cc
  root_nonempty (d ∷ ds) e = omega arith

  -- The tree behind a root.
  pub record Rooted (ds : List Bytes) (root : Text) (t : Tree) : Type 0 where
    pub leaves : fringe t ≡ ds
    pub is_digest : root ≡ digest sha t
    pub walks :
        (d : Bytes) (p : List MerkleProofStep)
        → PathTo sha d t p
        → (i : ℕ) × (get_elem? ds i ≡ some d) × (merkle_proof sha (map (hash_leaf sha) ds) i ≡ ok p)

  pub rooted :
      (ds : List Bytes) {root : Text}
      → merkle_root_hex sha (map (hash_leaf sha) ds) ≡ ok root
      → (t : Tree) × Rooted ds root t
  unfolding first
  rooted ds {root} e = (
    built.0,
    record {
      leaves = built.1.leaves ∙ fringes-leaf ds;
      is_digest =
          ok_injective (sym e ∙ at_root.1)
          ∙ at_root.3
          ∙ ap first (rw (digest-leaf sha ds) at built.1.root);
      walks = λ d p path. walk d p (built.1.walks d p path);
    },
  )
    where
      hashes : List Text
      hashes = map (hash_leaf sha) ds

      some_leaf : 1 ≤ length hashes
      some_leaf = omega (arith, root_nonempty ds e, length-map (hash_leaf sha) ds)

      built : (t : Tree) × Built sha (length hashes) (map leaf ds) t
      built =
          build_tree sha (length hashes) (map leaf ds)
            (omega (arith, root_nonempty ds e, length-map leaf ds))
            (omega (arith, length-map leaf ds, length-map (hash_leaf sha) ds))

      at_root :
          (r : Text) × (merkle_root_hex sha hashes ≡ ok r)
          × (is_hash_hex r ≡ true)
          × (r ≡ first (last_level (levels_from sha (length hashes) hashes)))
      at_root = merkle_root_hex-ok sha hashes some_leaf (leaves-AllHashes ds)

      walk :
          (d : Bytes) (p : List MerkleProofStep)
          → ((i : ℕ) × (q : List MerkleProofStep) × PathIn sha d (map leaf ds) i q
              × (p
                  ≡ q
                    ++ sibling_path
                        (all_but_last
                          (levels_from sha (length hashes) (map (digest sha) (map leaf ds))))
                        i))
          → (i : ℕ) × (get_elem? ds i ≡ some d) × (merkle_proof sha hashes i ≡ ok p)
      walk d p (i, q, (t, there, path), e') =
          let l = get_elem?-leaf ds i there in
          let path' : PathTo sha d (leaf l.0) q = subst (λ u. PathTo sha d u q) l.2 path in
          let in_range : i < length hashes =
            omega (arith, get_elem?-lt ds i l.1, length-map (hash_leaf sha) ds) in
          (
            i,
            l.1 ∙ ap some (sym path'.0),
            merkle_proof-ok sha hashes some_leaf (leaves-AllHashes ds) i in_range
                ∙ ap ok (sym (rw (path'.1, digest-leaf sha ds) at e')),
          )

  -- A tree over the leaf data, whose digest is the root.
  abbrev pub TreeOf : List Bytes → Text → Tree → Type 0
  TreeOf ds root t = (fringe t ≡ ds) × (root ≡ digest sha t)

  -- Two lists of leaf data with the same root are the same list, in number and in order, or two
  -- trees over them hash two different inputs, one in each tree, to one digest.
  pub merkle_root_hex_injective :
      (ds ds' : List Bytes) (root : Text)
      → merkle_root_hex sha (map (hash_leaf sha) ds) ≡ ok root
      → merkle_root_hex sha (map (hash_leaf sha) ds') ≡ ok root
      → (ds ≡ ds')
        ⊎ ((t : Tree) × (u : Tree) × TreeOf ds root t
            × TreeOf ds' root u
            × Collision sha (HashedIn sha t) (HashedIn sha u))
  merkle_root_hex_injective ds ds' root e e' =
      let t = rooted ds e in
      let t' = rooted ds' e' in
      elim (digest_injective sha t.0 t'.0 (sym t.1.is_digest ∙ t'.1.is_digest)) [
        | inl same ↦ inl (sym t.1.leaves ∙ ap fringe same ∙ t'.1.leaves)
        | inr c ↦ inr (t.0, t'.0, (t.1.leaves, t.1.is_digest), (t'.1.leaves, t'.1.is_digest), c)
      ]

  verified-fold :
      (l : Text) (p : List MerkleProofStep) (r : Text)
      → verify_merkle_proof sha l p r ≡ true
      → fold_proof sha l p ≡ some r
  unfolding verify_merkle_proof same_root
  verified-fold l p r h = elim (Option-cases (fold_proof sha l p)) [
    | inl e ↦ absurd (ground arith)
    | inr (acc, e) ↦ ground (arith, text_eq_iff acc r)
  ]

  -- A proof that verifies for some leaf data against the root of a list is the proof that
  -- `merkle_proof` returns for an index of the list that holds these data, or the check hashes an
  -- input to the same digest as a different input that a tree over the list hashes.
  pub verify_merkle_proof_sound :
      (ds : List Bytes) (root : Text) (d : Bytes) (proof : List MerkleProofStep)
      → merkle_root_hex sha (map (hash_leaf sha) ds) ≡ ok root
      → verify_merkle_proof sha (hash_leaf sha d) proof root ≡ true
      → ((i : ℕ) × (get_elem? ds i ≡ some d)
          × (merkle_proof sha (map (hash_leaf sha) ds) i ≡ ok proof))
        ⊎ ((t : Tree) × TreeOf ds root t × Collision sha (HashedBy sha d proof) (HashedIn sha t))
  verify_merkle_proof_sound ds root d proof e v =
      let t = rooted ds e in
      elim (fold-PathTo sha d t.0 proof
        (verified-fold (hash_leaf sha d) proof root v ∙ ap some t.1.is_digest)) [
          | inl path ↦ inl (t.1.walks d proof path)
          | inr c ↦ inr (t.0, (t.1.leaves, t.1.is_digest), c)
        ]
