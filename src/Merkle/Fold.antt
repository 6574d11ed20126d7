-- ===== src/Merkle/Fold.antt =====
-- A fold over a proof, followed from its last step down the tree.
use proofchain.Prelude.{
  Bool-cases, some_injective, Text, ◌≡◌, refl, sym, ap, ◌∙◌, ◌≢◌, ◌⊎◌, inl, inr, true, some, List,
  [], ◌∷◌, ◌++◌, append_assoc, arith,
}
use proofchain.Hashing.{Sha256}
use proofchain.Hashing.Hex.{Bytes, is_hash_hex}
use proofchain.Merkle.{
  MerkleProofStep, left, right, fold_proof, combine, Side, hash_internal, hash_leaf,
}
use proofchain.Merkle.Tree.{Tree, leaf, node, digest}
use proofchain.Merkle.Commitment.{
  Collision, digest-is_hash_hex, HashedIn, leaf-ne-node, leaf_cases, node_input, node_input_cases,
  widen,
}
use proofchain.Merkle.Paths.{PathTo}

snoc_cases :
    (p : List MerkleProofStep)
    → (p ≡ []) ⊎ ((q : List MerkleProofStep) × (s : MerkleProofStep) × (p ≡ q ++ s ∷ []))
snoc_cases [] = inl refl
snoc_cases (s ∷ p) = elim (snoc_cases p) [
  | inl e ↦ inr ([], s, ap (◌∷◌ s) e)
  | inr (q, s', e) ↦ inr (s ∷ q, s', ap (◌∷◌ s) e)
]

side_cases : (s : Side) → (s ≡ left) ⊎ (s ≡ right)
side_cases left = inl refl
side_cases right = inr refl

module _ (sha : Sha256) where
  combine-is_hash_hex : (s : MerkleProofStep) (acc : Text) → is_hash_hex (combine sha s acc) ≡ true
  unfolding combine hash_internal
  combine-is_hash_hex s acc = elim (side_cases s.side) [
    | inl e ↦ rw e (sha.hex-is_hash_hex _)
    | inr e ↦ rw e (sha.hex-is_hash_hex _)
  ]

  -- The last step of an accepted proof, and what stands before it.
  fold-snoc :
      (acc b : Text) (q : List MerkleProofStep) (s : MerkleProofStep)
      → is_hash_hex acc ≡ true
      → fold_proof sha acc (q ++ s ∷ []) ≡ some b
      → (m : Text) × (fold_proof sha acc q ≡ some m)
        × (is_hash_hex m ≡ true)
        × (is_hash_hex s.hash ≡ true)
        × (combine sha s m ≡ b)
  unfolding fold_proof
  fold-snoc acc b [] s h e = elim (Bool-cases (is_hash_hex s.hash)) [
    | inl good ↦ (acc, refl, h, good, ground arith)
    | inr bad ↦ absurd (ground arith)
  ]
  fold-snoc acc b (x ∷ q) s h e = elim (Bool-cases (is_hash_hex x.hash)) [
    | inl good ↦
        let ih = fold-snoc (combine sha x acc) b q s (combine-is_hash_hex x acc) (ground arith) in
        (ih.0, rw good ih.1, ih.2, ih.3, ih.4)
    | inr bad ↦ absurd (ground arith)
  ]

  -- A hash computed by one step is that of an inner node, with the children on the step's sides.
  abbrev OnSide : Tree → Tree → MerkleProofStep → Text → Type 0
  OnSide l r s m =
      ((s ≡ record { hash = digest sha r; side = right }) × (m ≡ digest sha l))
      ⊎ ((s ≡ record { hash = digest sha l; side = left }) × (m ≡ digest sha r))

  -- What a step hashes.
  abbrev pub step_input : MerkleProofStep → Text → Bytes
  step_input s acc = elim s.side [ left ↦ node_input s.hash acc | right ↦ node_input acc s.hash ]

  combine-step_input : (s : MerkleProofStep) (m : Text) → combine sha s m ≡ sha.hex (step_input s m)
  unfolding combine hash_internal
  combine-step_input s m = elim (side_cases s.side) [ inl e ↦ rw e refl | inr e ↦ rw e refl ]

  leaf-ne-step : (d : Bytes) (s : MerkleProofStep) (m : Text) → step_input s m ≢ 0 ∷ d
  leaf-ne-step d s m = elim (side_cases s.side) [
    | inl e ↦ rw e (λ p. leaf-ne-node sha d s.hash m (sym p))
    | inr e ↦ rw e (λ p. leaf-ne-node sha d m s.hash (sym p))
  ]

  -- The inputs hashed when a proof is folded over a leaf.
  abbrev pub HashedBy : Bytes → List MerkleProofStep → Bytes → Type 0
  HashedBy d p x =
      (x ≡ 0 ∷ d)
      ⊎ ((q : List MerkleProofStep) × (s : MerkleProofStep) × (r : List MerkleProofStep)
          × (m : Text) × (p ≡ q ++ s ∷ r)
          × (fold_proof sha (hash_leaf sha d) q ≡ some m)
          × (x ≡ step_input s m))

  HashedBy-snoc :
      (d : Bytes) (p q : List MerkleProofStep) (s : MerkleProofStep)
      → p ≡ q ++ s ∷ []
      → (x : Bytes) → HashedBy d q x
      → HashedBy d p x
  HashedBy-snoc d p q s last x (inl at_leaf) = inl at_leaf
  HashedBy-snoc d p q s last x (inr (q', s', r', m, split, below, e)) = inr (
    q',
    s',
    r' ++ s ∷ [],
    m,
    last ∙ ap (λ l. l ++ s ∷ []) split ∙ append_assoc q' (s' ∷ r') (s ∷ []),
    below,
    e,
  )

  -- The last step leads to the node from one of its children, or hashes another input.
  last_step :
      (l r : Tree) (s : MerkleProofStep) (m : Text)
      → is_hash_hex m ≡ true
      → is_hash_hex s.hash ≡ true
      → OnSide l r s m ⊎ (step_input s m ≢ node_input (digest sha l) (digest sha r))
  last_step l r s m hm hs = elim (side_cases s.side) [
    | inl on_left ↦ elim (split s.hash m hs hm) [
      | inl (el, er) ↦ inl (inr (ground arith, er))
      | inr ne ↦ inr (rw on_left ne)
    ]
    | inr on_right ↦ elim (split m s.hash hm hs) [
      | inl (el, er) ↦ inl (inl (ground arith, el))
      | inr ne ↦ inr (rw on_right ne)
    ]
  ]
    where
      split :
          (a b : Text)
          → is_hash_hex a ≡ true
          → is_hash_hex b ≡ true
          → ((a ≡ digest sha l) × (b ≡ digest sha r))
            ⊎ (node_input a b ≢ node_input (digest sha l) (digest sha r))
      split a b ha hb =
          node_input_cases sha a b (digest sha l) (digest sha r) ha hb (digest-is_hash_hex sha l)
            (digest-is_hash_hex sha r)

  -- The two ends of the fold: no step at all, or a last one.
  abbrev Ends : Bytes → Text → List MerkleProofStep → Type 0
  Ends d b p =
      ((p ≡ []) × (hash_leaf sha d ≡ b))
      ⊎ ((q : List MerkleProofStep) × (s : MerkleProofStep) × (m : Text) × (p ≡ q ++ s ∷ [])
          × (fold_proof sha (hash_leaf sha d) q ≡ some m)
          × (is_hash_hex m ≡ true)
          × (is_hash_hex s.hash ≡ true)
          × (combine sha s m ≡ b))

  ends :
      (d : Bytes) (b : Text) (p : List MerkleProofStep)
      → fold_proof sha (hash_leaf sha d) p ≡ some b
      → Ends d b p
  unfolding fold_proof
  ends d b p e = elim (snoc_cases p) [
    | inl none_left ↦ inl (none_left, some_injective (rw none_left at e))
    | inr (q, s, last) ↦
        let split =
          fold-snoc (hash_leaf sha d) b q s (digest-is_hash_hex sha (leaf d)) (rw last at e) in
        inr (q, s, split.0, last, split.1, split.2, split.3, split.4)
  ]

  abbrev pub Clash : Bytes → List MerkleProofStep → Tree → Type 0
  Clash d p t = Collision sha (HashedBy d p) (HashedIn sha t)

  -- A proof whose fold ends in the digest of a tree is a path to a leaf with these data, or the
  -- hashing of the two meets in a collision.
  pub fold-PathTo :
      (d : Bytes) (t : Tree) (p : List MerkleProofStep)
      → fold_proof sha (hash_leaf sha d) p ≡ some (digest sha t)
      → PathTo sha d t p ⊎ Clash d p t
  unfolding hash_leaf hash_internal
  fold-PathTo d (leaf d') p e = elim (ends d (digest sha (leaf d')) p e) [
    | inl (empty, same) ↦ elim (leaf_cases sha d d') [
      | inl eq ↦ inl (eq, empty)
      | inr ne ↦ inr (record {
        one = 0 ∷ d;
        other = 0 ∷ d';
        one_hashed = inl refl;
        other_hashed = refl;
        differ = ne;
        one_digest = same;
      })
    ]
    | inr (q, s, m, last, below, hm, hs, top) ↦ inr (record {
      one = step_input s m;
      other = 0 ∷ d';
      one_hashed = inr (q, s, [], m, last, below, refl);
      other_hashed = refl;
      differ = leaf-ne-step d' s m;
      one_digest = sym (combine-step_input s m) ∙ top;
    })
  ]
  fold-PathTo d (node l r) p e = elim (ends d (digest sha (node l r)) p e) [
    | inl (_, same) ↦ inr (record {
      one = 0 ∷ d;
      other = node_input (digest sha l) (digest sha r);
      one_hashed = inl refl;
      other_hashed = inl refl;
      differ = leaf-ne-node sha d _ _;
      one_digest = same;
    })
    | inr (q, s, m, last, below, hm, hs, top) ↦ elim (last_step l r s m hm hs) [
      | inl (inl (es, em)) ↦ elim (fold-PathTo d l q (below ∙ ap some em)) [
        | inl path ↦ inl (inl (q, path, rw es at last))
        | inr c ↦ inr (widen sha (HashedBy-snoc d p q s last) (λ x h. inr (inl h)) c)
      ]
      | inl (inr (es, em)) ↦ elim (fold-PathTo d r q (below ∙ ap some em)) [
        | inl path ↦ inl (inr (q, path, rw es at last))
        | inr c ↦ inr (widen sha (HashedBy-snoc d p q s last) (λ x h. inr (inr h)) c)
      ]
      | inr ne ↦ inr (record {
        one = step_input s m;
        other = node_input (digest sha l) (digest sha r);
        one_hashed = inr (q, s, [], m, last, below, refl);
        other_hashed = inl refl;
        differ = ne;
        one_digest = sym (combine-step_input s m) ∙ top;
      })
    ]
  ]
