-- ===== src/Merkle/Paths.antt =====
-- The sibling paths of a tree, and that the index walk of `merkleProof` reads off each of them.
use proofchain.Prelude.{
  length, get_elem?, some_injective, length-map, ℕ, zero, suc, ◌/◌, ◌≤◌, ◌<◌, ◌≡◌, refl, sym, ap,
  subst, ◌∙◌, ◌⊎◌, inl, inr, some, List, [], ◌∷◌, ◌++◌, map, append_assoc, append-nil, arith,
  dec_lt,
}
use proofchain.Hashing.{Sha256}
use proofchain.Hashing.Hex.{Bytes}
use proofchain.Merkle.{
  MerkleProofStep, left, right, sibling_step, sibling_path, levels_from, last_level, all_but_last,
  Side,
}
use proofchain.Merkle.Tree.{
  Tree, leaf, node, digest, pair_up, fringe, fringes, fringes-pair_up, length-pair_up,
  length-pair_up_lower, next_level-pair_up,
}
use proofchain.Merkle.Level.{sibling_step-cons}
use proofchain.Merkle.Rounds.{last_level-more, levels_from-one, all_but_last-more}

regroup :
    {p q : List MerkleProofStep} (q' a b : List MerkleProofStep)
    → p ≡ q ++ b
    → q ≡ q' ++ a
    → p ≡ q' ++ (a ++ b)
regroup q' a b e e' = e ∙ ap (λ r. r ++ b) e' ∙ append_assoc q' a b

module _ (sha : Sha256) where
  abbrev pub step_of : Side → Tree → List MerkleProofStep
  step_of side t = record { hash = digest sha t; side = side } ∷ []

  -- `p` holds the siblings met on the way up from a leaf with the bytes `d`.
  abbrev pub PathTo : Bytes → Tree → List MerkleProofStep → Type 0
  PathTo d (leaf d') p = (d ≡ d') × (p ≡ [])
  PathTo d (node l r) p =
      ((q : List MerkleProofStep) × PathTo d l q × (p ≡ q ++ step_of right r))
      ⊎ ((q : List MerkleProofStep) × PathTo d r q × (p ≡ q ++ step_of left l))

  -- A path in a forest: the tree it ends in, and what is left of the path there.
  abbrev pub PathIn : Bytes → List Tree → ℕ → List MerkleProofStep → Type 0
  PathIn d ts i q = (t : Tree) × (get_elem? ts i ≡ some t) × PathTo d t q

  -- What a path looks like one level down.
  abbrev Descent : Bytes → List Tree → ℕ → List MerkleProofStep → Type 0
  Descent d ts j q =
      (i : ℕ) × (q' : List MerkleProofStep) × PathIn d ts i q'
      × (q ≡ q' ++ sibling_step (map (digest sha) ts) i)
      × (i / 2 ≡ j)

  descend_node :
      (d : Bytes) (t u : Tree) (ts : List Tree) (q : List MerkleProofStep)
      → PathTo d (node t u) q
      → Descent d (t ∷ u ∷ ts) 0 q
  unfolding sibling_step
  descend_node d t u ts q (inl (q', path, e)) = (0, q', (t, refl, path), e, omega arith)
  descend_node d t u ts q (inr (q', path, e)) = (1, q', (u, refl, path), e, omega arith)

  pub descend :
      (d : Bytes) (ts : List Tree) (j : ℕ) (q : List MerkleProofStep)
      → PathIn d (pair_up ts) j q
      → Descent d ts j q
  unfolding sibling_step
  descend d [] j q (t, e, path) = cc
  descend d (t ∷ []) zero q (u, e, path) = (0, q, (u, e, path), sym (append-nil q), omega arith)
  descend d (t ∷ []) (suc j) q (u, e, path) = cc
  descend d (t ∷ u ∷ ts) zero q (v, e, path) =
      descend_node d t u ts q (subst (λ w. PathTo d w q) (some_injective (sym e)) path)
  descend d (t ∷ u ∷ ts) (suc j) q (v, e, path) =
      let down = descend d ts j q (v, e, path) in
      (
        suc (suc down.0),
        down.1,
        down.2,
        rw (sibling_step-cons (digest sha t) (digest sha u) (map (digest sha) ts) down.0) down.3,
        omega (arith, down.4),
      )

  -- The tree that the loop builds over `ts`: its leaves, its digest, and its paths, each of which
  -- is what the index walk records.
  pub record Built (f : ℕ) (ts : List Tree) (t : Tree) : Type 0 where
    pub root : last_level (levels_from sha f (map (digest sha) ts)) ≡ digest sha t ∷ []
    pub walks :
        (d : Bytes) (p : List MerkleProofStep)
        → PathTo d t p
        → (i : ℕ) × (q : List MerkleProofStep) × PathIn d ts i q
          × (p ≡ q ++ sibling_path (all_but_last (levels_from sha f (map (digest sha) ts))) i)
    pub leaves : fringe t ≡ fringes ts

  build_one : (f : ℕ) (ts : List Tree) → 1 ≤ length ts → length ts ≤ 1 → (t : Tree) × Built f ts t
  unfolding last_level all_but_last sibling_path
  build_one f [] h l = absurd (omega arith)
  build_one f (t ∷ []) h l = (
    t,
    record {
      root = rw (levels_from-one sha f (digest sha t ∷ []) (omega arith));
      walks = λ d p path. (
        0,
        p,
        (t, refl, path),
        rw (levels_from-one sha f (digest sha t ∷ []) (omega arith)) (sym (append-nil p)),
      );
      leaves = sym (append-nil (fringe t));
    },
  )
  build_one f (t ∷ u ∷ ts) h l = absurd (omega arith)

  build_more :
      (f : ℕ) (ts : List Tree) (t : Tree)
      → 1 < length ts
      → Built f (pair_up ts) t
      → Built (suc f) ts t
  unfolding sibling_path
  build_more f ts t more up = record {
    root =
        rw (last_level-more sha f (map (digest sha) ts) more', next_level-pair_up sha ts) up.root;
    walks = λ d p path.
        let w = up.walks d p path in
        let down = descend d ts w.0 w.1 w.2 in
        (
          down.0,
          down.1,
          down.2,
          rw
              (
                all_but_last-more sha f (map (digest sha) ts) more',
                next_level-pair_up sha ts,
                down.4,
              )
              (regroup _ _ _ w.3 down.3),
        );
    leaves = up.leaves ∙ fringes-pair_up ts;
  }
    where
      more' : 1 < length (map (digest sha) ts)
      more' = rw (length-map (digest sha) ts) more

  pub build_tree :
      (f : ℕ) (ts : List Tree) → 1 ≤ length ts → length ts ≤ suc f → (t : Tree) × Built f ts t
  build_tree zero ts h l = build_one zero ts h l
  build_tree (suc f) ts h l = elim (dec_lt 1 (length ts)) [
    | yes more ↦
        let up =
          build_tree f (pair_up ts) (omega (arith, length-pair_up_lower ts))
            (omega (arith, length-pair_up ts)) in
        (up.0, build_more f ts up.0 more up.1)
    | no done ↦ build_one (suc f) ts h (omega arith)
  ]
