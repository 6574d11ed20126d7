-- ===== src/Merkle/Commitment.antt =====
-- What a root and an accepted proof commit to. SHA-256 is not injective, so each statement ends
-- in "or a collision": two different inputs with one digest, among those that the two runs compared
-- have hashed.
use proofchain.Prelude.{
  Bool-cases, append_split, Text, text_eq_iff, text_eq, ◌≡◌, refl, sym, ap, ap₂, ◌∙◌, ◌≢◌, ◌⊎◌, inl,
  inr, true, ◌∷◌, ◌++◌, arith,
}
use proofchain.Hashing.{Sha256}
use proofchain.Hashing.Hex.{
  Bytes, is_hash_hex-IsHex, length-is_hash_hex, from_hex_injective, from_hex, is_hash_hex,
}
use proofchain.Merkle.{hash_leaf, hash_internal}
use proofchain.Merkle.Tree.{Tree, leaf, node, digest}

bytes_cases : (a b : Bytes) → (a ≡ b) ⊎ (a ≢ b)
bytes_cases a b = elim (Bool-cases (text_eq a b)) [
  | inl same ↦ inl ((text_eq_iff a b).0 same)
  | inr differ ↦ inr (λ e. ground (arith, text_eq_iff a b))
]

-- What is hashed for an inner node.
abbrev pub node_input : Text → Text → Bytes
node_input left_hex right_hex = 1 ∷ from_hex left_hex ++ from_hex right_hex

module _ (sha : Sha256) where
  -- The inputs hashed for a tree.
  abbrev pub HashedIn : Tree → Bytes → Type 0
  HashedIn (leaf d) x = x ≡ 0 ∷ d
  HashedIn (node l r) x =
      (x ≡ node_input (digest sha l) (digest sha r)) ⊎ (HashedIn l x ⊎ HashedIn r x)

  -- Two inputs, one from each side, that differ and have one digest.
  pub record Collision (A : Bytes → Type 0) (B : Bytes → Type 0) : Type 0 where
    pub one : Bytes
    pub other : Bytes
    pub one_hashed : A one
    pub other_hashed : B other
    pub differ : one ≢ other
    pub one_digest : sha.hex one ≡ sha.hex other

  pub widen :
      {A A' B B' : Bytes → Type 0}
      → ((x : Bytes) → A x → A' x)
      → ((x : Bytes) → B x → B' x)
      → Collision A B
      → Collision A' B'
  widen f g c = record {
    one = c.one;
    other = c.other;
    one_hashed = f c.one c.one_hashed;
    other_hashed = g c.other c.other_hashed;
    differ = c.differ;
    one_digest = c.one_digest;
  }

  pub digest-is_hash_hex : (t : Tree) → is_hash_hex (digest sha t) ≡ true
  unfolding hash_leaf hash_internal
  digest-is_hash_hex (leaf d) = sha.hex-is_hash_hex _
  digest-is_hash_hex (node l r) = sha.hex-is_hash_hex _

  -- Two inner nodes have the same children, on both sides, or they hash different inputs.
  pub node_input_cases :
      (l r l' r' : Text)
      → is_hash_hex l ≡ true
      → is_hash_hex r ≡ true
      → is_hash_hex l' ≡ true
      → is_hash_hex r' ≡ true
      → ((l ≡ l') × (r ≡ r')) ⊎ (node_input l r ≢ node_input l' r')
  node_input_cases l r l' r' hl hr hl' hr' =
      elim (bytes_cases (node_input l r) (node_input l' r')) [
        | inl same ↦
            let split =
              append_split (from_hex l) (from_hex r) (from_hex l') (from_hex r')
                (length-is_hash_hex l hl ∙ sym (length-is_hash_hex l' hl')) (cc) in
            inl (
              from_hex_injective l l' (is_hash_hex-IsHex l hl) (is_hash_hex-IsHex l' hl') split.0,
              from_hex_injective r r' (is_hash_hex-IsHex r hr) (is_hash_hex-IsHex r' hr') split.1,
            )
        | inr differ ↦ inr differ
      ]

  pub leaf_cases : (d d' : Bytes) → (d ≡ d') ⊎ (◌≢◌ {A = Bytes} (0 ∷ d) (0 ∷ d'))
  leaf_cases d d' = elim (bytes_cases d d') [
    | inl same ↦ inl same
    | inr differ ↦ inr (λ e. differ (cc))
  ]

  -- The prefixes keep leaves and inner nodes apart.
  pub leaf-ne-node : (d : Bytes) (l r : Text) → 0 ∷ d ≢ node_input l r
  leaf-ne-node d l r e = ground arith

  abbrev Same : Tree → Tree → Type 0
  Same t u = (t ≡ u) ⊎ Collision (HashedIn t) (HashedIn u)

  both : (l r l' r' : Tree) → Same l l' → Same r r' → Same (node l r) (node l' r')
  both l r l' r' (inl p) (inl q) = inl (ap₂ node p q)
  both l r l' r' (inl p) (inr c) = inr (widen (λ x h. inr (inr h)) (λ x h. inr (inr h)) c)
  both l r l' r' (inr c) q = inr (widen (λ x h. inr (inl h)) (λ x h. inr (inl h)) c)

  -- A digest determines its tree.
  pub digest_injective : (t u : Tree) → digest sha t ≡ digest sha u → Same t u
  unfolding hash_leaf hash_internal
  digest_injective (leaf d) (leaf d') e = elim (leaf_cases d d') [
    | inl p ↦ inl (ap leaf p)
    | inr ne ↦ inr (record {
      one = 0 ∷ d;
      other = 0 ∷ d';
      one_hashed = refl;
      other_hashed = refl;
      differ = ne;
      one_digest = e;
    })
  ]
  digest_injective (leaf d) (node l r) e = inr (record {
    one = 0 ∷ d;
    other = node_input (digest sha l) (digest sha r);
    one_hashed = refl;
    other_hashed = inl refl;
    differ = leaf-ne-node d _ _;
    one_digest = e;
  })
  digest_injective (node l r) (leaf d) e = inr (record {
    one = node_input (digest sha l) (digest sha r);
    other = 0 ∷ d;
    one_hashed = inl refl;
    other_hashed = refl;
    differ = λ p. leaf-ne-node d _ _ (sym p);
    one_digest = e;
  })
  digest_injective (node l r) (node l' r') e =
      elim (node_input_cases _ _ _ _ (digest-is_hash_hex l) (digest-is_hash_hex r)
        (digest-is_hash_hex l') (digest-is_hash_hex r')) [
          | inl (el, er) ↦ both l r l' r' (digest_injective l l' el) (digest_injective r r' er)
          | inr ne ↦ inr (record {
            one = node_input (digest sha l) (digest sha r);
            other = node_input (digest sha l') (digest sha r');
            one_hashed = inl refl;
            other_hashed = inl refl;
            differ = ne;
            one_digest = e;
          })
        ]
