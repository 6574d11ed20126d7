-- ===== src/Merkle/Rounds.antt =====
-- The outer loop of `buildMerkleTree`, one round at a time, and its end.
use proofchain.Prelude.{
  ltb, lt→ltb, Bool-cases, length, Text, ℕ, zero, suc, ◌≤◌, ◌<◌, ◌≡◌, refl, inl, inr, List, [], ◌∷◌,
  arith, dec_lt,
}
use proofchain.Hashing.{Sha256}
use proofchain.Merkle.{levels_from, next_level, last_level, all_but_last}
use proofchain.Merkle.Level.{
  length-next_level, length-next_level_lower, AllHashes, next_level-AllHashes,
}

module _ (sha : Sha256) where
  levels_from_nonempty :
      (f : ℕ) (hs : List Text)
      → (l : List Text) × (ls : List (List Text)) × (levels_from sha f hs ≡ l ∷ ls)
  unfolding levels_from
  levels_from_nonempty zero hs = (hs, [], refl)
  levels_from_nonempty (suc f) hs = elim (Bool-cases (ltb 1 (length hs))) [
    | inl more ↦ (hs, levels_from sha f (next_level sha hs), rw more)
    | inr done ↦ (hs, [], rw done)
  ]

  module _ (f : ℕ) (hs : List Text) (more : 1 < length hs) where
    pub levels_from-more : levels_from sha (suc f) hs ≡ hs ∷ levels_from sha f (next_level sha hs)
    unfolding levels_from
    levels_from-more = rw (lt→ltb 1 (length hs) more)

    pub all_but_last-more :
        all_but_last (levels_from sha (suc f) hs)
        ≡ hs ∷ all_but_last (levels_from sha f (next_level sha hs))
    unfolding all_but_last
    all_but_last-more =
        let e = levels_from_nonempty f (next_level sha hs) in rw (levels_from-more, e.2)

    pub last_level-more :
        last_level (levels_from sha (suc f) hs) ≡ last_level (levels_from sha f (next_level sha hs))
    unfolding last_level
    last_level-more =
        let e = levels_from_nonempty f (next_level sha hs) in rw (levels_from-more, e.2)

  pub levels_from-one : (f : ℕ) (hs : List Text) → length hs ≤ 1 → levels_from sha f hs ≡ hs ∷ []
  unfolding levels_from
  levels_from-one zero hs h = refl
  levels_from-one (suc f) hs h = ground arith

  -- With as much fuel as nodes the loop ends by its own test: one node is left.
  pub length-last_level :
      (f : ℕ) (hs : List Text)
      → 1 ≤ length hs
      → length hs ≤ suc f
      → length (last_level (levels_from sha f hs)) ≡ 1
  unfolding last_level
  length-last_level zero hs h l = rw (levels_from-one zero hs l) (omega arith)
  length-last_level (suc f) hs h l = elim (dec_lt 1 (length hs)) [
    | yes more ↦ rw (last_level-more f hs more) (
        length-last_level f (next_level sha hs) (omega (arith, length-next_level_lower sha hs))
          (omega (arith, length-next_level sha hs)))
    | no done ↦ rw (levels_from-one (suc f) hs (omega arith)) (omega arith)
  ]

  pub last_level-AllHashes :
      (f : ℕ) (hs : List Text)
      → length hs ≤ suc f
      → AllHashes sha hs
      → AllHashes sha (last_level (levels_from sha f hs))
  unfolding last_level
  last_level-AllHashes zero hs l v = rw (levels_from-one zero hs l) v
  last_level-AllHashes (suc f) hs l v = elim (dec_lt 1 (length hs)) [
    | yes more ↦ rw (last_level-more f hs more) (
        last_level-AllHashes f (next_level sha hs) (omega (arith, length-next_level sha hs))
          (next_level-AllHashes sha hs v))
    | no done ↦ rw (levels_from-one (suc f) hs (omega arith)) v
  ]
