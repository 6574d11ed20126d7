-- ===== src/Attempts/Order.antt =====
-- Attempts in the order of their instants.
use proofchain.Prelude.{
  leb, Bool-cases, length, keep, All, ◌≤◌, ◌≡◌, refl, ◌∙◌, inl, inr, Bool, List, [], ◌∷◌, ◌++◌,
  arith,
}
use proofchain.Attempts.{insert_attempt, order_attempts}
use proofchain.Database.{AnchorAttemptEntity}
use proofchain.Merkle.{first}

pub keep-append {ℓ} :
    {A : Type ℓ} (p : A → Bool) (xs ys : List A) → keep p (xs ++ ys) ≡ keep p xs ++ keep p ys
keep-append p [] ys = refl
keep-append p (x ∷ xs) ys = ground (arith, keep-append p xs ys)

insert_attempt-snoc :
    (a : AnchorAttemptEntity) (xs : List AnchorAttemptEntity) (n : AnchorAttemptEntity)
    → a.occurred_at ≤ n.occurred_at
    → insert_attempt a (xs ++ n ∷ []) ≡ insert_attempt a xs ++ n ∷ []
unfolding insert_attempt
insert_attempt-snoc a [] n h = ground arith
insert_attempt-snoc a (x ∷ xs) n h = ground (arith, insert_attempt-snoc a xs n h)

-- An attempt that is not before any other comes last.
pub order_attempts-snoc :
    (xs : List AnchorAttemptEntity) (n : AnchorAttemptEntity)
    → All (λ (a : AnchorAttemptEntity). a.occurred_at ≤ n.occurred_at) xs
    → order_attempts (xs ++ n ∷ []) ≡ order_attempts xs ++ n ∷ []
unfolding order_attempts
order_attempts-snoc [] n h = unfold insert_attempt in refl
order_attempts-snoc (a ∷ xs) n h =
    rw (order_attempts-snoc xs n h.1) (insert_attempt-snoc a (order_attempts xs) n h.0)

module _ (p : AnchorAttemptEntity → Bool) where
  keep-insert_attempt :
      (a : AnchorAttemptEntity) (xs : List AnchorAttemptEntity)
      → length (keep p (insert_attempt a xs)) ≡ length (keep p (a ∷ xs))
  unfolding insert_attempt
  keep-insert_attempt a [] = refl
  keep-insert_attempt a (x ∷ xs) = ground (arith, keep-insert_attempt a xs)

  -- Ordering changes no count.
  pub keep-order_attempts :
      (xs : List AnchorAttemptEntity) → length (keep p (order_attempts xs)) ≡ length (keep p xs)
  unfolding order_attempts
  keep-order_attempts [] = refl
  keep-order_attempts (a ∷ xs) =
      keep-insert_attempt a (order_attempts xs) ∙ ground (arith, keep-order_attempts xs)

module _ (P : AnchorAttemptEntity → Type 0) where
  All-insert_attempt :
      (a : AnchorAttemptEntity) (xs : List AnchorAttemptEntity)
      → P a
      → All P xs
      → All P (insert_attempt a xs)
  unfolding insert_attempt
  All-insert_attempt a [] p h = (p, tt)
  All-insert_attempt a (x ∷ xs) p h = elim (Bool-cases (leb a.occurred_at x.occurred_at)) [
    | inl first ↦ rw first (p, h)
    | inr later ↦ rw later (h.0, All-insert_attempt a xs p h.1)
  ]

  -- Ordering adds no row.
  pub All-order_attempts : (xs : List AnchorAttemptEntity) → All P xs → All P (order_attempts xs)
  unfolding order_attempts
  All-order_attempts [] h = tt
  All-order_attempts (a ∷ xs) h =
      All-insert_attempt a (order_attempts xs) h.0 (All-order_attempts xs h.1)
