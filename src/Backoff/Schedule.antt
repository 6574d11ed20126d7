-- ===== src/Backoff/Schedule.antt =====
-- The schedule: its values, its growth and its ceiling.
use native.Mathlib.Nat.{pow-suc}
use proofchain.Prelude.{
  Option-cases, ℕ, zero, suc, ◌+◌, ◌-◌, ◌*◌, ◌^◌, ◌≤◌, ◌<◌, min, ◌≡◌, ap, ◌≢◌, ◌↔◌, inl, inr, false,
  some, arith,
}
use proofchain.Backoff.{
  backoff_delay_ms, max_delay_ms, base_delay_ms, is_due_for_retry, next_attempt_at, retry_at,
}
use proofchain.Attempts.{AttemptSummary}
use proofchain.Database.{succeeded}
use proofchain.Attempts.Summary.{failing}

pow_pos : (n : ℕ) → 1 ≤ 2 ^ n
pow_pos zero = omega arith
pow_pos (suc n) = omega (arith, pow-suc 2 n, pow_pos n)

pow_high : (n : ℕ) → 7 ≤ n → 128 ≤ 2 ^ n
pow_high n h = omega (arith, pow_shift (n - 7), ap (λ (m : ℕ). 2 ^ m) (split n h))
  where
    pow_shift : (k : ℕ) → 128 ≤ 2 ^ suc (suc (suc (suc (suc (suc (suc k))))))
    pow_shift k = omega (
      arith,
      pow_pos k,
      pow-suc 2 k,
      pow-suc 2 (suc k),
      pow-suc 2 (suc (suc k)),
      pow-suc 2 (suc (suc (suc k))),
      pow-suc 2 (suc (suc (suc (suc k)))),
      pow-suc 2 (suc (suc (suc (suc (suc k))))),
      pow-suc 2 (suc (suc (suc (suc (suc (suc k)))))),
    )

    split : (k : ℕ) → 7 ≤ k → k ≡ suc (suc (suc (suc (suc (suc (suc (k - 7)))))))
    split k h = omega arith

backoff_delay_ms-eq : (n : ℕ) → backoff_delay_ms (suc n) ≡ min (base_delay_ms * 2 ^ n) max_delay_ms
unfolding backoff_delay_ms
backoff_delay_ms-eq n = let e : suc n - 1 ≡ n = omega arith in rw e (ground arith)

-- One more failure doubles the delay, up to the ceiling.
pub backoff_delay_ms-suc :
    (n : ℕ) → backoff_delay_ms (suc (suc n)) ≡ min (2 * backoff_delay_ms (suc n)) max_delay_ms
backoff_delay_ms-suc n =
    omega (arith, pow-suc 2 n, backoff_delay_ms-eq n, backoff_delay_ms-eq (suc n))

-- After one failure or more the delay lies between thirty seconds and an hour, the next failure
-- doubles it up to the hour, and from eight failures on it is the hour.
pub backoff_delay_ms_schedule :
    (n : ℕ)
    → 1 ≤ n
    → (base_delay_ms ≤ backoff_delay_ms n)
      × (backoff_delay_ms n ≤ max_delay_ms)
      × (backoff_delay_ms (suc n) ≡ min (2 * backoff_delay_ms n) max_delay_ms)
      × (8 ≤ n → backoff_delay_ms n ≡ max_delay_ms)
backoff_delay_ms_schedule zero h = absurd (omega arith)
backoff_delay_ms_schedule (suc n) h = (
  omega (arith, pow_pos n, backoff_delay_ms-eq n),
  omega (arith, backoff_delay_ms-eq n),
  backoff_delay_ms-suc n,
  λ l. omega (arith, pow_high n (omega arith), backoff_delay_ms-eq n),
)

-- Waiting for a batch: it is held back exactly when it has failed, its last attempt did not
-- succeed, and the delay has not passed since.
pub is_due_for_retry_iff :
    (s : AttemptSummary) (now : ℕ)
    → (is_due_for_retry (some s) now ≡ false) ↔ (
        (s.failures ≢ 0)
        × (s.last_outcome ≢ some succeeded)
        × ((at : ℕ) × (s.last_attempt_at ≡ some at) × (now < at + backoff_delay_ms s.failures)))
unfolding is_due_for_retry next_attempt_at retry_at
is_due_for_retry_iff s now = (
  λ held. elim (Option-cases s.last_attempt_at) [
    | inl never ↦ absurd (ground arith)
    | inr (at, e) ↦ (ground arith, ground arith, (at, e, ground arith))
  ],
  λ (failing, unfinished, (at, e, early)). ground arith,
)
