-- ===== src/Backoff.antt =====
-- apps/backend/src/batches/anchor-backoff.ts: when a failing batch may be tried again.
-- Times are in milliseconds. `failures` is a count, so that `failures <= 0` is `failures == 0`.
pub mod Schedule
mod Examples
use proofchain.Prelude.{
  leb, ◌==◌, if◌then◌else◌, ℕ, ◌+◌, ◌-◌, ◌*◌, ◌^◌, min, Bool, true, false, Option, none, some,
}
use proofchain.Attempts.{AttemptSummary}
use proofchain.Database.{AnchorAttemptOutcome, succeeded}

abbrev pub base_delay_ms : ℕ
base_delay_ms = 30000

abbrev pub max_delay_ms : ℕ
max_delay_ms = 60 * 60 * 1000

abbrev pub stuck_after_failures : ℕ
stuck_after_failures = 6

unfoldable pub backoff_delay_ms : ℕ → ℕ
backoff_delay_ms failures =
    if failures == 0 then 0 else min (base_delay_ms * 2 ^ (failures - 1)) max_delay_ms

-- The delay counts from the last attempt, unless that one succeeded.
retry_at : AttemptSummary → Option AnchorAttemptOutcome → Option ℕ → Option ℕ
unfolding backoff_delay_ms
retry_at s (some succeeded) at = none
retry_at s _ none = none
retry_at s _ (some at) = some (at + backoff_delay_ms s.failures)

unfoldable pub next_attempt_at : Option AttemptSummary → Option ℕ
unfolding retry_at
next_attempt_at none = none
next_attempt_at (some s) =
    if s.failures == 0 then none else retry_at s s.last_outcome s.last_attempt_at

unfoldable pub is_due_for_retry : Option AttemptSummary → ℕ → Bool
is_due_for_retry summary now = elim (next_attempt_at summary) [ none ↦ true | some at ↦ leb at now ]

unfoldable pub is_stuck : Option AttemptSummary → Bool
is_stuck none = false
is_stuck (some s) = leb stuck_after_failures s.failures
