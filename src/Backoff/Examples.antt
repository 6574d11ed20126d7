-- ===== src/Backoff/Examples.antt =====
-- The theorems on anchor-backoff.ts at concrete histories.
use proofchain.Prelude.{
  ℕ, ◌+◌, ◌*◌, ◌≤◌, ◌<◌, min, ◌≡◌, refl, ◌≢◌, ◌↔◌, true, false, none, some, [], arith,
}
use proofchain.Attempts.{AttemptSummary}
use proofchain.Backoff.{
  backoff_delay_ms, base_delay_ms, is_due_for_retry, max_delay_ms, next_attempt_at, retry_at,
}
use proofchain.Database.{failed, succeeded}
use proofchain.Backoff.Schedule.{backoff_delay_ms_schedule, is_due_for_retry_iff}

-- Three failures, the last of them at 1,000 s.
abbrev failing : AttemptSummary
failing = record {
  batch_id = [];
  attempts = 3;
  failures = 3;
  last_outcome = some failed;
  last_attempt_at = some 1000000;
  last_detail = none;
}

backoff_delay_ms_schedule_example :
    (base_delay_ms ≤ backoff_delay_ms 3)
    × (backoff_delay_ms 3 ≤ max_delay_ms)
    × (backoff_delay_ms 4 ≡ min (2 * backoff_delay_ms 3) max_delay_ms)
    × (8 ≤ 3 → backoff_delay_ms 3 ≡ max_delay_ms)
backoff_delay_ms_schedule_example = backoff_delay_ms_schedule 3 (omega arith)

-- The third failure holds the batch back for two minutes.
is_due_for_retry_iff_example : (is_due_for_retry (some failing) 1119999 ≡ false) ↔ (
    (failing.failures ≢ 0)
    × (failing.last_outcome ≢ some succeeded)
    × ((at : ℕ) × (failing.last_attempt_at ≡ some at)
        × (1119999 < at + backoff_delay_ms failing.failures)))
is_due_for_retry_iff_example = is_due_for_retry_iff failing 1119999

held_back : is_due_for_retry (some failing) 1119999 ≡ false
unfolding is_due_for_retry next_attempt_at retry_at backoff_delay_ms
held_back = refl

due_again : is_due_for_retry (some failing) 1120000 ≡ true
unfolding is_due_for_retry next_attempt_at retry_at backoff_delay_ms
due_again = refl
