-- ===== src/Attempts.antt =====
-- apps/backend/src/batches/anchor-attempts.service.ts: the history of anchoring, and its summary.
pub mod Summary
pub mod Order
pub mod Recorded
use proofchain.Prelude.{
  leb, ◌==◌, if◌then◌else◌, length, take, keep, exists, find, Text, text_eq, ℕ, ◌+◌, Bool, true,
  false, Option, none, some, List, [], ◌∷◌, ◌++◌,
}
use proofchain.Database.{
  Database, AnchorAttemptEntity, AnchorAttemptOutcome, failed, unverified, succeeded,
}

pub record RecordedAttempt : Type 0 where
  pub outcome : AnchorAttemptOutcome
  pub detail : Option Text
  pub stellar_tx_hash : Option Text

pub record AttemptSummary : Type 0 where
  pub batch_id : Text
  pub attempts : ℕ
  pub failures : ℕ
  pub last_outcome : Option AnchorAttemptOutcome
  pub last_attempt_at : Option ℕ
  pub last_detail : Option Text

abbrev max_detail_length : ℕ
max_detail_length = 2000

-- `input.detail ? input.detail.slice(0, MAX_DETAIL_LENGTH) : null`; the empty string is falsy.
trim_detail : Option Text → Option Text
trim_detail none = none
trim_detail (some []) = none
trim_detail (some (c ∷ s)) = some (take max_detail_length (c ∷ s))

abbrev pub of_batch : Text → AnchorAttemptEntity → Bool
of_batch batch_id a = text_eq a.batch_id batch_id

-- `record`: the table gains one row, numbered after the rows of its batch.
unfoldable pub new_attempt : Database → Text → RecordedAttempt → ℕ → AnchorAttemptEntity
unfolding trim_detail
new_attempt db batch_id input now = record {
  batch_id = batch_id;
  attempt_number = length (keep (of_batch batch_id) db.attempts) + 1;
  outcome = input.outcome;
  detail = trim_detail input.detail;
  stellar_tx_hash = input.stellar_tx_hash;
  occurred_at = now;
}

unfoldable pub record_attempt : Database → Text → RecordedAttempt → ℕ → Database
record_attempt db batch_id input now = record db {
  attempts = db.attempts ++ new_attempt db batch_id input now ∷ [];
}

-- `order: { occurredAt: "ASC" }`; rows of one instant keep their order of insertion.
insert_attempt : AnchorAttemptEntity → List AnchorAttemptEntity → List AnchorAttemptEntity
insert_attempt a [] = a ∷ []
insert_attempt a (x ∷ xs) =
    let later = x ∷ insert_attempt a xs in
    if leb a.occurred_at x.occurred_at then a ∷ x ∷ xs else later

unfoldable pub order_attempts : List AnchorAttemptEntity → List AnchorAttemptEntity
unfolding insert_attempt
order_attempts [] = []
order_attempts (a ∷ rows) = insert_attempt a (order_attempts rows)

unfoldable pub is_failure : AnchorAttemptOutcome → Bool
is_failure succeeded = false
is_failure failed = true
is_failure unverified = true

abbrev empty_summary : Text → AttemptSummary
empty_summary batch_id = record {
  batch_id = batch_id;
  attempts = 0;
  failures = 0;
  last_outcome = none;
  last_attempt_at = none;
  last_detail = none;
}

-- One round of the loop over the rows, on the summary of the row's batch.
unfoldable pub count_attempt : AttemptSummary → AnchorAttemptEntity → AttemptSummary
unfolding is_failure
count_attempt s row = record s {
  attempts = s.attempts + 1;
  failures = if is_failure row.outcome then s.failures + 1 else s.failures;
  last_outcome = some row.outcome;
  last_attempt_at = some row.occurred_at;
  last_detail = row.detail;
}

-- The `Map` of summaries.
abbrev pub Summaries : Type 0
Summaries = List AttemptSummary

unfoldable pub get_summary : Summaries → Text → Option AttemptSummary
get_summary m batch_id = find (λ s. text_eq s.batch_id batch_id) m

unfoldable pub put_summary : Summaries → AttemptSummary → Summaries
put_summary [] s = s ∷ []
put_summary (x ∷ m) s =
    let rest = x ∷ put_summary m s in if text_eq x.batch_id s.batch_id then s ∷ m else rest

unfoldable pub or_empty : Text → Option AttemptSummary → AttemptSummary
or_empty batch_id none = empty_summary batch_id
or_empty batch_id (some s) = s

unfoldable pub summarise : Summaries → List AnchorAttemptEntity → Summaries
unfolding get_summary put_summary count_attempt or_empty
summarise m [] = m
summarise m (row ∷ rows) =
    summarise
      (put_summary m (count_attempt (or_empty row.batch_id (get_summary m row.batch_id)) row)) rows

unfoldable pub contains : List Text → Text → Bool
contains ids id = exists (λ i. text_eq i id) ids

unfoldable pub summaries_for : Database → List Text → Summaries
unfolding contains order_attempts summarise
summaries_for db batch_ids =
    if length batch_ids == 0
    then []
    else summarise [] (order_attempts (keep (λ a. contains batch_ids a.batch_id) db.attempts))
