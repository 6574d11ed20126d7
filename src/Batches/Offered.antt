-- ===== src/Batches/Offered.antt =====
-- However often a batch has failed, the worker gets it again.
use proofchain.Prelude.{
  Bool-cases, keep, exists, All, some_injective, All-keep, All-kept, exists-keep, exists-map, Text,
  text_eq_iff, text_eq, ℕ, ◌+◌, ◌≤◌, ◌≡◌, refl, sym, ap, subst, ◌∙◌, inl, inr, Bool, true, ◌&&◌,
  Option, none, some, List, [], ◌∷◌, arith,
}
use proofchain.Attempts.{
  AttemptSummary, contains, count_attempt, get_summary, of_batch, or_empty, order_attempts,
  summaries_for,
}
use proofchain.Backoff.{backoff_delay_ms, is_due_for_retry, next_attempt_at}
use proofchain.Database.{AnchorAttemptEntity, BatchEntity, Database, batch_where, find_batch}
use proofchain.Attempts.Recorded.{queried, rows_of, summaries_for_counts, summaries_for_lem}
use proofchain.Attempts.Summary.{failing, tally}
use proofchain.Batches.Anchoring.{PendingAnchorBatch, pending_anchor, pending_rows, to_pending}
use proofchain.Batches.Preservation.{find_batch-id}
use proofchain.Batches.Queue.{Waits, due_at, listed-id, waiting, waiting-found, waiting_ids}
use proofchain.Backoff.Schedule.{is_due_for_retry_iff}
use proofchain.Attempts.Order.{All-order_attempts}

-- What holds of the instants of the rows holds of the last one that is counted.
abbrev LastIs : (ℕ → Type 0) → Option AttemptSummary → Type 0
LastIs P none = Unit
LastIs P (some s) = (at : ℕ) → s.last_attempt_at ≡ some at → P at

tally-LastIs :
    (P : ℕ → Type 0) (j : Text) (o : Option AttemptSummary) (rows : List AnchorAttemptEntity)
    → LastIs P o
    → All (λ (a : AnchorAttemptEntity). P a.occurred_at) rows
    → LastIs P (tally j o rows)
unfolding tally count_attempt
tally-LastIs P j o [] last h = last
tally-LastIs P j o (row ∷ rows) last h =
    tally-LastIs P j (some (count_attempt (or_empty j o) row)) rows
      (λ at e. subst P (some_injective e) h.0) h.1

module _ (P : AnchorAttemptEntity → Type 0) where
  -- The other direction of `All-kept`.
  All-of_kept :
      (p : AnchorAttemptEntity → Bool) (xs : List AnchorAttemptEntity)
      → All P (keep p xs)
      → All (λ (a : AnchorAttemptEntity). p a ≡ true → P a) xs
  All-of_kept p [] h = tt
  All-of_kept p (x ∷ xs) h = elim (Bool-cases (p x)) [
    | inl kept ↦ let both = rw kept at h in ((λ e. both.0), All-of_kept p xs both.1)
    | inr dropped ↦ let rest = rw dropped at h in ((λ e. cc), All-of_kept p xs rest)
  ]

module _ (db : Database) (j : Text) (t : ℕ) where
  -- The delay that the failures so far ask for.
  abbrev pub retry_delay : ℕ
  retry_delay = backoff_delay_ms (failing (rows_of db j))

  abbrev pub HasPassed : AnchorAttemptEntity → Type 0
  HasPassed a = a.occurred_at + retry_delay ≤ t

  queried-HasPassed :
      (ids : List Text) (asked : contains ids j ≡ true)
      → All HasPassed (rows_of db j)
      → All HasPassed (keep (of_batch j) (order_attempts (queried db ids j asked)))
  queried-HasPassed ids asked passed =
      All-kept HasPassed (of_batch j) (order_attempts (queried db ids j asked)) (
        All-order_attempts (λ (a : AnchorAttemptEntity). of_batch j a ≡ true → HasPassed a)
          (queried db ids j asked)
          (All-keep (λ (a : AnchorAttemptEntity). of_batch j a ≡ true → HasPassed a)
            (λ (a : AnchorAttemptEntity). contains ids a.batch_id) db.attempts
            (All-of_kept HasPassed (of_batch j) db.attempts passed)))

  summary-due :
      (o : Option AttemptSummary)
      → LastIs (λ at. at + retry_delay ≤ t) o
      → (or_empty j o).failures ≡ failing (rows_of db j)
      → is_due_for_retry o t ≡ true
  unfolding or_empty next_attempt_at is_due_for_retry
  summary-due none last count = refl
  summary-due (some s) last count = elim (Bool-cases (is_due_for_retry (some s) t)) [
    | inl due ↦ due
    | inr not_due ↦
        let (_, _, (at, e, early)) = (is_due_for_retry_iff s t).0 not_due in
        let over = last at e in let same = ap backoff_delay_ms count in absurd (omega arith)
  ]

  due :
      (ids : List Text) (asked : contains ids j ≡ true)
      → All HasPassed (rows_of db j)
      → is_due_for_retry (get_summary (summaries_for db ids) j) t ≡ true
  due ids asked passed =
      summary-due _
        (subst (LastIs (λ at. at + retry_delay ≤ t)) (sym (summaries_for_lem db ids j asked)) (
          tally-LastIs (λ at. at + retry_delay ≤ t) j none _ tt
            (queried-HasPassed ids asked passed)))
        ((summaries_for_counts db ids j asked).1)

-- In every database, whatever attempts it holds: a batch that waits for its anchor is offered to the
-- worker at every time that is later than each of its attempts by the delay that the number of its failures
-- asks for, or more, and at any time when it has none. No number of failures drops it from the queue.
pub pending_anchor-offered :
    (db : Database) (j : Text) (t : ℕ) (b : BatchEntity)
    → find_batch db j ≡ some b
    → Waits db b
    → All (HasPassed db j t) (rows_of db j)
    → exists (λ (p : PendingAnchorBatch). text_eq p.id j) (pending_anchor db t) ≡ true
unfolding pending_anchor pending_rows to_pending
pending_anchor-offered db j t b found waits passed =
    let at_j = find_batch-id db j b found in
    let own : text_eq b.id j ≡ true = (text_eq_iff b.id j).1 at_j in
    let asked = listed-id (waiting db) j (waiting-found db (batch_where j) j b found waits own) in
    let is_due : due_at db t b ≡ true =
      ap (λ (i : Text). is_due_for_retry (get_summary (summaries_for db (waiting_ids db)) i) t) at_j
      ∙ due db j t (waiting_ids db) asked passed in
    exists-map (λ (p : PendingAnchorBatch). text_eq p.id j)
      (to_pending (summaries_for db (waiting_ids db))) (pending_rows db t)
    ∙ exists-keep (due_at db t) (λ (x : BatchEntity). text_eq x.id j) (waiting db)
    ∙ waiting-found db (λ x. due_at db t x && text_eq x.id j) j b found waits
        (rw (is_due, own) refl)
