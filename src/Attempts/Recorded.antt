-- ===== src/Attempts/Recorded.antt =====
-- The summary of a batch after one more attempt.
use proofchain.Prelude.{
  ◌==◌, if◌then◌else◌, Bool-cases, length, keep, All, All-keep, Text, text_eq_iff, text_eq_refl,
  text_eq, ℕ, ◌+◌, ◌≤◌, ◌≡◌, refl, sym, ap, ◌∙◌, inl, inr, Bool, true, ◌&&◌, Option, none, some,
  List, [], ◌∷◌, ◌++◌, arith,
}
use proofchain.Attempts.{
  of_batch, AttemptSummary, contains, get_summary, is_failure, or_empty, order_attempts,
  summaries_for, RecordedAttempt, count_attempt, new_attempt, record_attempt,
}
use proofchain.Database.{AnchorAttemptEntity, Database}
use proofchain.Attempts.Summary.{failing, get_summary-summarise, tally, tally_counts, tally-snoc}
use proofchain.Attempts.Order.{keep-order_attempts, keep-append, order_attempts-snoc}

-- The rows of the batch.
abbrev pub rows_of : Database → Text → List AnchorAttemptEntity
rows_of db j = keep (of_batch j) db.attempts

-- The attempts so far lie at `now` or earlier.
abbrev pub UpTo : Database → ℕ → Type 0
UpTo db now = All (λ (a : AnchorAttemptEntity). a.occurred_at ≤ now) db.attempts

kept_own :
    (ids : List Text) (j : Text) (xs : List AnchorAttemptEntity)
    → contains ids j ≡ true
    → keep (of_batch j) (keep (λ (a : AnchorAttemptEntity). contains ids a.batch_id) xs)
      ≡ keep (of_batch j) xs
kept_own ids j [] h = refl
kept_own ids j (x ∷ xs) h = elim (Bool-cases (text_eq x.batch_id j)) [
  | inl own ↦
      let asked : contains ids x.batch_id ≡ true =
        ap (contains ids) ((text_eq_iff x.batch_id j).0 own) ∙ h in
      rw asked (rw own (ap (◌∷◌ x) (kept_own ids j xs h)))
  | inr other ↦ elim (Bool-cases (contains ids x.batch_id)) [
    | inl asked ↦ rw (asked, other) (kept_own ids j xs h)
    | inr not_asked ↦ rw (not_asked, other) (kept_own ids j xs h)
  ]
]

keep_both :
    (p q : AnchorAttemptEntity → Bool) (xs : List AnchorAttemptEntity)
    → keep q (keep p xs) ≡ keep (λ x. p x && q x) xs
keep_both p q [] = refl
keep_both p q (x ∷ xs) = ground (arith, keep_both p q xs)

module _ (db : Database) (ids : List Text) (j : Text) (asked : contains ids j ≡ true) where
  -- The rows that the query returns.
  abbrev pub queried : List AnchorAttemptEntity
  queried = keep (λ (a : AnchorAttemptEntity). contains ids a.batch_id) db.attempts

  pub summaries_for_lem :
      get_summary (summaries_for db ids) j
      ≡ tally j none (keep (of_batch j) (order_attempts queried))
  unfolding summaries_for get_summary contains
  summaries_for_lem = elim (Bool-cases (length ids == 0)) [
    | inl nobody ↦ absurd (asks_somebody ids asked nobody)
    | inr somebody ↦ rw somebody (get_summary-summarise [] (order_attempts queried) j)
  ]
    where
      asks_somebody : (is : List Text) → contains is j ≡ true → (length is == 0) ≡ true → ⊥
      asks_somebody [] h e = cc
      asks_somebody (i ∷ is) h e = ground arith

  own_length : length (keep (of_batch j) (order_attempts queried)) ≡ length (rows_of db j)
  own_length =
      keep-order_attempts (of_batch j) queried ∙ ap length (kept_own ids j db.attempts asked)

  own_failing : failing (keep (of_batch j) (order_attempts queried)) ≡ failing (rows_of db j)
  own_failing =
      ap length (keep_both (of_batch j) (λ a. is_failure a.outcome) (order_attempts queried))
      ∙ keep-order_attempts (λ a. of_batch j a && is_failure a.outcome) queried
      ∙ ap length (sym (keep_both (of_batch j) (λ a. is_failure a.outcome) queried))
      ∙ ap failing (kept_own ids j db.attempts asked)

  -- The summary of a batch that is asked for counts the rows of the batch, and those of them that
  -- are not a success.
  pub summaries_for_counts :
      ((or_empty j (get_summary (summaries_for db ids) j)).attempts ≡ length (rows_of db j))
      × ((or_empty j (get_summary (summaries_for db ids) j)).failures ≡ failing (rows_of db j))
  summaries_for_counts =
      let c = tally_counts j (keep (of_batch j) (order_attempts queried)) in
      (
        ap (λ (o : Option AttemptSummary). (or_empty j o).attempts) summaries_for_lem
            ∙ c.0
            ∙ own_length,
        ap (λ (o : Option AttemptSummary). (or_empty j o).failures) summaries_for_lem
            ∙ c.1
            ∙ own_failing,
      )

-- The summary after one more attempt: it is the last, and it is counted.
pub record Latest (db : Database) (j : Text) (input : RecordedAttempt) (now : ℕ)
    (o : Option AttemptSummary) : Type 0 where
  pub summary : AttemptSummary
  pub is_there : o ≡ some summary
  pub outcome_is_last : summary.last_outcome ≡ some input.outcome
  pub instant_is_last : summary.last_attempt_at ≡ some now
  pub one_more_attempt : summary.attempts ≡ length (rows_of db j) + 1
  pub one_more_failure :
      summary.failures
      ≡ (if is_failure input.outcome then failing (rows_of db j) + 1 else failing (rows_of db j))

module _ (db : Database) (ids : List Text) (j : Text) (input : RecordedAttempt) (now : ℕ)
    (asked : contains ids j ≡ true) (up_to : UpTo db now) where
  abbrev added : AnchorAttemptEntity
  added = new_attempt db j input now

  added_last :
      keep (of_batch j) (order_attempts (queried (record_attempt db j input now) ids j asked))
      ≡ keep (of_batch j) (order_attempts (queried db ids j asked)) ++ added ∷ []
  unfolding record_attempt new_attempt
  added_last =
      ap (λ (xs : List AnchorAttemptEntity). keep (of_batch j) (order_attempts xs))
        (keep-append (λ (a : AnchorAttemptEntity). contains ids a.batch_id) db.attempts (added ∷ [])
          ∙ rw asked refl)
      ∙ ap (keep (of_batch j)) (
          order_attempts-snoc (queried db ids j asked) added (
            All-keep (λ (a : AnchorAttemptEntity). a.occurred_at ≤ now)
              (λ (a : AnchorAttemptEntity). contains ids a.batch_id) db.attempts up_to))
      ∙ keep-append (of_batch j) (order_attempts (queried db ids j asked)) (added ∷ [])
      ∙ rw (text_eq_refl j) refl

  pub record_attempt-Latest :
      Latest db j input now (get_summary (summaries_for (record_attempt db j input now) ids) j)
  unfolding count_attempt new_attempt
  record_attempt-Latest =
      let earlier = keep (of_batch j) (order_attempts (queried db ids j asked)) in
      let c = tally_counts j earlier in
      record {
        summary = count_attempt (or_empty j (tally j none earlier)) added;
        is_there =
            summaries_for_lem (record_attempt db j input now) ids j asked
            ∙ ap (tally j none) added_last
            ∙ tally-snoc j none earlier added;
        outcome_is_last = refl;
        instant_is_last = refl;
        one_more_attempt = omega (arith, c.0, own_length db ids j asked);
        one_more_failure = rw (c.1, own_failing db ids j asked) refl;
      }
