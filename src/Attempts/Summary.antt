-- ===== src/Attempts/Summary.antt =====
-- The loop of `summariesFor`, one batch at a time.
use proofchain.Prelude.{
  if◌then◌else◌, Bool-cases, length, keep, find-holds, Text, text_eq_iff, text_eq, ℕ, ◌+◌, ◌≡◌,
  refl, ap, ◌∙◌, ◌⊎◌, inl, inr, Bool, true, false, Option, none, some, List, [], ◌∷◌, ◌++◌, arith,
}
use proofchain.Attempts.{
  AttemptSummary, Summaries, count_attempt, get_summary, of_batch, or_empty, put_summary, summarise,
  is_failure,
}
use proofchain.Database.{AnchorAttemptEntity}

-- The summary of one batch, over its rows alone.
unfoldable pub tally :
    Text → Option AttemptSummary → List AnchorAttemptEntity → Option AttemptSummary
tally j o [] = o
tally j o (row ∷ rows) = tally j (some (count_attempt (or_empty j o) row)) rows

get_summary-put_summary :
    (m : Summaries) (s : AttemptSummary) (j : Text)
    → get_summary (put_summary m s) j ≡ (if text_eq s.batch_id j then some s else get_summary m j)
unfolding get_summary put_summary
get_summary-put_summary [] s j = ground arith
get_summary-put_summary (x ∷ m) s j = ground (
  arith,
  text_eq_iff x.batch_id s.batch_id,
  text_eq_iff x.batch_id j,
  text_eq_iff s.batch_id j,
  get_summary-put_summary m s j,
)

-- A summary is found under its own id.
found_id :
    (m : Summaries) (j : Text) (s : AttemptSummary) → get_summary m j ≡ some s → s.batch_id ≡ j
unfolding get_summary
found_id m j s e =
    (text_eq_iff s.batch_id j).0 (find-holds (λ (x : AttemptSummary). text_eq x.batch_id j) m s e)

or_empty-id :
    (j : Text) (o : Option AttemptSummary) (row : AnchorAttemptEntity)
    → ((s : AttemptSummary) → o ≡ some s → s.batch_id ≡ j)
    → (count_attempt (or_empty j o) row).batch_id ≡ j
unfolding or_empty count_attempt
or_empty-id j none row h = refl
or_empty-id j (some s) row h = h s refl

module _ (m : Summaries) (row : AnchorAttemptEntity) where
  abbrev counted : AttemptSummary
  counted = count_attempt (or_empty row.batch_id (get_summary m row.batch_id)) row

  counted-id : counted.batch_id ≡ row.batch_id
  counted-id = or_empty-id row.batch_id (get_summary m row.batch_id) row (found_id m row.batch_id)

  -- One round of the loop, seen by the batch `j`.
  round :
      (j : Text)
      → get_summary (put_summary m counted) j ≡ (
          if text_eq row.batch_id j
          then some (count_attempt (or_empty j (get_summary m j)) row)
          else get_summary m j)
  round j =
      get_summary-put_summary m counted j
      ∙ ap (λ (b : Bool). if b then some counted else get_summary m j)
          (ap (λ (i : Text). text_eq i j) counted-id)
      ∙ own_round (Bool-cases (text_eq row.batch_id j))
    where
      own_round :
          (text_eq row.batch_id j ≡ true) ⊎ (text_eq row.batch_id j ≡ false)
          → (if text_eq row.batch_id j then some counted else get_summary m j) ≡ (
              if text_eq row.batch_id j
              then some (count_attempt (or_empty j (get_summary m j)) row)
              else get_summary m j)
      own_round (inl own) = rw own (
          ap (λ (i : Text). some (count_attempt (or_empty i (get_summary m i)) row))
            ((text_eq_iff row.batch_id j).0 own))
      own_round (inr other) = rw other refl

pub get_summary-summarise :
    (m : Summaries) (rows : List AnchorAttemptEntity) (j : Text)
    → get_summary (summarise m rows) j ≡ tally j (get_summary m j) (keep (of_batch j) rows)
unfolding summarise tally
get_summary-summarise m [] j = refl
get_summary-summarise m (row ∷ rows) j =
    let rest = get_summary-summarise (put_summary m (counted m row)) rows j in
    elim (Bool-cases (text_eq row.batch_id j)) [
      | inl own ↦ rest ∙ rw (round m row j, own) refl
      | inr other ↦ rest ∙ rw (round m row j, other) refl
    ]

-- A batch with rows, and how many of them failed.
pub record Counts (j : Text) (o : Option AttemptSummary) (attempts failures : ℕ) : Type 0 where
  pub summary : AttemptSummary
  pub is_there : o ≡ some summary
  pub attempts_counted : summary.attempts ≡ attempts
  pub failures_counted : summary.failures ≡ failures

pub tally-snoc :
    (j : Text) (o : Option AttemptSummary) (rows : List AnchorAttemptEntity)
    (row : AnchorAttemptEntity)
    → tally j o (rows ++ row ∷ []) ≡ some (count_attempt (or_empty j (tally j o rows)) row)
unfolding tally
tally-snoc j o [] row = refl
tally-snoc j o (x ∷ rows) row = tally-snoc j (some (count_attempt (or_empty j o) x)) rows row

abbrev pub failing : List AnchorAttemptEntity → ℕ
failing rows = length (keep (λ (a : AnchorAttemptEntity). is_failure a.outcome) rows)

-- Counted on from a summary that is there.
tally_from :
    (j : Text) (s : AttemptSummary) (rows : List AnchorAttemptEntity)
    → Counts j (tally j (some s) rows) (s.attempts + length rows) (s.failures + failing rows)
unfolding tally or_empty count_attempt
tally_from j s [] = record {
  summary = s;
  is_there = refl;
  attempts_counted = omega arith;
  failures_counted = omega arith;
}
tally_from j s (row ∷ rows) =
    let c = tally_from j (count_attempt s row) rows in
    let one_more : (count_attempt s row).failures + failing rows
        ≡ s.failures + failing (row ∷ rows) =
      ground arith in
    record {
      summary = c.summary;
      is_there = c.is_there;
      attempts_counted = omega (arith, c.attempts_counted);
      failures_counted = c.failures_counted ∙ one_more;
    }

-- A batch starts with nothing counted.
pub tally_counts :
    (j : Text) (rows : List AnchorAttemptEntity)
    → ((or_empty j (tally j none rows)).attempts ≡ length rows)
      × ((or_empty j (tally j none rows)).failures ≡ failing rows)
unfolding tally or_empty count_attempt
tally_counts j [] = (refl, refl)
tally_counts j (row ∷ rows) =
    let c = tally_from j (count_attempt (or_empty j none) row) rows in
    (
      ap (λ (o : Option AttemptSummary). (or_empty j o).attempts) c.is_there
          ∙ omega (arith, c.attempts_counted),
      ap (λ (o : Option AttemptSummary). (or_empty j o).failures) c.is_there
          ∙ c.failures_counted
          ∙ ground arith,
    )
