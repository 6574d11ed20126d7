-- ===== src/Batches/Queue.antt =====
-- The queue of the anchor worker: which batches it holds, and when.
use proofchain.Prelude.{
  Bool-cases, Option-cases, keep, exists, All, some_injective, All-map, All-keep, All-kept,
  All-every_one, exists-keep, exists-found, All-mapped, exists-map, ok, Text, text_eq_refl, text_eq,
  ℕ, ◌+◌, ◌<◌, ◌≡◌, refl, sym, ap, ◌∙◌, ◌≢◌, inl, inr, Bool, true, false, ◌&&◌, ◌||◌, Option, none,
  some, List, [], ◌∷◌, map, arith,
}
use proofchain.Attempts.{
  contains, AttemptSummary, RecordedAttempt, get_summary, is_failure, record_attempt, summaries_for,
}
use proofchain.Merkle.{first}
use proofchain.Database.{
  BatchEntity, Database, find_anchor, sealed, succeeded, find_batch, batch_where,
}
use proofchain.Batches.Anchoring.{
  awaits_anchor, order_by_sealed, insert_batch, pending_rows, record_anchor_failure, sealed_le,
  sealed_root, PendingAnchorBatch, pending_anchor, to_pending,
}
use proofchain.Batches.{find_one, status_eq}
use proofchain.Backoff.{backoff_delay_ms, is_due_for_retry}
use proofchain.Attempts.Recorded.{Latest, UpTo, record_attempt-Latest, rows_of}
use proofchain.Attempts.Summary.{failing}
use proofchain.Backoff.Schedule.{is_due_for_retry_iff}

module _ (q : BatchEntity → Bool) where
  exists-insert_batch :
      (b : BatchEntity) (bs : List BatchEntity)
      → exists q (insert_batch b bs) ≡ (q b || exists q bs)
  unfolding insert_batch
  exists-insert_batch b [] = refl
  exists-insert_batch b (x ∷ bs) = ground (arith, exists-insert_batch b bs)

  exists-order_by_sealed : (bs : List BatchEntity) → exists q (order_by_sealed bs) ≡ exists q bs
  unfolding order_by_sealed
  exists-order_by_sealed [] = refl
  exists-order_by_sealed (b ∷ bs) =
      exists-insert_batch b (order_by_sealed bs)
      ∙ ap (λ (r : Bool). q b || r) (exists-order_by_sealed bs)

module _ {κ} (P : BatchEntity → Type κ) where
  All-insert_batch :
      (b : BatchEntity) (bs : List BatchEntity) → P b → All P bs → All P (insert_batch b bs)
  unfolding insert_batch
  All-insert_batch b [] p h = (p, tt)
  All-insert_batch b (x ∷ bs) p h = elim (Bool-cases (sealed_le b.sealed_at x.sealed_at)) [
    | inl first ↦ rw first (p, h)
    | inr later ↦ rw later (h.0, All-insert_batch b bs p h.1)
  ]

  All-order_by_sealed : (bs : List BatchEntity) → All P bs → All P (order_by_sealed bs)
  unfolding order_by_sealed
  All-order_by_sealed [] h = tt
  All-order_by_sealed (b ∷ bs) h =
      All-insert_batch b (order_by_sealed bs) h.0 (All-order_by_sealed bs h.1)

contains-ids :
    (bs : List BatchEntity)
    → All (λ (b : BatchEntity). contains (map (λ (x : BatchEntity). x.id) bs) b.id ≡ true) bs
unfolding contains
contains-ids [] = tt
contains-ids (b ∷ bs) =
    (rw (text_eq_refl b.id) refl, All-map (λ x h. ground arith) bs (contains-ids bs))

pub listed-id :
    (bs : List BatchEntity) (j : Text)
    → exists (batch_where j) bs ≡ true
    → contains (map (λ (x : BatchEntity). x.id) bs) j ≡ true
unfolding contains
listed-id bs j h = exists-map (λ i. text_eq i j) (λ (x : BatchEntity). x.id) bs ∙ h

-- The rows that wait, and their ids.
abbrev pub waiting : Database → List BatchEntity
waiting db = order_by_sealed (keep (awaits_anchor db) db.batches)

abbrev pub waiting_ids : Database → List Text
waiting_ids db = map (λ (b : BatchEntity). b.id) (waiting db)

abbrev pub due_at : Database → ℕ → BatchEntity → Bool
due_at db t b = is_due_for_retry (get_summary (summaries_for db (waiting_ids db)) b.id) t

-- A batch waits for its anchor: it is sealed, has a root, and no anchor.
abbrev pub Waits : Database → BatchEntity → Type 0
Waits db b =
    (b.status ≡ sealed)
    × (find_anchor db b.id ≡ none)
    × ((root : Text) × (b.merkle_root ≡ some root))

awaits-Waits : (db : Database) (b : BatchEntity) → awaits_anchor db b ≡ true → Waits db b
unfolding awaits_anchor status_eq
awaits-Waits db b h = (
  ground arith,
  ground arith,
  elim (Option-cases b.merkle_root) [
    | inl rootless ↦ absurd (ground arith)
    | inr (root, e) ↦ (root, e)
  ],
)

-- Only batches that wait are handed to the worker.
pub pending_rows-Waits : (db : Database) (t : ℕ) → All (Waits db) (pending_rows db t)
unfolding pending_rows
pending_rows-Waits db t = All-keep (Waits db) _ (waiting db) (
    All-order_by_sealed (Waits db) (keep (awaits_anchor db) db.batches) (
      All-kept (Waits db) (awaits_anchor db) db.batches (
        All-every_one (λ (b : BatchEntity). awaits_anchor db b ≡ true → Waits db b)
          (awaits-Waits db) db.batches)))

Waits-awaits : (db : Database) (b : BatchEntity) → Waits db b → awaits_anchor db b ≡ true
unfolding awaits_anchor status_eq
Waits-awaits db b (is_sealed, free, (root, e)) = rw (is_sealed, free, e) refl

-- A row that waits and passes a test shows among the rows that wait and pass it.
pub waiting-found :
    (db : Database) (q : BatchEntity → Bool) (j : Text) (b : BatchEntity)
    → find_batch db j ≡ some b
    → Waits db b
    → q b ≡ true
    → exists q (waiting db) ≡ true
unfolding find_batch
waiting-found db q j b found waits h =
    exists-order_by_sealed q (keep (awaits_anchor db) db.batches)
    ∙ exists-keep (awaits_anchor db) q db.batches
    ∙ exists-found (batch_where j) (λ x. awaits_anchor db x && q x) db.batches b found
        (rw (Waits-awaits db b waits) h)

module _ (db db' : Database) (j : Text) (input : RecordedAttempt) (now : ℕ)
    (reported : record_anchor_failure db j input now ≡ ok db') (up_to : UpTo db now)
    (unfinished : is_failure input.outcome ≡ true) where
  after : db' ≡ record_attempt db j input now
  unfolding record_anchor_failure find_one sealed_root
  after = ground arith

  -- The instant from which the batch is offered again.
  abbrev pub again_at : ℕ
  again_at = now + backoff_delay_ms (failing (rows_of db j) + 1)

  latest :
      (ids : List Text)
      → contains ids j ≡ true
      → Latest db j input now (get_summary (summaries_for db' ids) j)
  latest ids asked = rw after (record_attempt-Latest db ids j input now asked up_to)

  not_success : input.outcome ≢ succeeded
  unfolding is_failure
  not_success e = cc (sym (ap is_failure e) ∙ unfinished)

  failed_once_more :
      (s : AttemptSummary) (o : Option AttemptSummary) (l : Latest db j input now o)
      → s ≡ l.summary
      → s.failures ≡ failing (rows_of db j) + 1
  failed_once_more s o l e =
      ap (λ (x : AttemptSummary). x.failures) e ∙ l.one_more_failure ∙ rw unfinished refl

  held :
      (t : ℕ) (o : Option AttemptSummary)
      → Latest db j input now o
      → t < again_at
      → is_due_for_retry o t ≡ false
  held t o l early =
      let count = failed_once_more l.summary o l refl in
      let delay = ap backoff_delay_ms count in
      ap (λ (x : Option AttemptSummary). is_due_for_retry x t) l.is_there
      ∙ (is_due_for_retry_iff l.summary t).1 (
        λ e. absurd (omega arith),
        λ e. not_success (some_injective (sym l.outcome_is_last ∙ e)),
        (now, l.instant_is_last, omega arith),
      )

  held_row :
      (t : ℕ) (b : BatchEntity)
      → t < again_at
      → contains (waiting_ids db') b.id ≡ true
      → due_at db' t b ≡ true
      → b.id ≢ j
  held_row t b early listed due same =
      let asked : contains (waiting_ids db') j ≡ true =
        ap (contains (waiting_ids db')) (sym same) ∙ listed in
      let not_due = held t _ (latest (waiting_ids db') asked) early in
      let still =
        ap (λ (i : Text). is_due_for_retry (get_summary (summaries_for db' (waiting_ids db')) i) t)
          same in
      cc (sym not_due, still, due)

  abbrev offer : BatchEntity → PendingAnchorBatch
  offer = to_pending (summaries_for db' (waiting_ids db'))

  -- After a reported failure, with no attempt on record that is dated later, the worker is not offered
  -- the batch before the delay that its number of failures asks for has passed.
  pub pending_anchor-held :
      (t : ℕ) → t < again_at → All (λ (p : PendingAnchorBatch). p.id ≢ j) (pending_anchor db' t)
  unfolding pending_anchor pending_rows to_pending
  pending_anchor-held t early =
      All-mapped (λ (p : PendingAnchorBatch). p.id ≢ j) offer (pending_rows db' t)
        (All-kept (λ (b : BatchEntity). b.id ≢ j) (due_at db' t) (waiting db')
          (All-map (λ b listed due same. held_row t b early listed due same) (waiting db')
            (contains-ids (waiting db'))))
