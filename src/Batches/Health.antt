-- ===== src/Batches/Health.antt =====
-- batches.service.ts, the views for an operator: `anchorHealth`, `ledgerStatus` and `eventsOf`.
use proofchain.Backoff
use proofchain.Batches.Anchoring
use proofchain.Prelude.{
  is_none, length, keep, ok, Text, ℕ, Bool, true, false, not, ◌&&◌, Option, none, some, List, [],
  ◌∷◌, map, ℤ, pos, ◌+ℤ◌, ◌>>=◌,
}
use proofchain.Attempts.{AttemptSummary, Summaries, get_summary, summaries_for}
use proofchain.Batches.{find_one, ordered_events, status_eq}
use proofchain.Backoff.{is_stuck}
use proofchain.Ledger.{LedgerConfirmation}
use proofchain.Errors.{Outcome}
use proofchain.Database.{
  AnchorAttemptOutcome, AnchorRecordEntity, BatchEntity, CollectionEventEntity, Database,
  StellarNetwork, find_anchor, opened,
}
use proofchain.Batches.Anchoring.{detail_of, failures_of, or_else, order_by_sealed}

pub record AwaitingAnchor : Type 0 where
  pub batch_id : Text
  pub sealed_at : Option ℕ
  pub total_weight : ℤ
  pub event_count : ℕ
  pub failed_attempts : ℕ
  pub last_outcome : Option AnchorAttemptOutcome
  pub last_attempt_at : Option ℕ
  pub last_detail : Option Text
  pub next_attempt_at : Option ℕ
  pub stuck : Bool

pub record AnchorHealth : Type 0 where
  pub checked_at : ℕ
  pub awaiting_anchor : ℕ
  pub stuck_batches : ℕ
  pub unanchored_weight : ℤ
  pub batches : List AwaitingAnchor

pub record LedgerAnchor : Type 0 where
  pub network : StellarNetwork
  pub tx_hash : Text
  pub ledger : ℕ
  pub data_entry_key : Text
  pub explorer_url : Text

pub record BatchLedgerStatus : Type 0 where
  pub batch_id : Text
  pub anchored : Bool
  pub merkle_root : Option Text
  pub on_chain : Option LedgerAnchor
  pub confirmation : Option LedgerConfirmation

-- The `where` of the view: no longer open, with no anchor and with a root.
unfoldable pub unanchored : Database → BatchEntity → Bool
unanchored db b =
    not (status_eq b.status opened)
    && (is_none (find_anchor db b.id) && not (is_none b.merkle_root))

-- `summary?.lastOutcome ?? null`, and the like.
outcome_of : Option AttemptSummary → Option AnchorAttemptOutcome
outcome_of none = none
outcome_of (some s) = s.last_outcome

attempt_of : Option AttemptSummary → Option ℕ
attempt_of none = none
attempt_of (some s) = s.last_attempt_at

unfoldable pub to_awaiting : Summaries → BatchEntity → AwaitingAnchor
unfolding outcome_of attempt_of
to_awaiting summaries b = record {
  batch_id = b.id;
  sealed_at = b.sealed_at;
  total_weight = b.total_weight;
  event_count = b.event_count;
  failed_attempts = failures_of (get_summary summaries b.id);
  last_outcome = outcome_of (get_summary summaries b.id);
  last_attempt_at = attempt_of (get_summary summaries b.id);
  last_detail = detail_of (get_summary summaries b.id);
  next_attempt_at = Backoff.next_attempt_at (get_summary summaries b.id);
  stuck = is_stuck (get_summary summaries b.id);
}

sum_awaiting : ℤ → List AwaitingAnchor → ℤ
sum_awaiting sum [] = sum
sum_awaiting sum (b ∷ bs) = sum_awaiting (sum +ℤ b.total_weight) bs

unfoldable pub awaiting_rows : Database → List AwaitingAnchor
awaiting_rows db =
    let rows = order_by_sealed (keep (unanchored db) db.batches) in
    map (to_awaiting (summaries_for db (map (λ b. b.id) rows))) rows

unfoldable pub anchor_health : Database → ℕ → AnchorHealth
unfolding sum_awaiting
anchor_health db now = record {
  checked_at = now;
  awaiting_anchor = length (awaiting_rows db);
  stuck_batches = length (keep (λ b. b.stuck) (awaiting_rows db));
  unanchored_weight = sum_awaiting (pos 0) (awaiting_rows db);
  batches = awaiting_rows db;
}

ledger_anchor : LedgerConfirmation → AnchorRecordEntity → LedgerAnchor
ledger_anchor confirmation anchor = record {
  network = anchor.network;
  tx_hash = anchor.stellar_tx_hash;
  ledger = or_else confirmation.ledger anchor.stellar_ledger;
  data_entry_key = anchor.data_entry_key;
  explorer_url = Anchoring.explorer_url anchor.network anchor.stellar_tx_hash;
}

-- `ledger` is what `LedgerVerificationService.verify` answers for an anchor.
unfoldable pub ledger_status :
    (AnchorRecordEntity → LedgerConfirmation) → Database → Text → Outcome BatchLedgerStatus
unfolding ledger_anchor
ledger_status ledger db batch_id = do
  batch ← find_one db batch_id
  elim (find_anchor db batch_id) [
    | none ↦ ok (record {
      batch_id = batch_id;
      anchored = false;
      merkle_root = batch.merkle_root;
      on_chain = none;
      confirmation = none;
    })
    | some anchor ↦ ok (record {
      batch_id = batch_id;
      anchored = true;
      merkle_root = batch.merkle_root;
      on_chain = some (ledger_anchor (ledger anchor) anchor);
      confirmation = some (ledger anchor);
    })
  ]

unfoldable pub events_of : Database → Text → Outcome (List CollectionEventEntity)
events_of db batch_id = do batch ← find_one db batch_id; ok (ordered_events db batch_id)
