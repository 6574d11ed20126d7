-- ===== src/Batches/Anchoring.antt =====
-- batches.service.ts, the second half: the queue of the anchor worker, the write-back of an anchor
-- or of a failure, and the verification of one event.
use proofchain.Prelude.{
  leb, if◌then◌else◌, is_none, get_elem?, keep, exists, throw_if, or_throw, ok, err, Text, text,
  truthy, text_eq, ℕ, ◌+◌, Bool, true, false, not, ◌&&◌, Option, none, some, List, [], ◌∷◌, ◌++◌,
  map, ℤ, ◌>>=◌, ◌>>◌,
}
use proofchain.Hashing.{Sha256}
use proofchain.Database.{
  Database, BatchEntity, CollectionEventEntity, AnchorRecordEntity, StellarNetwork, opened, sealed,
  succeeded, testnet, public, find_anchor,
}
use proofchain.Errors.{
  Outcome, not_found, conflict, internal, Reason, already_anchored, event_not_in_batch,
  merkle_failure, not_sealed, root_differs, unique_violation,
}
use proofchain.Merkle.{MerkleProofStep, merkle_proof, verify_merkle_proof}
use proofchain.Attempts.{
  Summaries, AttemptSummary, RecordedAttempt, get_summary, record_attempt, summaries_for,
}
use proofchain.Ledger.{LedgerConfirmation}
use proofchain.Batches.{find_one, leaves_of, ordered_events, status_eq}
use proofchain.Backoff.{is_due_for_retry}

pub record PendingAnchorBatch : Type 0 where
  pub id : Text
  pub merkle_root : Text
  pub total_weight : ℤ
  pub event_count : ℕ
  pub failed_attempts : ℕ
  pub last_failure_detail : Option Text

-- The `where` of the queue: sealed, with no anchor and with a root.
unfoldable pub awaits_anchor : Database → BatchEntity → Bool
awaits_anchor db b =
    status_eq b.status sealed && (is_none (find_anchor db b.id) && not (is_none b.merkle_root))

-- `orderBy("b.sealedAt", "ASC")`; a missing instant comes last.
unfoldable pub sealed_le : Option ℕ → Option ℕ → Bool
sealed_le none none = true
sealed_le none (some t) = false
sealed_le (some s) none = true
sealed_le (some s) (some t) = leb s t

unfoldable pub insert_batch : BatchEntity → List BatchEntity → List BatchEntity
insert_batch b [] = b ∷ []
insert_batch b (x ∷ xs) =
    let later = x ∷ insert_batch b xs in
    if sealed_le b.sealed_at x.sealed_at then b ∷ x ∷ xs else later

unfoldable pub order_by_sealed : List BatchEntity → List BatchEntity
unfolding sealed_le insert_batch
order_by_sealed [] = []
order_by_sealed (b ∷ bs) = insert_batch b (order_by_sealed bs)

unfoldable pub failures_of : Option AttemptSummary → ℕ
failures_of none = 0
failures_of (some s) = s.failures

unfoldable pub detail_of : Option AttemptSummary → Option Text
detail_of none = none
detail_of (some s) = s.last_detail

-- `b.merkleRoot!`
root_text : Option Text → Text
root_text none = []
root_text (some root) = root

unfoldable pub to_pending : Summaries → BatchEntity → PendingAnchorBatch
unfolding failures_of detail_of root_text
to_pending summaries b = record {
  id = b.id;
  merkle_root = root_text b.merkle_root;
  total_weight = b.total_weight;
  event_count = b.event_count;
  failed_attempts = failures_of (get_summary summaries b.id);
  last_failure_detail = detail_of (get_summary summaries b.id);
}

unfoldable pub pending_rows : Database → ℕ → List BatchEntity
pending_rows db now =
    let rows = order_by_sealed (keep (awaits_anchor db) db.batches) in
    let summaries = summaries_for db (map (λ b. b.id) rows) in
    keep (λ b. is_due_for_retry (get_summary summaries b.id) now) rows

unfoldable pub pending_anchor : Database → ℕ → List PendingAnchorBatch
unfolding pending_rows
pending_anchor db now =
    let rows = order_by_sealed (keep (awaits_anchor db) db.batches) in
    let summaries = summaries_for db (map (λ b. b.id) rows) in
    map (to_pending summaries) (pending_rows db now)

pub record AnchorInput : Type 0 where
  pub merkle_root : Text
  pub stellar_tx_hash : Text
  pub stellar_ledger : ℕ
  pub network : StellarNetwork
  pub data_entry_key : Text
  pub anchored_at : ℕ

-- The root of a batch that has been sealed.
unfoldable pub sealed_root : BatchEntity → Reason → Outcome Text
sealed_root batch why = do
  throw_if (status_eq batch.status opened) (conflict why)
  or_throw (truthy batch.merkle_root) (conflict why)

unfoldable pub anchor_row : Text → AnchorInput → AnchorRecordEntity
anchor_row batch_id input = record {
  batch_id = batch_id;
  merkle_root = input.merkle_root;
  stellar_tx_hash = input.stellar_tx_hash;
  stellar_ledger = input.stellar_ledger;
  network = input.network;
  data_entry_key = input.data_entry_key;
  anchored_at = input.anchored_at;
}

-- The row, or its unique index on the transaction refuses it.
unfoldable pub save_anchor : Database → Text → AnchorInput → Outcome (Database × AnchorRecordEntity)
save_anchor db batch_id input =
    let row = anchor_row batch_id input in
    if exists (λ a. text_eq a.stellar_tx_hash input.stellar_tx_hash) db.anchors
    then err (internal unique_violation)
    else ok (record db { anchors = db.anchors ++ row ∷ [] }, row)

-- The attempt that closes the history; its detail names the ledger.
closing : (ℕ → Text) → AnchorInput → RecordedAttempt
closing anchored_in input = record {
  outcome = succeeded;
  detail = some (anchored_in input.stellar_ledger);
  stellar_tx_hash = some input.stellar_tx_hash;
}

-- `anchored_in` prints "anchored in ledger N".
module _ (anchored_in : ℕ → Text) where
  unfoldable pub write_anchor :
      Database → Text → AnchorInput → ℕ → Outcome (Database × AnchorRecordEntity)
  unfolding save_anchor closing
  write_anchor db batch_id input now = do
    saved ← save_anchor db batch_id input
    ok (record_attempt saved.0 batch_id (closing anchored_in input) now, saved.1)

  unfoldable pub record_anchor :
      Database → Text → AnchorInput → ℕ → Outcome (Database × AnchorRecordEntity)
  unfolding write_anchor
  record_anchor db batch_id input now = do
    batch ← find_one db batch_id
    root ← sealed_root batch not_sealed
    throw_if (not (text_eq root input.merkle_root)) (conflict (root_differs input.merkle_root root))
    elim (find_anchor db batch_id) [
      | none ↦ write_anchor db batch_id input now
      | some existing ↦
          if text_eq existing.stellar_tx_hash input.stellar_tx_hash
          then ok (db, existing)
          else err (conflict (already_anchored existing.stellar_tx_hash))
    ]

unfoldable pub record_anchor_failure : Database → Text → RecordedAttempt → ℕ → Outcome Database
record_anchor_failure db batch_id input now = do
  batch ← find_one db batch_id
  root ← sealed_root batch not_sealed
  elim (find_anchor db batch_id) [
    | none ↦ ok (record_attempt db batch_id input now)
    | some anchored ↦ err (conflict (already_anchored anchored.stellar_tx_hash))
  ]

pub record OnChain : Type 0 where
  pub network : StellarNetwork
  pub tx_hash : Text
  pub ledger : ℕ
  pub explorer_url : Text
  pub root_matches_ledger : Option Bool

pub record EventVerification : Type 0 where
  pub event_id : Text
  pub batch_id : Text
  pub leaf : Text
  pub proof : List MerkleProofStep
  pub merkle_root : Text
  pub proof_valid : Bool
  pub on_chain : Option OnChain

unfoldable pub explorer_url : StellarNetwork → Text → Text
explorer_url public tx_hash = text "https://stellar.expert/explorer/public/tx/" ++ tx_hash
explorer_url testnet tx_hash = text "https://stellar.expert/explorer/testnet/tx/" ++ tx_hash

-- `??` on the ledger sequence.
unfoldable pub or_else : Option ℕ → ℕ → ℕ
or_else none n = n
or_else (some m) n = m

unfoldable pub on_chain_of : LedgerConfirmation → AnchorRecordEntity → OnChain
unfolding or_else explorer_url
on_chain_of confirmation anchor = record {
  network = anchor.network;
  tx_hash = anchor.stellar_tx_hash;
  ledger = or_else confirmation.ledger anchor.stellar_ledger;
  explorer_url = explorer_url anchor.network anchor.stellar_tx_hash;
  root_matches_ledger = confirmation.root_matches_ledger;
}

-- `findIndex`
unfoldable pub index_of : ℕ → Text → List CollectionEventEntity → Option ℕ
index_of i event_id [] = none
index_of i event_id (e ∷ es) =
    let rest = index_of (i + 1) event_id es in if text_eq e.id event_id then some i else rest

-- `leaves[index]!`
unfoldable pub leaf_at : List Text → ℕ → Text
leaf_at leaves i = elim (get_elem? leaves i) [ none ↦ [] | some leaf ↦ leaf ]

-- `ledger` is what `LedgerVerificationService.verify` answers for an anchor.
module _ (sha : Sha256) (ledger : AnchorRecordEntity → LedgerConfirmation) where
  unfoldable pub proof_at : List Text → ℕ → Outcome (List MerkleProofStep)
  proof_at leaves i = elim (merkle_proof sha leaves i) [
    | ok proof ↦ ok proof
    | err e ↦ err (internal merkle_failure)
  ]

  -- The answer, once the event is known to be the batch's number `index`.
  unfoldable pub describe :
      Database → Text → Text → List Text → Text → ℕ → Outcome EventVerification
  unfolding leaf_at proof_at on_chain_of
  describe db batch_id event_id leaves root index = do
    proof ← proof_at leaves index
    let anchor = find_anchor db batch_id
    ok (record {
      event_id = event_id;
      batch_id = batch_id;
      leaf = leaf_at leaves index;
      proof = proof;
      merkle_root = root;
      proof_valid = verify_merkle_proof sha (leaf_at leaves index) proof root;
      on_chain = elim anchor [ none ↦ none | some a ↦ some (on_chain_of (ledger a) a) ];
    })

  unfoldable pub verify_event : Database → Text → Text → Outcome EventVerification
  unfolding describe
  verify_event db batch_id event_id = do
    batch ← find_one db batch_id
    root ← or_throw (truthy batch.merkle_root) (conflict not_sealed)
    let events = ordered_events db batch_id
    index ← or_throw (index_of 0 event_id events) (not_found event_not_in_batch)
    describe db batch_id event_id (leaves_of sha events) root index
