-- ===== src/Batches/Examples.antt =====
-- The theorems on batches.service.ts at a concrete history.
use proofchain.Prelude.{
  length, get_elem?, exists, All, ok, truthy, text_eq, ℕ, ◌+◌, ◌<◌, ◌≡◌, refl, sym, subst, ◌≢◌, ◌↔◌,
  true, false, none, some, [], ◌∷◌, arith,
}
use proofchain.Batches.{ordered_events, advance_status, legal_transitions, status_patch, leaves_of}
use proofchain.Batches.History.{
  batch_id, event_id, signature, weigh_in, accepting, dates, registry, tx, anchored_in, pet,
  accepted, sealed_batch, catalogued, open_batch, ingested, sealed_up, anchored_up, anchors_batch,
  until_sealed, whole_life, tail_anchor, root, input,
}
use proofchain.Database.{
  CollectionEventEntity, find_batch, sealed, AnchorRecordEntity, opened, BatchEntity, Database,
  failed, find_anchor, processed,
}
use proofchain.Batches.Anchoring.{
  EventVerification, index_of, verify_event, record_anchor_failure, PendingAnchorBatch,
  pending_anchor, anchor_row, record_anchor,
}
use proofchain.Batches.Reach.{
  Step-IsValid, catalogues, empty_database-IsValid, Reach-IsValid, here, next, Step, advances,
}
use proofchain.Hashing.Toy.{toy}
use proofchain.Batches.Invariant.{IsValid}
use proofchain.Merkle.{hash_leaf, merkle_proof, verify_merkle_proof}
use proofchain.Ledger.{LedgerConfirmation}
use proofchain.Batches.Verification.{verify_event-proof_valid}
use proofchain.Hashing.Utf8.{utf8}
use proofchain.Events.{IngestResult, context_of, ingest}
use proofchain.Integrity.{evaluate_integrity, IntegrityContext, is_fail}
use proofchain.Events.Ingest.{UniquePayloads, ingest-UniquePayloads, ingest_replay}
use proofchain.Integrity.Rules.{BySignedDevice, InBounds, IsFresh, NotAhead, evaluate_integrity_iff}
use proofchain.Batches.Permanence.{Reach-Kept}
use proofchain.Batches.Kept.{Kept}
use proofchain.Attempts.{
  RecordedAttempt, get_summary, is_failure, or_empty, record_attempt, summaries_for, new_attempt,
  contains,
}
use proofchain.Attempts.Recorded.{rows_of, summaries_for_counts}
use proofchain.Batches.Anchored.{Reach-anchor}
use proofchain.Backoff.{backoff_delay_ms}
use proofchain.Attempts.Summary.{failing}
use proofchain.Batches.Queue.{Waits, pending_anchor-held}
use proofchain.Batches.Settled.{IsUnused, record_anchor-settles}
use proofchain.Batches.Offered.{HasPassed, pending_anchor-offered}
unfoldable use proofchain.Batches.History.{running}

Step-IsValid_example : IsValid toy catalogued
Step-IsValid_example =
    Step-IsValid toy accepting dates anchored_in (catalogues (pet ∷ []) refl)
      (empty_database-IsValid toy)

Reach-IsValid_example : IsValid toy anchored_up
Reach-IsValid_example =
    Reach-IsValid toy accepting dates anchored_in whole_life (empty_database-IsValid toy)

abbrev unconsulted : AnchorRecordEntity → LedgerConfirmation
unconsulted a = record {
  checked = false;
  root_matches_ledger = none;
  memo_matches = false;
  data_entry_matches = false;
  ledger = none;
}

still_there : find_batch anchored_up batch_id ≡ some sealed_batch
unfolding running
still_there = refl

first_event : index_of 0 event_id (ordered_events anchored_up batch_id) ≡ some 0
unfolding running
first_event = refl

verify_event-proof_valid_example :
    (r : EventVerification) × (e : CollectionEventEntity) × (verify_event toy unconsulted
        anchored_up batch_id event_id
      ≡ ok r)
    × (r.event_id ≡ event_id)
    × (r.batch_id ≡ batch_id)
    × (merkle_proof toy (leaves_of toy (ordered_events anchored_up batch_id)) 0 ≡ ok r.proof)
    × (verify_merkle_proof toy r.leaf r.proof r.merkle_root ≡ true)
    × (r.proof_valid ≡ true)
    × (sealed_batch.merkle_root ≡ some r.merkle_root)
    × (get_elem? (ordered_events anchored_up batch_id) 0 ≡ some e)
    × (e.id ≡ event_id)
    × (r.leaf ≡ hash_leaf toy (utf8 e.payload_hash))
verify_event-proof_valid_example =
    verify_event-proof_valid toy unconsulted anchored_up batch_id event_id sealed_batch 0
      (Reach-IsValid toy accepting dates anchored_in whole_life (empty_database-IsValid toy))
      still_there (λ (e : sealed ≡ opened). cc) first_event

ingested_once :
    ingest toy accepting dates registry 300 open_batch event_id 8 weigh_in signature
    ≡ ok (ingested, accepted)
unfolding running
ingested_once = refl

ingest-UniquePayloads_example : UniquePayloads ingested.events
ingest-UniquePayloads_example =
    ingest-UniquePayloads toy accepting dates registry 300 open_batch event_id 8 weigh_in signature
      ingested accepted tt ingested_once

-- The same weigh-in again, with the signature of nobody.
ingest_replay_example :
    (r : IngestResult) × (ingest toy accepting dates registry 300 ingested tx 9 weigh_in []
      ≡ ok (ingested, r))
    × (r.event_id ≡ event_id)
    × (r.duplicate ≡ true)
    × (r.quarantined ≡ true)
ingest_replay_example =
    ingest_replay toy accepting dates registry 300 open_batch event_id 8 weigh_in signature ingested
      accepted tx 9 [] ingested_once

abbrev first_context : IntegrityContext
first_context = context_of registry weigh_in none 8 300

evaluate_integrity_iff_example :
    (is_fail (evaluate_integrity accepting dates weigh_in signature first_context).outcome ≡ false)
    ↔ (BySignedDevice accepting dates weigh_in signature first_context
        × InBounds accepting dates weigh_in signature first_context
        × NotAhead accepting dates weigh_in signature first_context
        × IsFresh accepting dates weigh_in signature first_context)
evaluate_integrity_iff_example =
    evaluate_integrity_iff accepting dates weigh_in signature first_context

sealed_there : find_batch sealed_up batch_id ≡ some sealed_batch
unfolding running
sealed_there = refl

-- The batch, sealed, and then anchored.
Reach-Kept_example : Kept sealed_up anchored_up batch_id sealed_batch
Reach-Kept_example =
    Reach-Kept toy accepting dates anchored_in batch_id sealed_batch (next here anchors_batch)
      (Reach-IsValid toy accepting dates anchored_in until_sealed (empty_database-IsValid toy))
      sealed_there (λ (e : sealed ≡ opened). cc)

abbrev processed_up : Database
processed_up = record anchored_up { batches = record sealed_batch { status = processed } ∷ [] }

processes_batch : Step toy accepting dates anchored_in anchored_up processed_up
unfolding advance_status status_patch legal_transitions running
processes_batch = advances batch_id processed (record sealed_batch { status = processed }) refl

anchored_row : find_anchor anchored_up batch_id ≡ some tail_anchor
unfolding running
anchored_row = refl

Reach-anchor_example :
    (find_anchor processed_up batch_id ≡ some tail_anchor)
    × ((b : BatchEntity) × (find_batch processed_up batch_id ≡ some b)
        × (b.merkle_root ≡ some tail_anchor.merkle_root))
Reach-anchor_example =
    Reach-anchor toy accepting dates anchored_in batch_id tail_anchor (next here processes_batch)
      (Reach-IsValid toy accepting dates anchored_in whole_life (empty_database-IsValid toy))
      anchored_row

listed_batch : contains (batch_id ∷ []) batch_id ≡ true
unfolding contains text_eq
listed_batch = refl

summaries_for_counts_example :
    ((or_empty batch_id (get_summary (summaries_for anchored_up (batch_id ∷ [])) batch_id)).attempts
      ≡ length (rows_of anchored_up batch_id))
    × ((or_empty batch_id
          (get_summary (summaries_for anchored_up (batch_id ∷ [])) batch_id)).failures
        ≡ failing (rows_of anchored_up batch_id))
summaries_for_counts_example =
    summaries_for_counts anchored_up (batch_id ∷ []) batch_id listed_batch

abbrev failure : RecordedAttempt
failure = record { outcome = failed; detail = none; stellar_tx_hash = none }

abbrev failed_up : Database
failed_up = record_attempt sealed_up batch_id failure 11

failure_reported : record_anchor_failure sealed_up batch_id failure 11 ≡ ok failed_up
unfolding record_anchor_failure running
failure_reported = refl

still_failing : is_failure failed ≡ true
unfolding is_failure
still_failing = refl

sealed_batch-Waits : Waits failed_up sealed_batch
unfolding record_attempt new_attempt running
sealed_batch-Waits = (refl, refl, (root, refl))

found_failed : find_batch failed_up batch_id ≡ some sealed_batch
unfolding record_attempt new_attempt running
found_failed = refl

thirty_seconds : backoff_delay_ms (failing (rows_of sealed_up batch_id) + 1) ≡ 30000
unfolding backoff_delay_ms
thirty_seconds = refl

-- The failure of 11 ms after the epoch.
pending_anchor-held_example :
    All (λ (p : PendingAnchorBatch). p.id ≢ batch_id) (pending_anchor failed_up 30010)
pending_anchor-held_example =
    pending_anchor-held sealed_up failed_up batch_id failure 11 failure_reported tt still_failing
      30010 (subst (λ d. 30010 < 11 + d) (sym thirty_seconds) (omega arith))

-- One failure, and thirty seconds later.
retry_due : All (HasPassed failed_up batch_id 30011) (rows_of failed_up batch_id)
unfolding record_attempt new_attempt backoff_delay_ms is_failure running
retry_due = (omega arith, tt)

pending_anchor-offered_example :
    exists (λ (p : PendingAnchorBatch). text_eq p.id batch_id) (pending_anchor failed_up 30011)
    ≡ true
pending_anchor-offered_example =
    pending_anchor-offered failed_up batch_id 30011 sealed_batch found_failed sealed_batch-Waits
      retry_due

sealed_batch-waiting : Waits sealed_up sealed_batch
unfolding running
sealed_batch-waiting = (refl, refl, (root, refl))

fresh_transaction : IsUnused sealed_up tx
unfolding running
fresh_transaction = refl

rooted_batch : truthy sealed_batch.merkle_root ≡ some input.merkle_root
unfolding running
rooted_batch = refl

record_anchor-settles_example :
    (db' : Database) × (record_anchor anchored_in sealed_up batch_id input 11
      ≡ ok (db', anchor_row batch_id input))
    × ((t : ℕ) → All (λ (p : PendingAnchorBatch). p.id ≢ batch_id) (pending_anchor db' t))
record_anchor-settles_example =
    record_anchor-settles anchored_in sealed_up batch_id sealed_batch input 11 sealed_there
      sealed_batch-waiting rooted_batch fresh_transaction
