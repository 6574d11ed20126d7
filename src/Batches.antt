-- ===== src/Batches.antt =====
-- apps/backend/src/batches/batches.service.ts: the batch lifecycle, open -> sealed -> processed ->
-- sold. A method takes the database and returns it changed, with its result, or throws and leaves
-- it as it was (the writes of `addEvents`, `removeEvent` and `seal` stand in a transaction, the
-- others throw before their first write). Fresh ids and the clock are arguments. The root and the
-- totals of the rows are those of `Merkle` and of a sum in grams.
pub mod Anchoring
pub mod Invariant
pub mod Effects
pub mod Members
pub mod Totals
pub mod Preservation
pub mod Lifecycle
pub mod Advance
pub mod Creation
pub mod WriteBack
pub mod Reach
pub mod Kept
pub mod Permanence
pub mod Anchored
pub mod Queue
pub mod Offered
pub mod Settled
pub mod Verification
pub mod Health
pub mod History
mod Examples
use proofchain.Prelude.{
  ◌==◌, if◌then◌else◌, is_none, is_empty, length, keep, exists, throw_if, or_throw, ok, err, Text,
  truthy, text_eq, ℕ, Bool, not, ◌&&◌, none, some, List, [], ◌∷◌, ◌++◌, map, ℤ, pos, ◌+ℤ◌, ◌>>=◌,
  ◌>>◌,
}
use proofchain.Hashing.{Sha256}
use proofchain.Hashing.Utf8.{utf8}
use proofchain.Database.{
  Database, BatchEntity, BatchStatus, CollectionEventEntity, opened, sealed, processed, sold,
  events_in, find_batch, in_batch, order_events, update_batch,
}
use proofchain.Errors.{
  Outcome, not_found, bad_request, conflict, internal, batch_missing, empty_batch,
  event_not_in_batch, holds_quarantined, illegal_transition, material_mismatch, merkle_failure,
  no_root, not_eligible, not_open, row_missing, sealed_by_status,
}
use proofchain.Merkle.{hash_leaf, merkle_root_hex}
use proofchain.Attempts.{contains}
use proofchain.Materials.{assert_openable}

status_code : BatchStatus → ℕ
status_code opened = 0
status_code sealed = 1
status_code processed = 2
status_code sold = 3

-- `===` on statuses.
unfoldable pub status_eq : BatchStatus → BatchStatus → Bool
unfolding status_code
status_eq s t = status_code s == status_code t

-- LEGAL_TRANSITIONS
unfoldable pub legal_transitions : BatchStatus → List BatchStatus
legal_transitions opened = sealed ∷ []
legal_transitions sealed = processed ∷ []
legal_transitions processed = sold ∷ []
legal_transitions sold = []

unfoldable pub sum_weights : ℤ → List CollectionEventEntity → ℤ
sum_weights sum [] = sum
sum_weights sum (e ∷ es) = sum_weights (sum +ℤ e.weight) es

unfoldable pub new_batch : Text → ℕ → Text → Text → BatchEntity
new_batch new_id now hub_id material = record {
  id = new_id;
  hub_id = hub_id;
  material = material;
  status = opened;
  total_weight = pos 0;
  event_count = 0;
  merkle_root = none;
  sealed_at = none;
  created_at = now;
}

-- `create`
unfoldable pub create : Database → Text → ℕ → Text → Text → Outcome (Database × BatchEntity)
create db new_id now hub_id material = do
  assert_openable db material
  let batch = new_batch new_id now hub_id material
  ok (record db { batches = db.batches ++ batch ∷ [] }, batch)

unfoldable pub find_one : Database → Text → Outcome BatchEntity
find_one db id = or_throw (find_batch db id) (not_found batch_missing)

-- `orderedEvents`
unfoldable pub ordered_events : Database → Text → List CollectionEventEntity
ordered_events db batch_id = order_events (events_in db batch_id)

-- The `where` of the candidates: asked for, unassigned, not quarantined, at the batch's hub.
unfoldable pub eligible : List Text → Text → CollectionEventEntity → Bool
eligible event_ids hub_id e =
    contains event_ids e.id
    && (is_none e.batch_id && (not e.quarantined && text_eq e.hub_id hub_id))

-- `update(CollectionEventEntity, { id: In(ids) }, { batchId })`
unfoldable pub assign : List Text → Text → CollectionEventEntity → CollectionEventEntity
assign ids batch_id e = if contains ids e.id then record e { batch_id = some batch_id } else e

-- `update(CollectionEventEntity, { id, batchId }, { batchId: null })`
unfoldable pub unassign : Text → Text → CollectionEventEntity → CollectionEventEntity
unassign event_id batch_id e =
    if text_eq e.id event_id && in_batch batch_id e then record e { batch_id = none } else e

unfoldable pub totals_patch : List CollectionEventEntity → BatchEntity → BatchEntity
totals_patch rows b = record b {
  total_weight = sum_weights (pos 0) rows;
  event_count = length rows;
}

-- `recomputeTotals`, and the update with its result.
unfoldable pub recompute_totals : Database → Text → Database
recompute_totals db batch_id = update_batch db batch_id (totals_patch (events_in db batch_id))

-- `findOneOrFail`
unfoldable pub reread : Database → Text → Outcome (Database × BatchEntity)
reread db batch_id = do
  batch ← or_throw (find_batch db batch_id) (internal row_missing)
  ok (db, batch)

unfoldable pub add_events : Database → Text → List Text → Outcome (Database × BatchEntity)
add_events db batch_id event_ids = do
  batch ← or_throw (find_batch db batch_id) (not_found batch_missing)
  throw_if (not (status_eq batch.status opened)) (conflict (not_open batch.status))
  let candidates = keep (eligible event_ids batch.hub_id) db.events
  let found = map (λ c. c.id) candidates
  let rejected = keep (λ id. not (contains found id)) event_ids
  throw_if (not (is_empty rejected)) (bad_request (not_eligible rejected))
  let mismatched = keep (λ c. not (text_eq c.material batch.material)) candidates
  throw_if (not (is_empty mismatched))
      (bad_request (material_mismatch (map (λ c. c.id) mismatched)))
  let assigned = record db { events = map (assign found batch_id) db.events }
  reread (recompute_totals assigned batch_id) batch_id

unfoldable pub remove_event : Database → Text → Text → Outcome (Database × BatchEntity)
remove_event db batch_id event_id = do
  batch ← or_throw (find_batch db batch_id) (not_found batch_missing)
  throw_if (not (status_eq batch.status opened)) (conflict (not_open batch.status))
  let affected = keep (λ e. text_eq e.id event_id && in_batch batch_id e) db.events
  throw_if (is_empty affected) (not_found event_not_in_batch)
  let released = record db { events = map (unassign event_id batch_id) db.events }
  reread (recompute_totals released batch_id) batch_id

unfoldable pub status_patch : BatchStatus → BatchEntity → BatchEntity
status_patch to b = record b { status = to }

unfoldable pub advance_status : Database → Text → BatchStatus → Outcome (Database × BatchEntity)
advance_status db batch_id to = do
  batch ← find_one db batch_id
  throw_if (not (exists (status_eq to) (legal_transitions batch.status)))
      (conflict (illegal_transition batch.status to))
  throw_if (status_eq to sealed) (conflict sealed_by_status)
  throw_if (status_eq to processed && is_none (truthy batch.merkle_root)) (conflict no_root)
  let advanced = update_batch db batch_id (status_patch to)
  batch' ← find_one advanced batch_id
  ok (advanced, batch')

unfoldable pub seal_patch : ℕ → Text → List CollectionEventEntity → BatchEntity → BatchEntity
seal_patch now root events b = record b {
  status = sealed;
  sealed_at = some now;
  merkle_root = some root;
  total_weight = sum_weights (pos 0) events;
  event_count = length events;
}

module _ (sha : Sha256) where
  unfoldable pub leaves_of : List CollectionEventEntity → List Text
  leaves_of events = map (λ e. hash_leaf sha (utf8 e.payload_hash)) events

  root_of : List CollectionEventEntity → Outcome Text
  root_of events = elim (merkle_root_hex sha (leaves_of events)) [
    | ok root ↦ ok root
    | err e ↦ err (internal merkle_failure)
  ]

  unfoldable pub seal : Database → Text → ℕ → Outcome (Database × BatchEntity)
  unfolding root_of
  seal db batch_id now = do
    batch ← or_throw (find_batch db batch_id) (not_found batch_missing)
    throw_if (not (status_eq batch.status opened)) (conflict (not_open batch.status))
    let events = ordered_events db batch_id
    throw_if (is_empty events) (bad_request empty_batch)
    let quarantined = keep (λ e. e.quarantined) events
    throw_if (not (is_empty quarantined))
        (conflict (holds_quarantined (map (λ e. e.id) quarantined)))
    root ← root_of events
    reread (update_batch db batch_id (seal_patch now root events)) batch_id
