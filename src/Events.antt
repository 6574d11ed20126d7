-- ===== src/Events.antt =====
-- apps/backend/src/events/events.service.ts: ingest of a signed weigh-in.
pub mod Ingest
use proofchain.Prelude.{
  is_none, find, throw_if, or_throw, ok, Text, text, text_eq, ℕ, Bool, true, false, not, ◌||◌,
  Option, none, some, List, ◌∷◌, ℤ, ◌>>=◌, ◌>>◌,
}
use proofchain.Database.{CollectionEventEntity, Database}
use proofchain.Integrity.{
  CollectorEntity, DeviceEntity, HubEntity, IntegrityVerdict, IntegrityContext, evaluate_integrity,
  is_fail,
}
use proofchain.Hashing.{Sha256}
use proofchain.Materials.{assert_known}
use proofchain.Canonical.{WeighInPayload, event_payload_hash}
use proofchain.Signing.{NodeCrypto}
use proofchain.Errors.{
  Outcome, bad_request, internal, invalid_date, unknown_parties, unsupported_schema,
}

-- The tables that ingest only reads.
pub record Registry : Type 0 where
  pub devices : List DeviceEntity
  pub collectors : List CollectorEntity
  pub hubs : List HubEntity

pub record IngestResult : Type 0 where
  pub event_id : Text
  pub payload_hash : Text
  pub quarantined : Bool
  pub integrity : IntegrityVerdict
  pub duplicate : Bool

unfoldable pub find_payload : Database → Text → Option CollectionEventEntity
find_payload db payload_hash = find (λ e. text_eq e.payload_hash payload_hash) db.events

find_device : Registry → Text → Option DeviceEntity
find_device registry id = find (λ d. text_eq d.id id) registry.devices

find_collector : Registry → Text → Option CollectorEntity
find_collector registry id = find (λ c. text_eq c.id id) registry.collectors

find_hub : Registry → Text → Option HubEntity
find_hub registry id = find (λ h. text_eq h.id id) registry.hubs

-- The rows of the registry that the payload names, and whether its hash is stored.
unfoldable pub context_of :
    Registry → WeighInPayload → Option CollectionEventEntity → ℕ → ℕ → IntegrityContext
unfolding find_device find_collector find_hub
context_of registry payload existing now max_clock_skew_seconds = record {
  device = find_device registry payload.device_id;
  collector = find_collector registry payload.collector_id;
  hub = find_hub registry payload.hub_id;
  is_duplicate = not (is_none existing);
  now = now;
  max_clock_skew_seconds = max_clock_skew_seconds;
}

unfoldable pub new_event :
    Text → ℕ → WeighInPayload → Text → Text → IntegrityVerdict → ℤ → CollectionEventEntity
new_event new_id now payload signature payload_hash verdict captured = record {
  id = new_id;
  collector_id = payload.collector_id;
  hub_id = payload.hub_id;
  device_id = payload.device_id;
  batch_id = none;
  weight = payload.weight;
  material = payload.material;
  captured_at = captured;
  received_at = now;
  photo_hash = payload.photo_hash;
  photo_uri = none;
  nonce = payload.nonce;
  signature = signature;
  payload_hash = payload_hash;
  integrity = verdict.outcome;
  quarantined = is_fail verdict.outcome;
}

-- `ingest`. The driver refuses an instant that is not valid. One ingest after the other: the branch
-- for the lost race on the unique index of `payloadHash` needs two at once, and it answers as the
-- branch for a stored payload does.
module _ (sha : Sha256) (crypto : NodeCrypto) (parse_date : Text → Option ℤ) (registry : Registry)
    (max_clock_skew_seconds : ℕ) where
  unfoldable pub replayed :
      Database → Text → IntegrityVerdict → CollectionEventEntity → Outcome (Database × IngestResult)
  replayed db payload_hash verdict existing = ok (
    db,
    record {
      event_id = existing.id;
      payload_hash = payload_hash;
      quarantined = true;
      integrity = verdict;
      duplicate = true;
    },
  )

  unfoldable pub store :
      Database
      → Text
      → ℕ
      → WeighInPayload
      → Text
      → Text
      → IntegrityVerdict
      → IntegrityContext
      → Outcome (Database × IngestResult)
  store db new_id now payload signature payload_hash verdict ctx = do
    throw_if (is_none ctx.device || (is_none ctx.collector || is_none ctx.hub))
        (bad_request unknown_parties)
    captured ← or_throw (parse_date payload.captured_at) (internal invalid_date)
    let event = new_event new_id now payload signature payload_hash verdict captured
    ok (
      record db { events = event ∷ db.events },
      record {
        event_id = new_id;
        payload_hash = payload_hash;
        quarantined = is_fail verdict.outcome;
        integrity = verdict;
        duplicate = false;
      },
    )

  unfoldable pub ingest :
      Database → Text → ℕ → WeighInPayload → Text → Outcome (Database × IngestResult)
  unfolding replayed store
  ingest db new_id now payload signature = do
    throw_if (not (text_eq payload.schema (text "proofchain.weighin.v2")))
        (bad_request unsupported_schema)
    assert_known db payload.material
    let payload_hash = event_payload_hash sha payload
    let existing = find_payload db payload_hash
    let ctx = context_of registry payload existing now max_clock_skew_seconds
    let verdict = evaluate_integrity crypto parse_date payload signature ctx
    elim existing [
      | some e ↦ replayed db payload_hash verdict e
      | none ↦ store db new_id now payload signature payload_hash verdict ctx
    ]
