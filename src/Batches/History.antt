-- ===== src/Batches/History.antt =====
-- A concrete history of batches.service.ts: a material is catalogued, a batch
-- opened, an event ingested and added, the batch sealed, and its anchor written back.
use proofchain.Prelude.{
  ◌==◌, if◌then◌else◌, length, replicate, Text, text, text_eq, ℕ, refl, true, false, Option, none,
  some, [], ◌∷◌, ℤ, pos, ◌+ℤ◌,
}
use proofchain.Attempts.{contains, new_attempt, record_attempt}
use proofchain.Materials.{assert_openable, assert_known}
use proofchain.Batches.{
  add_events, assign, create, eligible, find_one, leaves_of, new_batch, ordered_events,
  recompute_totals, remove_event, reread, seal, seal_patch, status_eq, sum_weights, totals_patch,
}
use proofchain.Database.{
  BatchEntity, CollectionEventEntity, Database, MaterialEntity, before, events_in, find_anchor,
  find_batch, find_material, in_batch, insert_event, order_events, pass, sealed, testnet,
  update_batch, AnchorRecordEntity, succeeded,
}
use proofchain.Batches.Anchoring.{
  AnchorInput, anchor_row, record_anchor, save_anchor, sealed_root, index_of, write_anchor,
}
use proofchain.Batches.Reach.{
  empty_database, Step, adds, catalogues, creates, ingests, seals, Reach, here, next, writes_back,
}
use proofchain.Hashing.Toy.{toy_hex, toy}
use proofchain.Merkle.{
  assert_leaves, build_merkle_tree, first, hash_leaf, last_level, levels_from, merkle_root_hex,
}
use proofchain.Hashing.Utf8.{utf8}
use proofchain.Hashing.Hex.{is_hash_hex, is_hex_unit}
use proofchain.Canonical.{
  WeighInPayload, event_payload_hash, canonical_in_grams, json_string, json_weight,
}
use proofchain.Signing.{NodeCrypto, verify_weigh_in_signature}
use proofchain.Events.{IngestResult, Registry, new_event, context_of, find_payload, ingest}
use proofchain.Integrity.{
  IntegrityVerdict, clock_plausible, device_enrolled, not_duplicate, photo_present, signature_valid,
  weight_in_range, check_clock, check_device_enrolled, check_duplicate, check_photo,
  check_signature, check_weight_range, evaluate_integrity, overall,
}

abbrev pub batch_id : Text
batch_id = b'b' ∷ []

abbrev pub hub : Text
hub = b'h' ∷ []

abbrev pub material : Text
material = b'm' ∷ []

abbrev pub event_id : Text
event_id = b'e' ∷ []

abbrev pub signature : Text
signature = b's' ∷ b's' ∷ []

-- The weigh-in, as the device sent it.
abbrev pub weigh_in : WeighInPayload
weigh_in = record {
  schema = text "proofchain.weighin.v2";
  collector_id = [];
  hub_id = hub;
  device_id = [];
  weight = pos 1500;
  material = material;
  captured_at = [];
  photo_hash = replicate 64 48;
  nonce = [];
}

abbrev pub payload : Text
payload = event_payload_hash toy weigh_in

-- A verifier that accepts every signature of 64 bytes.
abbrev pub accepting : NodeCrypto
accepting = record {
  from_base64 = λ t. if length t == 1 then replicate 32 0 else replicate 64 0;
  ed25519_verify = λ message key s. true;
}

abbrev pub dates : Text → Option ℤ
dates s = some (pos 7)

abbrev pub registry : Registry
registry = record {
  devices = record { id = []; collector_id = []; public_key = b'k' ∷ []; revoked_at = none } ∷ [];
  collectors = record { id = []; active = true } ∷ [];
  hubs = record { id = hub; min_weight = pos 100; max_weight = pos 10000000 } ∷ [];
}

abbrev pub tx : Text
tx = b't' ∷ []

abbrev pub root : Text
root = toy_hex (0 ∷ payload)

abbrev pub anchored_in : ℕ → Text
anchored_in n = n ∷ []

abbrev pub pet : MaterialEntity
pet = record {
  code = material;
  name = material;
  description = none;
  examples = [];
  active = true;
  sort_order = pos 0;
}

abbrev pub clean : IntegrityVerdict
clean = record {
  outcome = pass;
  findings =
      record { check = device_enrolled; outcome = pass }
      ∷ record { check = signature_valid; outcome = pass }
      ∷ record { check = weight_in_range; outcome = pass }
      ∷ record { check = not_duplicate; outcome = pass }
      ∷ record { check = clock_plausible; outcome = pass }
      ∷ record { check = photo_present; outcome = pass }
      ∷ [];
}

abbrev pub event : Option Text → CollectionEventEntity
event batch = record (new_event event_id 8 weigh_in signature payload clean (pos 7)) {
  batch_id = batch;
}

abbrev pub accepted : IngestResult
accepted = record {
  event_id = event_id;
  payload_hash = payload;
  quarantined = false;
  integrity = clean;
  duplicate = false;
}

abbrev pub filled : BatchEntity → BatchEntity
filled b = record b { total_weight = pos 1500; event_count = 1 }

abbrev pub sealed_batch : BatchEntity
sealed_batch = record (filled (new_batch batch_id 1 hub material)) {
  status = sealed;
  merkle_root = some root;
  sealed_at = some 9;
}

abbrev pub catalogued : Database
catalogued = record empty_database { materials = pet ∷ [] }

abbrev pub open_batch : Database
open_batch = record catalogued { batches = new_batch batch_id 1 hub material ∷ [] }

abbrev pub ingested : Database
ingested = record open_batch { events = event none ∷ [] }

abbrev pub added : Database
added = record ingested {
  batches = filled (new_batch batch_id 1 hub material) ∷ [];
  events = event (some batch_id) ∷ [];
}

abbrev pub sealed_up : Database
sealed_up = record added { batches = sealed_batch ∷ [] }

abbrev pub input : AnchorInput
input = record {
  merkle_root = root;
  stellar_tx_hash = tx;
  stellar_ledger = 5;
  network = testnet;
  data_entry_key = [];
  anchored_at = 10;
}

-- Opens what the requests compute with.
unfoldable pub running : Unit {0}
unfolding create new_batch assert_openable find_material find_one find_batch update_batch add_events
    remove_event seal leaves_of ordered_events order_events insert_event before events_in in_batch
    recompute_totals reread eligible assign totals_patch sum_weights seal_patch status_eq text_eq
    contains record_anchor sealed_root save_anchor anchor_row find_anchor ◌+ℤ◌ merkle_root_hex
    build_merkle_tree assert_leaves is_hash_hex hash_leaf toy_hex is_hex_unit utf8 first last_level
    levels_from write_anchor record_attempt new_attempt index_of ingest assert_known find_payload
    context_of event_payload_hash canonical_in_grams json_string json_weight evaluate_integrity
    check_device_enrolled check_signature check_weight_range check_duplicate check_clock check_photo
    overall verify_weigh_in_signature new_event
running = tt

pub creates_batch : Step toy accepting dates anchored_in catalogued open_batch
unfolding running
creates_batch = creates batch_id 1 hub material (new_batch batch_id 1 hub material) refl refl

pub ingests_event : Step toy accepting dates anchored_in open_batch ingested
unfolding running
ingests_event = ingests registry 300 event_id 8 weigh_in signature accepted tt refl

pub adds_event : Step toy accepting dates anchored_in ingested added
unfolding running
adds_event = adds batch_id (event_id ∷ []) (filled (new_batch batch_id 1 hub material)) refl

pub seals_batch : Step toy accepting dates anchored_in added sealed_up
unfolding running
seals_batch = seals batch_id 9 sealed_batch refl

abbrev pub tail_anchor : AnchorRecordEntity
tail_anchor = anchor_row batch_id input

abbrev pub anchored_up : Database
anchored_up = record sealed_up {
  anchors = tail_anchor ∷ [];
  attempts =
      record {
        batch_id = batch_id;
        attempt_number = 1;
        outcome = succeeded;
        detail = some (5 ∷ []);
        stellar_tx_hash = some tx;
        occurred_at = 11;
      }
      ∷ [];
}

pub anchors_batch : Step toy accepting dates anchored_in sealed_up anchored_up
unfolding running
anchors_batch = writes_back batch_id input 11 tail_anchor refl

pub until_sealed : Reach toy accepting dates anchored_in empty_database sealed_up
until_sealed =
    next
      (next (next (next (next here (catalogues (pet ∷ []) refl)) creates_batch) ingests_event)
        adds_event)
      seals_batch

pub whole_life : Reach toy accepting dates anchored_in empty_database anchored_up
whole_life = next until_sealed anchors_batch
