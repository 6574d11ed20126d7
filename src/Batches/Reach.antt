-- ===== src/Batches/Reach.antt =====
-- The backend as a state machine: each step is one request of the batch services or of ingest that
-- succeeds, or a change of the catalogue of materials. The upload of a photo, which sets the `photoUri`
-- of an event and nothing else of it, is no step; Photos has it over its own state. A request that throws writes nothing. The rows that ingest reads may be
-- other ones at each step.
use proofchain.Prelude.{
  All, ok, Text, ℕ, ◌≡◌, refl, ◌∙◌, ◌≢◌, inl, inr, Option, none, List, [], ◌∷◌, ℤ,
}
use proofchain.Database.{
  Database, BatchEntity, CollectionEventEntity, AnchorRecordEntity, BatchStatus, MaterialEntity,
  events_in, find_anchor, find_batch, in_batch,
}
use proofchain.Hashing.{Sha256}
use proofchain.Batches.Anchoring.{AnchorInput, record_anchor, record_anchor_failure}
use proofchain.Batches.Invariant.{IsValid}
use proofchain.Attempts.{RecordedAttempt}
use proofchain.Batches.{add_events, advance_status, create, remove_event, seal}
use proofchain.Batches.Lifecycle.{add_events-IsValid, remove_event-IsValid, seal-IsValid}
use proofchain.Batches.Advance.{advance_status-IsValid}
use proofchain.Batches.Creation.{create-IsValid}
use proofchain.Batches.Preservation.{BatchIsValid-events}
use proofchain.Batches.WriteBack.{
  record_anchor-IsValid, record_anchor_failure-IsValid, same-IsValid,
}
use proofchain.Canonical.{WeighInPayload, event_payload_hash}
use proofchain.Signing.{NodeCrypto}
use proofchain.Events.{IngestResult, Registry, ingest, new_event}
use proofchain.Events.Ingest.{ingest_cases}

-- An event as ingest stores it: in no batch, under an id of its own.
pub record IsNew (db : Database) (e : CollectionEventEntity) : Type 0 where
  pub unassigned : e.batch_id ≡ none
  pub unused_id : All (λ e'. e'.id ≢ e.id) db.events

module _ (sha : Sha256) (crypto : NodeCrypto) (parse_date : Text → Option ℤ)
    (anchored_in : ℕ → Text) where
  pub data Step (db : Database) (db' : Database) : Type 0 where
    creates :
        (new_id : Text) (now : ℕ) (hub_id material : Text) (b : BatchEntity)
        → find_batch db new_id ≡ none
        → create db new_id now hub_id material ≡ ok (db', b)
        → Step db db'
    adds :
        (id : Text) (event_ids : List Text) (b : BatchEntity)
        → add_events db id event_ids ≡ ok (db', b)
        → Step db db'
    removes :
        (id event_id : Text) (b : BatchEntity)
        → remove_event db id event_id ≡ ok (db', b)
        → Step db db'
    seals : (id : Text) (now : ℕ) (b : BatchEntity) → seal sha db id now ≡ ok (db', b) → Step db db'
    advances :
        (id : Text) (to : BatchStatus) (b : BatchEntity)
        → advance_status db id to ≡ ok (db', b)
        → Step db db'
    writes_back :
        (id : Text) (input : AnchorInput) (now : ℕ) (a : AnchorRecordEntity)
        → record_anchor anchored_in db id input now ≡ ok (db', a)
        → Step db db'
    reports :
        (id : Text) (input : RecordedAttempt) (now : ℕ)
        → record_anchor_failure db id input now ≡ ok db'
        → Step db db'
    ingests :
        (registry : Registry) (skew : ℕ) (new_id : Text) (now : ℕ) (payload : WeighInPayload)
        (signature : Text) (r : IngestResult)
        → All (λ e. e.id ≢ new_id) db.events
        → ingest sha crypto parse_date registry skew db new_id now payload signature ≡ ok (db', r)
        → Step db db'
    catalogues : (ms : List MaterialEntity) → db' ≡ record db { materials = ms } → Step db db'

  pub data Reach (db : Database) : Database → Type 0 where
    here : Reach db db
    next : {mid last : Database} → Reach db mid → Step mid last → Reach db last

  pub new_elsewhere :
      (db : Database) (e : CollectionEventEntity) (j : Text)
      → IsNew db e
      → events_in (record db { events = e ∷ db.events }) j ≡ events_in db j
  unfolding events_in in_batch
  new_elsewhere db e j n = rw n.unassigned

  new-IsValid :
      (db : Database) (e : CollectionEventEntity)
      → IsNew db e
      → IsValid sha db
      → IsValid sha (record db { events = e ∷ db.events })
  unfolding find_batch find_anchor
  new-IsValid db e n v = record {
    batch_valid = λ id b found.
        BatchIsValid-events sha db _ b (new_elsewhere db e b.id n) (v.batch_valid id b found);
    no_orphans = λ id none_there. new_elsewhere db e id n ∙ v.no_orphans id none_there;
    unique_ids = (n.unused_id, v.unique_ids);
    anchored = λ id a found. v.anchored id a found;
  }

  catalogue-IsValid :
      (db : Database) (ms : List MaterialEntity)
      → IsValid sha db
      → IsValid sha (record db { materials = ms })
  unfolding find_anchor
  catalogue-IsValid db ms v =
      same-IsValid sha db (record db { materials = ms }) refl refl v.anchored v

  -- Every step keeps the invariant.
  pub Step-IsValid : {db db' : Database} → Step db db' → IsValid sha db → IsValid sha db'
  unfolding new_event
  Step-IsValid {db} (creates id now hub material b fresh h) v =
      create-IsValid sha db id now hub material v fresh h
  Step-IsValid {db} (adds id ids b h) v = add_events-IsValid sha db id ids v h
  Step-IsValid {db} (removes id event_id b h) v = remove_event-IsValid sha db id event_id v h
  Step-IsValid {db} (seals id now b h) v = seal-IsValid sha db id now v h
  Step-IsValid {db} (advances id to b h) v = advance_status-IsValid sha db id to v h
  Step-IsValid {db} (writes_back id input now a h) v =
      record_anchor-IsValid sha anchored_in db id input now v h
  Step-IsValid {db} (reports id input now h) v =
      record_anchor_failure-IsValid sha db id input now v h
  Step-IsValid {db} (ingests registry skew new_id now payload signature r unused h) v =
      elim (ingest_cases sha crypto parse_date registry skew db new_id now payload signature h) [
        | inl s ↦ rw s.after (
            new-IsValid db
              (new_event new_id now payload signature (event_payload_hash sha payload) s.verdict
                s.captured)
              (record { unassigned = refl; unused_id = unused }) v)
        | inr (same, _) ↦ rw same v
      ]
  Step-IsValid {db} (catalogues ms same) v = rw same (catalogue-IsValid db ms v)

  -- Every database that steps lead to from a valid one is valid.
  pub Reach-IsValid : {db db' : Database} → Reach db db' → IsValid sha db → IsValid sha db'
  Reach-IsValid here v = v
  Reach-IsValid (next r s) v = Step-IsValid s (Reach-IsValid r v)

abbrev pub empty_database : Database
empty_database = record { batches = []; events = []; anchors = []; attempts = []; materials = [] }

pub empty_database-IsValid : (sha : Sha256) → IsValid sha empty_database
unfolding find_batch events_in find_anchor
empty_database-IsValid sha = record {
  batch_valid = λ id b found. cc;
  no_orphans = λ id none_there. refl;
  unique_ids = tt;
  anchored = λ id a found. cc;
}
