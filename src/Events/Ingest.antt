-- ===== src/Events/Ingest.antt =====
-- What an ingest leaves behind: one event for each signed payload.
use proofchain.Prelude.{
  Bool-cases, Option-cases, find, All, ok, Text, text_eq_iff, text_eq_refl, text_eq, ℕ, ◌≡◌, refl,
  sym, ap, subst, ◌∙◌, ◌≢◌, ◌⊎◌, inl, inr, true, Option, none, some, List, [], ◌∷◌, arith, ℤ,
}
use proofchain.Hashing.{Sha256}
use proofchain.Canonical.{WeighInPayload, event_payload_hash}
use proofchain.Signing.{NodeCrypto}
use proofchain.Database.{CollectionEventEntity, Database, find_material}
use proofchain.Events.{IngestResult, Registry, find_payload, ingest, new_event, context_of}
use proofchain.Integrity.{IntegrityVerdict, evaluate_integrity}
use proofchain.Materials.{assert_known}

-- No two rows have one payload hash.
abbrev pub UniquePayloads : List CollectionEventEntity → Type 0
UniquePayloads [] = Unit
UniquePayloads (e ∷ es) = All (λ e'. e'.payload_hash ≢ e.payload_hash) es × UniquePayloads es

none_found :
    (payload_hash : Text) (es : List CollectionEventEntity)
    → find (λ e. text_eq e.payload_hash payload_hash) es ≡ none
    → All (λ e. e.payload_hash ≢ payload_hash) es
none_found payload_hash [] h = tt
none_found payload_hash (x ∷ es) h = elim (Bool-cases (text_eq x.payload_hash payload_hash)) [
  | inl hit ↦ absurd (ground arith)
  | inr miss ↦ (
    λ e. absurd (ground (arith, text_eq_iff x.payload_hash payload_hash)),
    none_found payload_hash es (rw miss at h),
  )
]

module _ (sha : Sha256) (crypto : NodeCrypto) (parse_date : Text → Option ℤ) (registry : Registry)
    (skew : ℕ) where
  -- The first ingest of a payload: the event is in front, with the verdict of its checks.
  pub record Storing (db db' : Database) (new_id : Text) (now : ℕ) (payload : WeighInPayload)
      (signature : Text) (r : IngestResult) : Type 0 where
    pub missing : find_payload db (event_payload_hash sha payload) ≡ none
    pub verdict : IntegrityVerdict
    pub captured : ℤ
    pub after : db' ≡ record db {
      events =
          new_event new_id now payload signature (event_payload_hash sha payload) verdict captured
          ∷ db.events;
    }
    pub given_id : r.event_id ≡ new_id

  pub ingest_cases :
      (db : Database) (new_id : Text) (now : ℕ) (payload : WeighInPayload) (signature : Text)
      {db' : Database} {r : IngestResult}
      → ingest sha crypto parse_date registry skew db new_id now payload signature ≡ ok (db', r)
      → Storing db db' new_id now payload signature r
        ⊎ ((db' ≡ db)
            × ((e : CollectionEventEntity) × (find_payload db (event_payload_hash sha payload)
                  ≡ some e)
                × (r.event_id ≡ e.id)))
  unfolding ingest
  ingest_cases db new_id now payload signature h =
      elim (Option-cases (find_payload db (event_payload_hash sha payload))) [
        | inl missing ↦ elim (Option-cases (parse_date payload.captured_at)) [
          | inl no_date ↦ absurd (ground arith)
          | inr (captured, e) ↦ inl (record {
            missing = missing;
            verdict =
                evaluate_integrity crypto parse_date payload signature
                  (context_of registry payload none now skew);
            captured = captured;
            after = ground arith;
            given_id = ground arith;
          })
        ]
        | inr (e, stored) ↦ inr (ground arith, (e, stored, ground arith))
      ]

  -- A successful ingest into a table whose payload hashes differ leaves such a table.
  pub ingest-UniquePayloads :
      (db : Database) (new_id : Text) (now : ℕ) (payload : WeighInPayload) (signature : Text)
      (db' : Database) (r : IngestResult)
      → UniquePayloads db.events
      → ingest sha crypto parse_date registry skew db new_id now payload signature ≡ ok (db', r)
      → UniquePayloads db'.events
  unfolding find_payload new_event
  ingest-UniquePayloads db new_id now payload signature db' r unique h =
      elim (ingest_cases db new_id now payload signature h) [
        | inl s ↦
            subst (λ (d : Database). UniquePayloads d.events) (sym s.after)
              (none_found (event_payload_hash sha payload) db.events s.missing, unique)
        | inr (same, _) ↦ subst (λ (d : Database). UniquePayloads d.events) (sym same) unique
      ]

  -- What the second ingest of a payload answers.
  abbrev AnswersDuplicate : Database → Text → Text → ℕ → WeighInPayload → Text → Type 0
  AnswersDuplicate db' event_id new_id now payload signature =
      (r' : IngestResult) × (ingest sha crypto parse_date registry skew db' new_id now payload
          signature
        ≡ ok (db', r'))
      × (r'.event_id ≡ event_id)
      × (r'.duplicate ≡ true)
      × (r'.quarantined ≡ true)

  replay_stored :
      (db : Database) (new_id : Text) (now : ℕ) (payload : WeighInPayload) (signature : Text)
      {db' : Database} {r : IngestResult} (e : CollectionEventEntity) (new_id' : Text) (now' : ℕ)
      (signature' : Text)
      → ingest sha crypto parse_date registry skew db new_id now payload signature ≡ ok (db', r)
      → db'.materials ≡ db.materials
      → find_payload db' (event_payload_hash sha payload) ≡ some e
      → r.event_id ≡ e.id
      → AnswersDuplicate db' r.event_id new_id' now' payload signature'
  unfolding ingest assert_known find_material
  replay_stored db new_id now payload signature {db'} {r} e new_id' now' signature' h same stored
        id =
      (
        record {
          event_id = e.id;
          payload_hash = event_payload_hash sha payload;
          quarantined = true;
          integrity =
              evaluate_integrity crypto parse_date payload signature'
                (context_of registry payload (some e) now' skew);
          duplicate = true;
        },
        ground arith,
        sym id,
        refl,
        refl,
      )

  -- After a successful ingest the same payload, under any signature, id and clock, is a duplicate:
  -- the call succeeds, changes nothing and answers with the id of the event that is stored.
  pub ingest_replay :
      (db : Database) (new_id : Text) (now : ℕ) (payload : WeighInPayload) (signature : Text)
      (db' : Database) (r : IngestResult) (new_id' : Text) (now' : ℕ) (signature' : Text)
      → ingest sha crypto parse_date registry skew db new_id now payload signature ≡ ok (db', r)
      → AnswersDuplicate db' r.event_id new_id' now' payload signature'
  unfolding find_payload new_event
  ingest_replay db new_id now payload signature db' r new_id' now' signature' h =
      elim (ingest_cases db new_id now payload signature h) [
        | inl s ↦
            replay_stored db new_id now payload signature
              (new_event new_id now payload signature (event_payload_hash sha payload) s.verdict
                s.captured)
              new_id' now' signature' h (ap (λ (d : Database). d.materials) s.after)
              (ap (λ (d : Database). find_payload d (event_payload_hash sha payload)) s.after
                ∙ rw (text_eq_refl (event_payload_hash sha payload)) refl)
              s.given_id
        | inr (same, (e, stored, id)) ↦
            replay_stored db new_id now payload signature e new_id' now' signature' h
              (ap (λ (d : Database). d.materials) same)
              (ap (λ (d : Database). find_payload d (event_payload_hash sha payload)) same ∙ stored)
              id
      ]
