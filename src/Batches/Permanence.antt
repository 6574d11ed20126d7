-- ===== src/Batches/Permanence.antt =====
-- What sealing fixes stays fixed.
use proofchain.Prelude.{Text, ℕ, ◌≡◌, refl, ◌∙◌, ◌≢◌, ◌⊎◌, inl, inr, Option, some, ◌∷◌, ℤ}
use proofchain.Database.{
  BatchEntity, BatchStatus, Database, find_batch, opened, processed, sealed, sold,
}
use proofchain.Hashing.{Sha256}
use proofchain.Batches.Effects.{advance_status-Advancing}
use proofchain.Batches.Invariant.{IsValid}
use proofchain.Canonical.{event_payload_hash}
use proofchain.Signing.{NodeCrypto}
use proofchain.Events.{new_event}
use proofchain.Events.Ingest.{ingest_cases}
use proofchain.Batches.Reach.{
  Reach, Reach-IsValid, Step, adds, advances, catalogues, creates, here, ingests, new_elsewhere,
  next, removes, reports, seals, writes_back,
}
use proofchain.Batches.WriteBack.{record_anchor-WriteBack, record_anchor_failure-same}
use proofchain.Batches.Kept.{
  Kept, Kept-same, Kept-advance, Kept-seal, Kept-remove, Kept-add, Kept-create, Kept-tables,
}

later_status :
    (s to : BatchStatus)
    → ((s ≡ sealed) × (to ≡ processed)) ⊎ ((s ≡ processed) × (to ≡ sold))
    → to ≢ opened
later_status s to (inl (_, e)) = λ o. absurd (cc)
later_status s to (inr (_, e)) = λ o. absurd (cc)

Kept-chain :
    (db mid last : Database) (j : Text) (b : BatchEntity) (k : Kept db mid j b)
    → Kept mid last j k.batch
    → Kept db last j b
Kept-chain db mid last j b k l = record {
  batch = l.batch;
  still_found = l.still_found;
  same_root = l.same_root ∙ k.same_root;
  same_weight = l.same_weight ∙ k.same_weight;
  same_count = l.same_count ∙ k.same_count;
  same_members = l.same_members ∙ k.same_members;
  still_closed = l.still_closed;
}

module _ (sha : Sha256) (crypto : NodeCrypto) (parse_date : Text → Option ℤ)
    (anchored_in : ℕ → Text) where
  Step-Kept :
      {db db' : Database} (j : Text) (b : BatchEntity)
      → Step sha crypto parse_date anchored_in db db'
      → IsValid sha db
      → find_batch db j ≡ some b
      → b.status ≢ opened
      → Kept db db' j b
  unfolding new_event find_batch
  Step-Kept {db} j b (creates id now hub material x fresh h) v f c =
      Kept-create db j b f c id now hub material h
  Step-Kept {db} j b (adds id ids x h) v f c = Kept-add db j b f c id ids v.unique_ids h
  Step-Kept {db} j b (removes id event_id x h) v f c = Kept-remove db j b f c id event_id h
  Step-Kept {db} j b (seals id now x h) v f c = Kept-seal db j b f c sha id now h
  Step-Kept {db} j b (advances id to x h) v f c =
      let a = advance_status-Advancing db id to h in
      rw a.after (Kept-advance db j b f c id to (later_status a.batch.status to a.legal))
  Step-Kept {db} {db'} j b (writes_back id input now a h) v f c =
      elim (record_anchor-WriteBack anchored_in db id input now h) [
        | inl (same, _, _) ↦ rw same (Kept-tables db j b f c db refl refl)
        | inr w ↦ Kept-tables db j b f c db' w.same_batches w.same_events
      ]
  Step-Kept {db} {db'} j b (reports id input now h) v f c =
      let same = record_anchor_failure-same db id input now h in
      Kept-tables db j b f c db' same.0 same.1
  Step-Kept {db} j b (ingests registry skew new_id now payload signature r unused h) v f c =
      elim (ingest_cases sha crypto parse_date registry skew db new_id now payload signature h) [
        | inl s ↦
            let e =
              new_event new_id now payload signature (event_payload_hash sha payload) s.verdict
                s.captured in
            rw s.after (
              Kept-same db j b f c (record db { events = e ∷ db.events }) f
                (new_elsewhere sha crypto parse_date anchored_in db e j
                  (record { unassigned = refl; unused_id = unused })))
        | inr (same, _) ↦ rw same (Kept-tables db j b f c db refl refl)
      ]
  Step-Kept {db} j b (catalogues ms same) v f c =
      rw same (Kept-tables db j b f c (record db { materials = ms }) refl refl)

  -- A batch of a valid database that is not open keeps its root, its totals and its events through
  -- every sequence of steps, and never opens again.
  pub Reach-Kept :
      {db last : Database} (j : Text) (b : BatchEntity)
      → Reach sha crypto parse_date anchored_in db last
      → IsValid sha db
      → find_batch db j ≡ some b
      → b.status ≢ opened
      → Kept db last j b
  Reach-Kept {db} j b here v f c = Kept-tables db j b f c db refl refl
  Reach-Kept {db} j b (next {mid} {last} r s) v f c =
      let k = Reach-Kept j b r v f c in
      Kept-chain db mid last j b k (
        Step-Kept j k.batch s (Reach-IsValid sha crypto parse_date anchored_in r v) k.still_found
          k.still_closed)
