-- ===== src/Batches/Anchored.antt =====
-- An anchor that has been recorded stays.
use proofchain.Prelude.{Text, ℕ, ◌≡◌, refl, ap, ◌∙◌, inl, inr, Option, some, ℤ}
use proofchain.Hashing.{Sha256}
use proofchain.Batches.{recompute_totals}
use proofchain.Signing.{NodeCrypto}
use proofchain.Database.{
  AnchorRecordEntity, BatchEntity, Database, find_anchor, find_batch, update_batch,
}
use proofchain.Events.Ingest.{ingest_cases}
use proofchain.Batches.Effects.{
  add_events-Adding, advance_status-Advancing, create-after, remove_event-Removing, seal-Sealing,
}
use proofchain.Batches.Invariant.{IsValid}
use proofchain.Batches.Reach.{
  Reach, Reach-IsValid, Step, adds, advances, catalogues, creates, here, ingests, next, removes,
  reports, seals, writes_back,
}
use proofchain.Batches.WriteBack.{
  find_anchor-after, record_anchor-WriteBack, record_anchor_failure-same,
}

-- What is found first is found still, when the table grows at its end.
same_anchors :
    (db db' : Database) (j : Text) (a : AnchorRecordEntity)
    → find_anchor db j ≡ some a
    → db'.anchors ≡ db.anchors
    → find_anchor db' j ≡ some a
unfolding find_anchor
same_anchors db db' j a f e = rw e f

module _ (sha : Sha256) (crypto : NodeCrypto) (parse_date : Text → Option ℤ)
    (anchored_in : ℕ → Text) where
  Step-anchor :
      {db db' : Database} (j : Text) (a : AnchorRecordEntity)
      → Step sha crypto parse_date anchored_in db db'
      → find_anchor db j ≡ some a
      → find_anchor db' j ≡ some a
  unfolding recompute_totals update_batch
  Step-anchor {db} {db'} j a (creates id now hub material x fresh h) f =
      same_anchors db db' j a f
        (ap (λ (d : Database). d.anchors) (create-after db id now hub material h))
  Step-anchor {db} {db'} j a (adds id ids x h) f =
      same_anchors db db' j a f
        (ap (λ (d : Database). d.anchors) (add_events-Adding db id ids h).after)
  Step-anchor {db} {db'} j a (removes id event_id x h) f =
      same_anchors db db' j a f
        (ap (λ (d : Database). d.anchors) (remove_event-Removing db id event_id h).after)
  Step-anchor {db} {db'} j a (seals id now x h) f =
      same_anchors db db' j a f
        (ap (λ (d : Database). d.anchors) (seal-Sealing sha db id now h).after)
  Step-anchor {db} {db'} j a (advances id to x h) f =
      same_anchors db db' j a f
        (ap (λ (d : Database). d.anchors) (advance_status-Advancing db id to h).after)
  Step-anchor {db} {db'} j a (writes_back id input now x h) f =
      elim (record_anchor-WriteBack anchored_in db id input now h) [
        | inl (same, _, _) ↦ rw same f
        | inr w ↦ find_anchor-after db db' id input w j ∙ rw f refl
      ]
  Step-anchor {db} {db'} j a (reports id input now h) f =
      same_anchors db db' j a f (record_anchor_failure-same db id input now h).2
  Step-anchor {db} {db'} j a (ingests registry skew new_id now payload signature r unused h) f =
      elim (ingest_cases sha crypto parse_date registry skew db new_id now payload signature h) [
        | inl s ↦ same_anchors db db' j a f (ap (λ (d : Database). d.anchors) s.after)
        | inr (same, _) ↦ rw same f
      ]
  Step-anchor {db} {db'} j a (catalogues ms same) f =
      same_anchors db db' j a f (ap (λ (d : Database). d.anchors) same)

  -- The anchor of a batch stays the same row through every sequence of steps, and its root remains
  -- the batch's root.
  pub Reach-anchor :
      {db last : Database} (j : Text) (a : AnchorRecordEntity)
      → Reach sha crypto parse_date anchored_in db last
      → IsValid sha db
      → find_anchor db j ≡ some a
      → (find_anchor last j ≡ some a)
        × ((b : BatchEntity) × (find_batch last j ≡ some b) × (b.merkle_root ≡ some a.merkle_root))
  Reach-anchor {db} {last} j a r v f =
      let stays = still r f in
      (stays, (Reach-IsValid sha crypto parse_date anchored_in r v).anchored j a stays)
    where
      still :
          {mid : Database}
          → Reach sha crypto parse_date anchored_in db mid
          → find_anchor db j ≡ some a
          → find_anchor mid j ≡ some a
      still here g = g
      still (next rest s) g = Step-anchor j a s (still rest g)
