-- ===== src/Batches/Kept.antt =====
-- What one request keeps of a batch that is not open.
use proofchain.Prelude.{
  Bool-cases, keep, find, some_injective, All-map, find-append, ok, Text, text_eq→eq, text_eq, ℕ,
  ◌≡◌, refl, sym, ap, subst, ◌∙◌, ◌≢◌, inl, inr, false, some, List, [], ◌∷◌, ◌++◌, map,
}
use proofchain.Batches.{
  status_patch, add_events, assign, create, eligible, new_batch, ordered_events, recompute_totals,
  remove_event, seal, seal_patch, totals_patch, unassign,
}
use proofchain.Database.{
  BatchEntity, BatchStatus, CollectionEventEntity, Database, events_in, find_batch, in_batch,
  opened, update_batch, batch_where,
}
use proofchain.Database.Tables.{events_in-update_batch, find_batch-update_batch}
use proofchain.Batches.Lifecycle.{rewritten, eligible-free}
use proofchain.Hashing.{Sha256}
use proofchain.Batches.Members.{assign_others, ids_of, selected, unassign_others}
use proofchain.Batches.Effects.{
  add_events-Adding, create-after, remove_event-Removing, seal-Sealing,
}
use proofchain.Batches.Invariant.{UniqueIds}

-- The batch `j`, `b` in `db`, is in `db'` with the same root, totals and events, and not open.
pub record Kept (db db' : Database) (j : Text) (b : BatchEntity) : Type 0 where
  pub batch : BatchEntity
  pub still_found : find_batch db' j ≡ some batch
  pub same_root : batch.merkle_root ≡ b.merkle_root
  pub same_weight : batch.total_weight ≡ b.total_weight
  pub same_count : batch.event_count ≡ b.event_count
  pub same_members : events_in db' j ≡ events_in db j
  pub still_closed : batch.status ≢ opened

module _ (db : Database) (j : Text) (b : BatchEntity) (found : find_batch db j ≡ some b)
    (closed : b.status ≢ opened) where
  -- A batch that is open is another one.
  open_elsewhere :
      (id : Text) (x : BatchEntity)
      → find_batch db id ≡ some x
      → x.status ≡ opened
      → text_eq id j ≡ false
  open_elsewhere id x there is_open = elim (Bool-cases (text_eq id j)) [
    | inl same ↦
        let at_j : find_batch db j ≡ some x =
          subst (λ i. find_batch db i ≡ some x) (text_eq→eq id j same) there in
        absurd (closed (ap (λ y. y.status) (some_injective (sym found ∙ at_j)) ∙ is_open))
    | inr other ↦ other
  ]

  pub Kept-same :
      (db' : Database)
      → find_batch db' j ≡ some b
      → events_in db' j ≡ events_in db j
      → Kept db db' j b
  Kept-same db' f e = record {
    batch = b;
    still_found = f;
    same_root = refl;
    same_weight = refl;
    same_count = refl;
    same_members = e;
    still_closed = closed;
  }

  Kept-other :
      (rows : List CollectionEventEntity) (id : Text) (patch : BatchEntity → BatchEntity)
      → ((x : BatchEntity) → (patch x).id ≡ x.id)
      → text_eq id j ≡ false
      → keep (in_batch j) rows ≡ keep (in_batch j) db.events
      → Kept db (rewritten db rows id patch) j b
  unfolding events_in update_batch find_batch
  Kept-other rows id patch keeps other same =
      Kept-same (rewritten db rows id patch)
        (find_batch-update_batch (record db { events = rows }) id patch j keeps ∙ rw other found)
        same

  pub Kept-advance :
      (id : Text) (to : BatchStatus)
      → to ≢ opened
      → Kept db (update_batch db id (status_patch to)) j b
  unfolding status_patch
  Kept-advance id to later = elim (Bool-cases (text_eq id j)) [
    | inl same ↦ record {
      batch = status_patch to b;
      still_found =
          find_batch-update_batch db id (status_patch to) j (λ x. refl) ∙ rw (same, found) refl;
      same_root = refl;
      same_weight = refl;
      same_count = refl;
      same_members = events_in-update_batch db id (status_patch to) j;
      still_closed = later;
    }
    | inr other ↦
        Kept-same (update_batch db id (status_patch to))
          (find_batch-update_batch db id (status_patch to) j (λ x. refl) ∙ rw other found)
          (events_in-update_batch db id (status_patch to) j)
  ]

  pub Kept-seal :
      (sha : Sha256) (id : Text) (now : ℕ) {db' : Database} {x : BatchEntity}
      → seal sha db id now ≡ ok (db', x)
      → Kept db db' j b
  unfolding seal_patch events_in update_batch
  Kept-seal sha id now h =
      let s = seal-Sealing sha db id now h in
      rw s.after (
        Kept-other db.events id (seal_patch now s.root (ordered_events db id)) (λ x. refl)
          (open_elsewhere id s.batch s.found s.was_open) refl)

  pub Kept-remove :
      (id event_id : Text) {db' : Database} {x : BatchEntity}
      → remove_event db id event_id ≡ ok (db', x)
      → Kept db db' j b
  unfolding totals_patch recompute_totals events_in update_batch
  Kept-remove id event_id h =
      let r = remove_event-Removing db id event_id h in
      let other = open_elsewhere id r.batch r.found r.was_open in
      rw r.after (
        Kept-other (map (unassign event_id id) db.events) id
          (totals_patch (keep (in_batch id) (map (unassign event_id id) db.events))) (λ x. refl)
          other (unassign_others id event_id j db.events other))

  pub Kept-add :
      (id : Text) (event_ids : List Text) {db' : Database} {x : BatchEntity}
      → UniqueIds db.events
      → add_events db id event_ids ≡ ok (db', x)
      → Kept db db' j b
  unfolding totals_patch recompute_totals events_in update_batch
  Kept-add id event_ids unique h =
      let a = add_events-Adding db id event_ids h in
      let other = open_elsewhere id a.batch a.found a.was_open in
      let asked = eligible event_ids a.batch.hub_id in
      let found_ids = ids_of asked db.events in
      rw a.after (
        Kept-other (map (assign found_ids id) db.events) id
          (totals_patch (keep (in_batch id) (map (assign found_ids id) db.events))) (λ x. refl)
          other
          (assign_others id found_ids j db.events other (
            All-map (λ e c asks. eligible-free event_ids a.batch.hub_id e (c asks)) db.events
              (selected asked db.events unique))))

  pub Kept-create :
      (new_id : Text) (now : ℕ) (hub_id material : Text) {db' : Database} {x : BatchEntity}
      → create db new_id now hub_id material ≡ ok (db', x)
      → Kept db db' j b
  unfolding find_batch events_in
  Kept-create new_id now hub_id material {db'} h =
      rw (create-after db new_id now hub_id material h) (
        Kept-same (record db { batches = db.batches ++ new_batch new_id now hub_id material ∷ [] })
          (find-append (batch_where j) db.batches _ ∙ rw found refl) refl)

  -- The tables of batches and events as they were.
  pub Kept-tables :
      (db' : Database) → db'.batches ≡ db.batches → db'.events ≡ db.events → Kept db db' j b
  unfolding find_batch events_in
  Kept-tables db' bs es =
      Kept-same db' (ap (find (batch_where j)) bs ∙ found) (ap (keep (in_batch j)) es)
