-- ===== src/Batches/Preservation.antt =====
-- A write that concerns one batch keeps `IsValid` if the batch is valid after it.
use proofchain.Prelude.{
  Bool-cases, some_injective, find-holds, Text, text_eq_iff, text_eq→eq, text_eq, ◌≡◌, sym, subst,
  ◌∙◌, inl, inr, false, Option, none, some, [],
}
use proofchain.Hashing.{Sha256}
use proofchain.Database.{
  Database, BatchEntity, AnchorRecordEntity, BatchStatus, batch_where, events_in, find_anchor,
  find_batch, opened, processed, sealed, sold,
}
use proofchain.Batches.Invariant.{IsValid, BatchIsValid, RootFits, UniqueIds}
use proofchain.Batches.{ordered_events}

-- From `db` to `db'` only the batch `id` changes, with its events; it ends as `b'`.
pub record Change (db db' : Database) (id : Text) (b' : BatchEntity) : Type 0 where
  pub other_batches : (j : Text) → text_eq id j ≡ false → find_batch db' j ≡ find_batch db j
  pub own_batch : find_batch db' id ≡ some b'
  pub other_events : (j : Text) → text_eq id j ≡ false → events_in db' j ≡ events_in db j
  pub same_anchors : db'.anchors ≡ db.anchors
  pub root_kept :
      (b : BatchEntity)
      → find_batch db id ≡ some b
      → (root : Text) → b.merkle_root ≡ some root
      → b'.merkle_root ≡ some root

pub find_batch-id :
    (db : Database) (j : Text) (b : BatchEntity) → find_batch db j ≡ some b → b.id ≡ j
unfolding find_batch
find_batch-id db j b e = (text_eq_iff b.id j).0 (find-holds (batch_where j) db.batches b e)

module _ (sha : Sha256) where
  pub rooted-events :
      (db db' : Database) (id : Text) (s : BatchStatus) (root : Option Text)
      → events_in db' id ≡ events_in db id
      → RootFits sha db id s root
      → RootFits sha db' id s root
  unfolding ordered_events
  rooted-events db db' id opened root same v = v
  rooted-events db db' id sealed root same v = rw same v
  rooted-events db db' id processed root same v = rw same v
  rooted-events db db' id sold root same v = rw same v

  -- A batch row is judged by the rows of its events alone.
  pub BatchIsValid-events :
      (db db' : Database) (b : BatchEntity)
      → events_in db' b.id ≡ events_in db b.id
      → BatchIsValid sha db b
      → BatchIsValid sha db' b
  BatchIsValid-events db db' b same v = record {
    members = rw same v.members;
    total = rw same v.total;
    count = rw same v.count;
    rooted = rooted-events db db' b.id b.status b.merkle_root same v.rooted;
  }

  module _ (db db' : Database) (id : Text) (b' : BatchEntity) (v : IsValid sha db)
      (c : Change db db' id b') (own : BatchIsValid sha db' b')
      (unique : UniqueIds db'.events) where
    change-batch_valid :
        (j : Text) (x : BatchEntity) → find_batch db' j ≡ some x → BatchIsValid sha db' x
    change-batch_valid j x e = elim (Bool-cases (text_eq id j)) [
      | inl same ↦
          let at_id : find_batch db' id ≡ some x = rw (text_eq→eq id j same) e in
          subst (BatchIsValid sha db') (some_injective (sym c.own_batch ∙ at_id)) own
      | inr other ↦
          let old = c.other_batches j other in
          BatchIsValid-events db db' x (rw (find_batch-id db' j x e) (c.other_events j other))
            (v.batch_valid j x (sym old ∙ e))
    ]

    change-no_orphans : (j : Text) → find_batch db' j ≡ none → events_in db' j ≡ []
    change-no_orphans j e = elim (Bool-cases (text_eq id j)) [
      | inl same ↦
          let at_id : find_batch db' id ≡ none = rw (text_eq→eq id j same) e in cc (c.own_batch)
      | inr other ↦ c.other_events j other ∙ v.no_orphans j (sym (c.other_batches j other) ∙ e)
    ]

    change-anchored :
        (j : Text) (a : AnchorRecordEntity)
        → find_anchor db' j ≡ some a
        → (b : BatchEntity) × (find_batch db' j ≡ some b) × (b.merkle_root ≡ some a.merkle_root)
    unfolding find_anchor
    change-anchored j a e =
        let was = v.anchored j a (rw c.same_anchors at e) in
        elim (Bool-cases (text_eq id j)) [
          | inl same ↦
              let eq = text_eq→eq id j same in
              (b', rw (← eq) c.own_batch, c.root_kept was.0 (rw eq was.1) a.merkle_root was.2)
          | inr other ↦ (was.0, c.other_batches j other ∙ was.1, was.2)
        ]

    pub change-IsValid : IsValid sha db'
    change-IsValid = record {
      batch_valid = change-batch_valid;
      no_orphans = change-no_orphans;
      unique_ids = unique;
      anchored = change-anchored;
    }
