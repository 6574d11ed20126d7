-- ===== src/Batches/Lifecycle.antt =====
-- `create`, `addEvents`, `removeEvent`, `seal` and `advanceStatus` keep `IsValid`.
use mathlib.Core.Option
use proofchain.Prelude.{
  if◌then◌else◌, keep, All, some_injective, All-map, All-zip, ok, Text, text_eq_iff, text_eq_refl,
  text_eq, ℕ, ◌≡◌, refl, sym, ap, subst, ◌∙◌, true, false, not, Option, none, some, List, map,
  arith, pos,
}
use proofchain.Hashing.{Sha256}
use proofchain.Database.{
  Database, BatchEntity, CollectionEventEntity, BatchStatus, events_in, find_batch, in_batch,
  update_batch, opened, processed, sealed, sold,
}
use proofchain.Batches.Invariant.{IsValid, BatchIsValid, Fits, RootFits, UniqueIds}
use proofchain.Batches.Preservation.{Change, change-IsValid, find_batch-id}
use proofchain.Batches.{
  seal, leaves_of, ordered_events, seal_patch, add_events, assign, eligible, recompute_totals,
  remove_event, totals_patch, unassign,
}
use proofchain.Database.Tables.{find_batch-update_batch}
use proofchain.Batches.Effects.{seal-Sealing, add_events-Adding, remove_event-Removing}
use proofchain.Merkle.{merkle_root_hex}
use proofchain.Batches.Totals.{length-order_events, sum_weights-order_events}
use proofchain.Batches.Members.{
  UniqueIds-map, assign_members, assign_others, ids_of, kept_none, selected, unassign_members,
  unassign_others,
}

-- The table of events rewritten, then one batch updated.
abbrev pub rewritten :
    Database → List CollectionEventEntity → Text → (BatchEntity → BatchEntity) → Database
rewritten db rows id patch = update_batch (record db { events = rows }) id patch

module _ (db : Database) (rows : List CollectionEventEntity) (id : Text)
    (patch : BatchEntity → BatchEntity) (b : BatchEntity) (found : find_batch db id ≡ some b) where
  find-rewritten :
      (j : Text)
      → ((x : BatchEntity) → (patch x).id ≡ x.id)
      → find_batch (rewritten db rows id patch) j
        ≡ (if text_eq id j then Option.map patch (find_batch db j) else find_batch db j)
  unfolding find_batch
  find-rewritten j keeps = find_batch-update_batch (record db { events = rows }) id patch j keeps

  pub rewritten-Change :
      ((x : BatchEntity) → (patch x).id ≡ x.id)
      → ((root : Text) → b.merkle_root ≡ some root → (patch b).merkle_root ≡ some root)
      → ((j : Text) → text_eq id j ≡ false → keep (in_batch j) rows ≡ keep (in_batch j) db.events)
      → Change db (rewritten db rows id patch) id (patch b)
  unfolding events_in update_batch
  rewritten-Change keeps kept others = record {
    other_batches = λ j other. find-rewritten j keeps ∙ rw other refl;
    own_batch = find-rewritten id keeps ∙ rw (text_eq_refl id, found) refl;
    other_events = others;
    same_anchors = refl;
    root_kept =
        λ x e root r. kept root (ap (λ y. y.merkle_root) (some_injective (sym found ∙ e)) ∙ r);
  }

none≢some : {a : Text} → none ≡ some a → ⊥
none≢some e = cc

pub Fits-row :
    (b b' : BatchEntity) (es : List CollectionEventEntity)
    → b'.hub_id ≡ b.hub_id
    → b'.material ≡ b.material
    → All (Fits b) es
    → All (Fits b') es
Fits-row b b' es hub material =
    All-map
      (λ e f. record {
        clean = f.clean;
        same_hub = f.same_hub ∙ sym hub;
        same_material = f.same_material ∙ sym material;
      })
      es

pub eligible-free :
    (event_ids : List Text) (hub_id : Text) (e : CollectionEventEntity)
    → eligible event_ids hub_id e ≡ true
    → e.batch_id ≡ none
unfolding eligible
eligible-free event_ids hub_id e h = ground arith

eligible-Fits :
    (event_ids : List Text) (b : BatchEntity) (e : CollectionEventEntity)
    → eligible event_ids b.hub_id e ≡ true
    → not (text_eq e.material b.material) ≡ false
    → Fits b e
unfolding eligible
eligible-Fits event_ids b e h m = record {
  clean = ground arith;
  same_hub = ground (arith, text_eq_iff e.hub_id b.hub_id);
  same_material = ground (arith, text_eq_iff e.material b.material);
}

module _ (sha : Sha256) where
  -- An open batch has no root to lose.
  open_rootless :
      (db : Database) (id : Text) (s : BatchStatus) (root : Option Text)
      → s ≡ opened
      → RootFits sha db id s root
      → root ≡ none
  open_rootless db id opened root e f = f
  open_rootless db id sealed root e f = cc
  open_rootless db id processed root e f = cc
  open_rootless db id sold root e f = cc

  seal-own :
      (db : Database) (id : Text) (now : ℕ) (b : BatchEntity) (root : Text)
      → b.id ≡ id
      → merkle_root_hex sha (leaves_of sha (ordered_events db id)) ≡ ok root
      → BatchIsValid sha db b
      → BatchIsValid sha
          (rewritten db db.events id (seal_patch now root (ordered_events db id)))
          (seal_patch now root (ordered_events db id) b)
  unfolding seal_patch ordered_events events_in update_batch
  seal-own db id now b root e root_ok old = record {
    members = Fits-row b _ _ refl refl old.members;
    total = rw e (sum_weights-order_events (pos 0) (events_in db id));
    count = rw e (length-order_events (events_in db id));
    rooted = rw e (root, refl, root_ok);
  }

  pub seal-IsValid :
      (db : Database) (id : Text) (now : ℕ) {db' : Database} {b : BatchEntity}
      → IsValid sha db
      → seal sha db id now ≡ ok (db', b)
      → IsValid sha db'
  unfolding seal_patch update_batch
  seal-IsValid db id now v h =
      let s = seal-Sealing sha db id now h in
      let old = v.batch_valid id s.batch s.found in
      let patch = seal_patch now s.root (ordered_events db id) in
      rw s.after (
        change-IsValid sha db (rewritten db db.events id patch) id (patch s.batch) v
          (rewritten-Change db db.events id patch s.batch s.found (λ x. refl)
            (λ root r. absurd (
              none≢some (
                sym (
                  open_rootless db s.batch.id s.batch.status s.batch.merkle_root s.was_open
                    old.rooted)
                ∙ r)))
            (λ j other. refl))
          (seal-own db id now s.batch s.root (find_batch-id db id s.batch s.found) s.root_ok old)
          v.unique_ids)

  open_fits :
      (db : Database) (id : Text) (s : BatchStatus) (root : Option Text)
      → s ≡ opened
      → root ≡ none
      → RootFits sha db id s root
  open_fits db id opened root e r = r
  open_fits db id sealed root e r = cc
  open_fits db id processed root e r = cc
  open_fits db id sold root e r = cc

  -- Other members for an open batch, with the totals recomputed.
  module _ (db : Database) (rows : List CollectionEventEntity) (id : Text) (b : BatchEntity)
      (v : IsValid sha db) (found : find_batch db id ≡ some b) (was_open : b.status ≡ opened) where
    abbrev totals : BatchEntity → BatchEntity
    totals = totals_patch (keep (in_batch id) rows)

    no_root : b.merkle_root ≡ none
    no_root =
        open_rootless db b.id b.status b.merkle_root was_open (v.batch_valid id b found).rooted

    reassign-own :
        All (Fits b) (keep (in_batch id) rows)
        → BatchIsValid sha (rewritten db rows id totals) (totals b)
    unfolding totals_patch events_in update_batch
    reassign-own fits =
        let e = find_batch-id db id b found in
        record {
          members =
              subst (λ j. All (Fits (totals b)) (keep (in_batch j) rows)) (sym e)
                (Fits-row b (totals b) (keep (in_batch id) rows) refl refl fits);
          total = rw e;
          count = rw e;
          rooted = open_fits _ b.id b.status b.merkle_root was_open no_root;
        }

    pub reassign-IsValid :
        All (Fits b) (keep (in_batch id) rows)
        → ((j : Text) → text_eq id j ≡ false → keep (in_batch j) rows ≡ keep (in_batch j) db.events)
        → UniqueIds rows
        → IsValid sha (recompute_totals (record db { events = rows }) id)
    unfolding recompute_totals totals_patch update_batch events_in
    reassign-IsValid fits others unique =
        change-IsValid sha db (rewritten db rows id totals) id (totals b) v
          (rewritten-Change db rows id totals b found (λ x. refl)
            (λ root r. absurd (none≢some (sym no_root ∙ r))) others)
          (reassign-own fits) unique

  members_of :
      (db : Database) (id : Text) (b : BatchEntity)
      → IsValid sha db
      → find_batch db id ≡ some b
      → All (Fits b) (keep (in_batch id) db.events)
  unfolding events_in
  members_of db id b v found =
      subst (λ j. All (Fits b) (keep (in_batch j) db.events)) (find_batch-id db id b found)
        (v.batch_valid id b found).members

  pub remove_event-IsValid :
      (db : Database) (id event_id : Text) {db' : Database} {b : BatchEntity}
      → IsValid sha db
      → remove_event db id event_id ≡ ok (db', b)
      → IsValid sha db'
  unfolding unassign
  remove_event-IsValid db id event_id v h =
      let r = remove_event-Removing db id event_id h in
      rw r.after (
        reassign-IsValid db (map (unassign event_id id) db.events) id r.batch v r.found r.was_open
          (unassign_members id event_id r.batch db.events (members_of db id r.batch v r.found))
          (λ j other. unassign_others id event_id j db.events other)
          (UniqueIds-map (unassign event_id id) db.events (λ e. ground arith) v.unique_ids))

  pub add_events-IsValid :
      (db : Database) (id : Text) (event_ids : List Text) {db' : Database} {b : BatchEntity}
      → IsValid sha db
      → add_events db id event_ids ≡ ok (db', b)
      → IsValid sha db'
  unfolding assign
  add_events-IsValid db id event_ids v h =
      let a = add_events-Adding db id event_ids h in
      let asked = eligible event_ids a.batch.hub_id in
      let chosen = selected asked db.events v.unique_ids in
      let matching =
        kept_none asked (λ c. not (text_eq c.material a.batch.material)) db.events a.all_material in
      let found = ids_of asked db.events in
      rw a.after (
        reassign-IsValid db (map (assign found id) db.events) id a.batch v a.found a.was_open
          (assign_members id found a.batch db.events (members_of db id a.batch v a.found) (
            All-zip (λ e c m asks. eligible-Fits event_ids a.batch e (c asks) (m (c asks)))
              db.events chosen matching))
          (λ j other. assign_others id found j db.events other (
            All-map (λ e c asks. eligible-free event_ids a.batch.hub_id e (c asks)) db.events
              chosen))
          (UniqueIds-map (assign found id) db.events (λ e. ground arith) v.unique_ids))
