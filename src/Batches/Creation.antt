-- ===== src/Batches/Creation.antt =====
-- `create` keeps `IsValid`.
use proofchain.Prelude.{
  if◌then◌else◌, first_some, find-append, ok, Text, text_eq_refl, text_eq, ℕ, ◌≡◌, refl, sym, ◌∙◌,
  Option, none, some, [], ◌∷◌, ◌++◌,
}
use proofchain.Hashing.{Sha256}
use proofchain.Database.{Database, BatchEntity, batch_where, events_in, find_batch}
use proofchain.Batches.Invariant.{IsValid, BatchIsValid}
use proofchain.Batches.Preservation.{Change, change-IsValid}
use proofchain.Batches.{create, new_batch, sum_weights}
use proofchain.Batches.Effects.{create-after}

module _ (db : Database) (new_id : Text) (now : ℕ) (hub_id material : Text)
    (fresh : find_batch db new_id ≡ none) where
  abbrev created : Database
  created = record db { batches = db.batches ++ new_batch new_id now hub_id material ∷ [] }

  find-created :
      (j : Text)
      → find_batch created j
        ≡ first_some
            (find_batch db j)
            (if text_eq new_id j then some (new_batch new_id now hub_id material) else none)
  unfolding find_batch new_batch
  find-created j = find-append (batch_where j) db.batches _

  created-Change : Change db created new_id (new_batch new_id now hub_id material)
  unfolding events_in
  created-Change = record {
    other_batches = λ j other. find-created j ∙ rw other (first_some-none (find_batch db j));
    own_batch = find-created new_id ∙ rw (fresh, text_eq_refl new_id);
    other_events = λ j other. refl;
    same_anchors = refl;
    root_kept = λ b found. absurd (none≢some_batch (sym fresh ∙ found));
  }
    where
      first_some-none : (o : Option BatchEntity) → first_some o none ≡ o
      first_some-none none = refl
      first_some-none (some b) = refl

      none≢some_batch : {b : BatchEntity} → none ≡ some b → ⊥
      none≢some_batch e = cc

module _ (sha : Sha256) where
  created-own :
      (db db' : Database) (new_id : Text) (now : ℕ) (hub_id material : Text)
      → events_in db' new_id ≡ []
      → BatchIsValid sha db' (new_batch new_id now hub_id material)
  unfolding new_batch sum_weights
  created-own db db' new_id now hub_id material none_yet = record {
    members = rw none_yet tt;
    total = rw none_yet;
    count = rw none_yet;
    rooted = refl;
  }

  -- The new id is one that the database has not given out.
  pub create-IsValid :
      (db : Database) (new_id : Text) (now : ℕ) (hub_id material : Text) {db' : Database}
      {b : BatchEntity}
      → IsValid sha db
      → find_batch db new_id ≡ none
      → create db new_id now hub_id material ≡ ok (db', b)
      → IsValid sha db'
  unfolding events_in
  create-IsValid db new_id now hub_id material v fresh h =
      rw (create-after db new_id now hub_id material h) (
        change-IsValid sha db (created db new_id now hub_id material fresh) new_id
          (new_batch new_id now hub_id material) v
          (created-Change db new_id now hub_id material fresh)
          (created-own db _ new_id now hub_id material (v.no_orphans new_id fresh)) v.unique_ids)
