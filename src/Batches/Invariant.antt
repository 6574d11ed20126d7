-- ===== src/Batches/Invariant.antt =====
-- What holds of every batch at every moment.
use proofchain.Prelude.{
  length, All, ok, Text, ◌≡◌, ◌≢◌, false, Option, none, some, List, [], ◌∷◌, pos,
}
use proofchain.Hashing.{Sha256}
use proofchain.Database.{
  Database, BatchEntity, BatchStatus, CollectionEventEntity, opened, AnchorRecordEntity, events_in,
  find_anchor, find_batch, processed, sealed, sold,
}
use proofchain.Batches.{leaves_of, ordered_events, sum_weights}
use proofchain.Merkle.{merkle_root_hex}

-- No two rows have one id.
abbrev pub UniqueIds : List CollectionEventEntity → Type 0
UniqueIds [] = Unit
UniqueIds (e ∷ es) = All (λ e'. e'.id ≢ e.id) es × UniqueIds es

-- The event may stand in the batch.
pub record Fits (b : BatchEntity) (e : CollectionEventEntity) : Type 0 where
  pub clean : e.quarantined ≡ false
  pub same_hub : e.hub_id ≡ b.hub_id
  pub same_material : e.material ≡ b.material

module _ (sha : Sha256) where
  -- The root of a batch's events in canonical order.
  abbrev pub Frozen : Database → Text → Option Text → Type 0
  Frozen db id root =
      (r : Text) × (root ≡ some r)
      × (merkle_root_hex sha (leaves_of sha (ordered_events db id)) ≡ ok r)

  -- An open batch has no root; any other has the root of its events in canonical order.
  abbrev pub RootFits : Database → Text → BatchStatus → Option Text → Type 0
  RootFits db id opened root = root ≡ none
  RootFits db id sealed root = Frozen db id root
  RootFits db id processed root = Frozen db id root
  RootFits db id sold root = Frozen db id root

  pub record BatchIsValid (db : Database) (b : BatchEntity) : Type 0 where
    pub members : All (Fits b) (events_in db b.id)
    pub total : b.total_weight ≡ sum_weights (pos 0) (events_in db b.id)
    pub count : b.event_count ≡ length (events_in db b.id)
    pub rooted : RootFits db b.id b.status b.merkle_root

  pub record IsValid (db : Database) : Type 0 where
    pub batch_valid : (id : Text) (b : BatchEntity) → find_batch db id ≡ some b → BatchIsValid db b
    pub no_orphans : (id : Text) → find_batch db id ≡ none → events_in db id ≡ []
    pub unique_ids : UniqueIds db.events
    pub anchored :
        (id : Text) (a : AnchorRecordEntity)
        → find_anchor db id ≡ some a
        → (b : BatchEntity) × (find_batch db id ≡ some b) × (b.merkle_root ≡ some a.merkle_root)
