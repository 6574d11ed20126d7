-- ===== src/Database.antt =====
-- apps/backend/src/database/entities.ts: the rows of the tables, and the queries that the services
-- make of them. A table is the list of its rows. An instant is in milliseconds, a weight in grams
-- (the columns are `numeric` with three decimals, and sums of such values are exact).
pub mod Tables
use proofchain.Prelude.{
  ltb, ◌==◌, if◌then◌else◌, keep, find, Text, text_eq, ℕ, Bool, true, false, not, ◌&&◌, ◌||◌,
  Option, none, some, List, [], ◌∷◌, map, ℤ, ltb_ℤ,
}

-- `open` is a reserved word.
pub data BatchStatus : Type 0 where
  opened sealed processed sold : BatchStatus

pub data StellarNetwork : Type 0 where
  testnet public : StellarNetwork

pub data AnchorAttemptOutcome : Type 0 where
  failed unverified succeeded : AnchorAttemptOutcome

pub data IntegrityOutcome : Type 0 where
  pass warn fail : IntegrityOutcome

pub record BatchEntity : Type 0 where
  pub id : Text
  pub hub_id : Text
  pub material : Text
  pub status : BatchStatus
  pub total_weight : ℤ
  pub event_count : ℕ
  pub merkle_root : Option Text
  pub sealed_at : Option ℕ
  pub created_at : ℕ

pub record CollectionEventEntity : Type 0 where
  pub id : Text
  pub collector_id : Text
  pub hub_id : Text
  pub device_id : Text
  pub batch_id : Option Text
  pub weight : ℤ
  pub material : Text
  pub captured_at : ℤ
  pub received_at : ℕ
  pub photo_hash : Text
  pub photo_uri : Option Text
  pub nonce : Text
  pub signature : Text
  pub payload_hash : Text
  pub integrity : IntegrityOutcome
  pub quarantined : Bool

pub record AnchorRecordEntity : Type 0 where
  pub batch_id : Text
  pub merkle_root : Text
  pub stellar_tx_hash : Text
  pub stellar_ledger : ℕ
  pub network : StellarNetwork
  pub data_entry_key : Text
  pub anchored_at : ℕ

pub record AnchorAttemptEntity : Type 0 where
  pub batch_id : Text
  pub attempt_number : ℕ
  pub outcome : AnchorAttemptOutcome
  pub detail : Option Text
  pub stellar_tx_hash : Option Text
  pub occurred_at : ℕ

pub record MaterialEntity : Type 0 where
  pub code : Text
  pub name : Text
  pub description : Option Text
  pub examples : List Text
  pub active : Bool
  pub sort_order : ℤ

pub record Database : Type 0 where
  pub batches : List BatchEntity
  pub events : List CollectionEventEntity
  pub anchors : List AnchorRecordEntity
  pub attempts : List AnchorAttemptEntity
  pub materials : List MaterialEntity

-- `where: { id }` on the batches; `findOne` gives the first row.
abbrev pub batch_where : Text → BatchEntity → Bool
batch_where id b = text_eq b.id id

unfoldable pub find_batch : Database → Text → Option BatchEntity
find_batch db id = find (batch_where id) db.batches

-- `update(BatchEntity, { id }, patch)`
unfoldable pub update_batch : Database → Text → (BatchEntity → BatchEntity) → Database
update_batch db id patch = record db {
  batches = map (λ b. if batch_where id b then patch b else b) db.batches;
}

unfoldable pub find_anchor : Database → Text → Option AnchorRecordEntity
find_anchor db batch_id = find (λ a. text_eq a.batch_id batch_id) db.anchors

unfoldable pub find_material : Database → Text → Option MaterialEntity
find_material db code = find (λ m. text_eq m.code code) db.materials

-- `where: { batchId }`
unfoldable pub in_batch : Text → CollectionEventEntity → Bool
in_batch id e = elim e.batch_id [ none ↦ false | some b ↦ text_eq b id ]

unfoldable pub events_in : Database → Text → List CollectionEventEntity
events_in db id = keep (in_batch id) db.events

-- `order: { capturedAt: "ASC", id: "ASC" }`. Ids are distinct, so that the order is total and the
-- rows in it are one list, which insertion computes.
text_lt : Text → Text → Bool
text_lt s [] = false
text_lt [] (b ∷ t) = true
text_lt (a ∷ s) (b ∷ t) = ltb a b || (a == b && text_lt s t)

unfoldable pub before : CollectionEventEntity → CollectionEventEntity → Bool
unfolding text_lt
before e e' =
    ltb_ℤ e.captured_at e'.captured_at
    || (not (ltb_ℤ e'.captured_at e.captured_at) && text_lt e.id e'.id)

unfoldable pub insert_event :
    CollectionEventEntity → List CollectionEventEntity → List CollectionEventEntity
unfolding before
insert_event e [] = e ∷ []
insert_event e (x ∷ xs) =
    let later = x ∷ insert_event e xs in if before e x then e ∷ x ∷ xs else later

unfoldable pub order_events : List CollectionEventEntity → List CollectionEventEntity
unfolding insert_event
order_events [] = []
order_events (e ∷ es) = insert_event e (order_events es)
