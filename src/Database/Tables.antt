-- ===== src/Database/Tables.antt =====
-- The queries after the updates.
use mathlib.Core.Option
use proofchain.Prelude.{
  if◌then◌else◌, find, Text, text_eq_iff, text_eq, ◌≡◌, refl, List, [], ◌∷◌, map, arith,
}
use proofchain.Database.{BatchEntity, batch_where, Database, events_in, find_batch, update_batch}

-- A patch that keeps ids is seen by a query for the patched row alone.
find-update :
    (id j : Text) (patch : BatchEntity → BatchEntity) (bs : List BatchEntity)
    → ((b : BatchEntity) → (patch b).id ≡ b.id)
    → find (batch_where j) (map (λ b. if batch_where id b then patch b else b) bs) ≡ (
        if text_eq id j
        then Option.map patch (find (batch_where j) bs)
        else find (batch_where j) bs)
find-update id j patch [] keeps = ground arith
find-update id j patch (b ∷ bs) keeps = ground (
  arith,
  text_eq_iff b.id id,
  text_eq_iff b.id j,
  text_eq_iff id j,
  keeps b,
  find-update id j patch bs keeps,
)

module _ (db : Database) (id : Text) (patch : BatchEntity → BatchEntity) where
  pub find_batch-update_batch :
      (j : Text)
      → ((b : BatchEntity) → (patch b).id ≡ b.id)
      → find_batch (update_batch db id patch) j
        ≡ (if text_eq id j then Option.map patch (find_batch db j) else find_batch db j)
  unfolding find_batch update_batch
  find_batch-update_batch j keeps = find-update id j patch db.batches keeps

  pub events_in-update_batch : (j : Text) → events_in (update_batch db id patch) j ≡ events_in db j
  unfolding events_in update_batch
  events_in-update_batch j = refl
