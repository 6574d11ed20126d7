-- ===== src/Batches/Effects.antt =====
-- What a call that succeeds has found, and what it has written.
use proofchain.Prelude.{
  Option-cases, is_empty, keep, Result-cases, ok, Text, text_eq, ℕ, ◌≡◌, ◌⊎◌, inl, inr, false, not,
  ◌&&◌, some, List, [], ◌∷◌, ◌++◌, map, arith,
}
use proofchain.Hashing.{Sha256}
use proofchain.Database.{
  Database, BatchEntity, opened, find_batch, update_batch, BatchStatus, in_batch, processed, sealed,
  sold,
}
use proofchain.Batches.{
  seal, leaves_of, ordered_events, reread, seal_patch, status_eq, add_events, advance_status,
  assign, create, eligible, find_one, legal_transitions, new_batch, recompute_totals, remove_event,
  status_patch, unassign,
}
use proofchain.Merkle.{merkle_root_hex}
use proofchain.Attempts.{contains}

module _ (sha : Sha256) (db : Database) (id : Text) (now : ℕ) where
  pub record Sealing (db' : Database) : Type 0 where
    pub batch : BatchEntity
    pub found : find_batch db id ≡ some batch
    pub was_open : batch.status ≡ opened
    pub some_events : is_empty (ordered_events db id) ≡ false
    pub none_quarantined : keep (λ e. e.quarantined) (ordered_events db id) ≡ []
    pub root : Text
    pub root_ok : merkle_root_hex sha (leaves_of sha (ordered_events db id)) ≡ ok root
    pub after : db' ≡ update_batch db id (seal_patch now root (ordered_events db id))

  pub seal-Sealing :
      {db' : Database} {b : BatchEntity} → seal sha db id now ≡ ok (db', b) → Sealing db'
  unfolding seal status_eq reread
  seal-Sealing h = elim (Option-cases (find_batch db id)) [
    | inl missing ↦ absurd (ground arith)
    | inr (batch, found) ↦
        elim (Result-cases (merkle_root_hex sha (leaves_of sha (ordered_events db id)))) [
          | inl (root, e) ↦ record {
            batch = batch;
            found = found;
            was_open = ground arith;
            some_events = ground arith;
            none_quarantined = ground arith;
            root = root;
            root_ok = e;
            after = ground arith;
          }
          | inr (why, e) ↦ absurd (ground arith)
        ]
  ]

module _ (db : Database) (id : Text) where
  pub record Adding (event_ids : List Text) (db' : Database) : Type 0 where
    pub batch : BatchEntity
    pub found : find_batch db id ≡ some batch
    pub was_open : batch.status ≡ opened
    pub all_material :
        keep
          (λ c. not (text_eq c.material batch.material))
          (keep (eligible event_ids batch.hub_id) db.events)
        ≡ []
    pub all_found :
        keep
          (λ i.
            not (contains (map (λ c. c.id) (keep (eligible event_ids batch.hub_id) db.events)) i))
          event_ids
        ≡ []
    pub after :
        db'
        ≡ recompute_totals
            (record db {
              events =
                  map
                    (assign (map (λ c. c.id) (keep (eligible event_ids batch.hub_id) db.events)) id)
                    db.events;
            })
            id

  pub add_events-Adding :
      (event_ids : List Text) {db' : Database} {b : BatchEntity}
      → add_events db id event_ids ≡ ok (db', b)
      → Adding event_ids db'
  unfolding add_events status_eq reread
  add_events-Adding event_ids h = elim (Option-cases (find_batch db id)) [
    | inl missing ↦ absurd (ground arith)
    | inr (batch, found) ↦ record {
      batch = batch;
      found = found;
      was_open = ground arith;
      all_material = ground arith;
      all_found = ground arith;
      after = ground arith;
    }
  ]

  pub record Removing (event_id : Text) (db' : Database) : Type 0 where
    pub batch : BatchEntity
    pub found : find_batch db id ≡ some batch
    pub was_open : batch.status ≡ opened
    pub was_member : is_empty (keep (λ e. text_eq e.id event_id && in_batch id e) db.events) ≡ false
    pub after :
        db' ≡ recompute_totals (record db { events = map (unassign event_id id) db.events }) id

  pub remove_event-Removing :
      (event_id : Text) {db' : Database} {b : BatchEntity}
      → remove_event db id event_id ≡ ok (db', b)
      → Removing event_id db'
  unfolding remove_event status_eq reread
  remove_event-Removing event_id h = elim (Option-cases (find_batch db id)) [
    | inl missing ↦ absurd (ground arith)
    | inr (batch, found) ↦ record {
      batch = batch;
      found = found;
      was_open = ground arith;
      was_member = ground arith;
      after = ground arith;
    }
  ]

  -- The two transitions that setting the column can make.
  pub record Advancing (to : BatchStatus) (db' : Database) : Type 0 where
    pub batch : BatchEntity
    pub found : find_batch db id ≡ some batch
    pub legal :
        ((batch.status ≡ sealed) × (to ≡ processed)) ⊎ ((batch.status ≡ processed) × (to ≡ sold))
    pub after : db' ≡ update_batch db id (status_patch to)

  pub advance_status-Advancing :
      (to : BatchStatus) {db' : Database} {b : BatchEntity}
      → advance_status db id to ≡ ok (db', b)
      → Advancing to db'
  unfolding advance_status find_one legal_transitions status_eq
  advance_status-Advancing to h = elim (Option-cases (find_batch db id)) [
    | inl missing ↦ absurd (ground arith)
    | inr (batch, found) ↦ record {
      batch = batch;
      found = found;
      legal = ground arith;
      after = ground arith;
    }
  ]

pub create-after :
    (db : Database) (new_id : Text) (now : ℕ) (hub_id material : Text) {db' : Database}
    {b : BatchEntity}
    → create db new_id now hub_id material ≡ ok (db', b)
    → db' ≡ record db { batches = db.batches ++ new_batch new_id now hub_id material ∷ [] }
unfolding create
create-after db new_id now hub_id material h = ground arith
