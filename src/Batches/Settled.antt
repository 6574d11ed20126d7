-- ===== src/Batches/Settled.antt =====
-- A batch whose anchor is written back leaves the queue of the worker.
use proofchain.Prelude.{
  exists, All, All-map, find-append, All-mapped, ok, Text, text_eq_refl, truthy, text_eq, ℕ, ◌≡◌,
  refl, sym, ap, ◌∙◌, ◌≢◌, false, none, some, [], ◌∷◌, ◌++◌,
}
use proofchain.Database.{
  Database, BatchEntity, AnchorRecordEntity, find_anchor, find_batch, sealed, succeeded,
}
use proofchain.Batches.Anchoring.{
  AnchorInput, PendingAnchorBatch, anchor_row, pending_anchor, pending_rows, record_anchor,
  save_anchor, sealed_root, to_pending, write_anchor,
}
use proofchain.Attempts.{record_attempt}
use proofchain.Batches.{find_one, status_eq}
use proofchain.Batches.Queue.{Waits, pending_rows-Waits}
use proofchain.Batches.Preservation.{find_batch-id}

-- No anchor is recorded under this transaction.
abbrev pub IsUnused : Database → Text → Type 0
IsUnused db tx_hash =
    exists (λ (a : AnchorRecordEntity). text_eq a.stellar_tx_hash tx_hash) db.anchors ≡ false

pending_anchor-unanchored :
    (db : Database) (j : Text) (a : AnchorRecordEntity) (t : ℕ)
    → find_anchor db j ≡ some a
    → All (λ (p : PendingAnchorBatch). p.id ≢ j) (pending_anchor db t)
unfolding pending_anchor to_pending
pending_anchor-unanchored db j a t f =
    All-mapped (λ (p : PendingAnchorBatch). p.id ≢ j) _ (pending_rows db t)
      (All-map (λ b w same. absurd (cc (w.1, f, same))) (pending_rows db t)
        (pending_rows-Waits db t))

module _ (anchored_in : ℕ → Text) where
  -- The database after the write.
  abbrev written : Database → Text → AnchorInput → ℕ → Database
  written db j input now =
      record_attempt (record db { anchors = db.anchors ++ anchor_row j input ∷ [] }) j
        (record {
          outcome = succeeded;
          detail = some (anchored_in input.stellar_ledger);
          stellar_tx_hash = some input.stellar_tx_hash;
        })
        now

  write_anchor-written :
      (db : Database) (j : Text) (input : AnchorInput) (now : ℕ)
      → IsUnused db input.stellar_tx_hash
      → write_anchor anchored_in db j input now ≡ ok (written db j input now, anchor_row j input)
  unfolding write_anchor save_anchor
  write_anchor-written db j input now unused = rw unused refl

  find_anchor-written :
      (db : Database) (j : Text) (input : AnchorInput) (now : ℕ)
      → find_anchor db j ≡ none
      → find_anchor (written db j input now) j ≡ some (anchor_row j input)
  unfolding find_anchor record_attempt
  find_anchor-written db j input now free =
      find-append (λ (a : AnchorRecordEntity). text_eq a.batch_id j) db.anchors
        (anchor_row j input ∷ [])
      ∙ rw free (unfold anchor_row in rw (text_eq_refl j) refl)

  record_anchor-written :
      (db : Database) (j : Text) (b : BatchEntity) (input : AnchorInput) (now : ℕ)
      → find_batch db j ≡ some b
      → b.status ≡ sealed
      → find_anchor db j ≡ none
      → truthy b.merkle_root ≡ some input.merkle_root
      → IsUnused db input.stellar_tx_hash
      → record_anchor anchored_in db j input now ≡ ok (written db j input now, anchor_row j input)
  unfolding record_anchor find_one sealed_root status_eq
  record_anchor-written db j b input now found is_sealed free rooted unused =
      rw (found, is_sealed, rooted, text_eq_refl input.merkle_root, free)
        (write_anchor-written db j input now unused)

  -- The write-back of a batch that waits, with its root and a transaction that is not recorded yet, is
  -- accepted, whatever else the database holds, and the batch is never handed to the worker out of
  -- the database that it leaves.
  pub record_anchor-settles :
      (db : Database) (j : Text) (b : BatchEntity) (input : AnchorInput) (now : ℕ)
      → find_batch db j ≡ some b
      → Waits db b
      → truthy b.merkle_root ≡ some input.merkle_root
      → IsUnused db input.stellar_tx_hash
      → (db' : Database) × (record_anchor anchored_in db j input now ≡ ok (db', anchor_row j input))
        × ((t : ℕ) → All (λ (p : PendingAnchorBatch). p.id ≢ j) (pending_anchor db' t))
  record_anchor-settles db j b input now found waits rooted unused =
      let free = ap (find_anchor db) (sym (find_batch-id db j b found)) ∙ waits.1 in
      (
        written db j input now,
        record_anchor-written db j b input now found waits.0 free rooted unused,
        λ t. pending_anchor-unanchored _ j _ t (find_anchor-written db j input now free),
      )
