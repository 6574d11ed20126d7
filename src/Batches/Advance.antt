-- ===== src/Batches/Advance.antt =====
-- `advanceStatus` keeps the database valid.
use proofchain.Prelude.{ok, Text, ◌≡◌, refl, ◌⊎◌, Option, arith}
use proofchain.Hashing.{Sha256}
use proofchain.Database.{
  Database, BatchEntity, BatchStatus, events_in, update_batch, opened, processed, sealed, sold,
}
use proofchain.Batches.Invariant.{IsValid, BatchIsValid, RootFits}
use proofchain.Batches.Preservation.{change-IsValid, rooted-events}
use proofchain.Batches.{ordered_events, advance_status, status_patch}
use proofchain.Batches.Effects.{advance_status-Advancing}
use proofchain.Batches.Lifecycle.{rewritten, rewritten-Change, Fits-row}

module _ (sha : Sha256) where
  -- A later status keeps what was sealed.
  advance_fits :
      (db : Database) (id : Text) (s to : BatchStatus) (root : Option Text)
      → ((s ≡ sealed) × (to ≡ processed)) ⊎ ((s ≡ processed) × (to ≡ sold))
      → RootFits sha db id s root
      → RootFits sha db id to root
  advance_fits db id sealed processed root l f = f
  advance_fits db id processed sold root l f = f
  advance_fits db id opened to root l f = absurd (ground arith)
  advance_fits db id sold to root l f = absurd (ground arith)
  advance_fits db id sealed opened root l f = absurd (ground arith)
  advance_fits db id sealed sealed root l f = absurd (ground arith)
  advance_fits db id sealed sold root l f = absurd (ground arith)
  advance_fits db id processed opened root l f = absurd (ground arith)
  advance_fits db id processed sealed root l f = absurd (ground arith)
  advance_fits db id processed processed root l f = absurd (ground arith)

  advance-own :
      (db : Database) (id : Text) (to : BatchStatus) (b : BatchEntity)
      → ((b.status ≡ sealed) × (to ≡ processed)) ⊎ ((b.status ≡ processed) × (to ≡ sold))
      → BatchIsValid sha db b
      → BatchIsValid sha (rewritten db db.events id (status_patch to)) (status_patch to b)
  unfolding status_patch events_in update_batch ordered_events
  advance-own db id to b legal old = record {
    members = Fits-row b (status_patch to b) (events_in db b.id) refl refl old.members;
    total = old.total;
    count = old.count;
    rooted =
        rooted-events sha db (rewritten db db.events id (status_patch to)) b.id to b.merkle_root
          refl (advance_fits db b.id b.status to b.merkle_root legal old.rooted);
  }

  pub advance_status-IsValid :
      (db : Database) (id : Text) (to : BatchStatus) {db' : Database} {b : BatchEntity}
      → IsValid sha db
      → advance_status db id to ≡ ok (db', b)
      → IsValid sha db'
  unfolding status_patch update_batch
  advance_status-IsValid db id to v h =
      let a = advance_status-Advancing db id to h in
      rw a.after (
        change-IsValid sha db (rewritten db db.events id (status_patch to)) id
          (status_patch to a.batch) v
          (rewritten-Change db db.events id (status_patch to) a.batch a.found (λ x. refl)
            (λ root r. r) (λ j other. refl))
          (advance-own db id to a.batch a.legal (v.batch_valid id a.batch a.found)) v.unique_ids)
