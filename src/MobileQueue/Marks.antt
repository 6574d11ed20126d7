-- ===== src/MobileQueue/Marks.antt =====
-- A pass over the queue changes it by a series of marks, each on the records of one id.
use proofchain.Prelude.{
  Bool-cases, Result, ok, err, Text, truthy, ℕ, inl, inr, Bool, not, ◌&&◌, List, [], ◌∷◌,
}
use proofchain.MobileQueue.{QueuedWeighIn, Saved, update}
use proofchain.MobileQueue.Sync.{
  SyncDeps, IngestResponse, Pass, drain, give_back, known_id, mark_photo, mark_queued,
  mark_rejected, mark_synced, mark_syncing, patch_record, refuse, send_again, send_photos, settle,
  sync_one, sync_pending, sync_records, take_answer, try_photo,
}

-- The five patches that a pass makes.
pub data IsMark : (QueuedWeighIn → QueuedWeighIn) → Type 0 where
  begins : IsMark mark_syncing
  refuses : (response : IngestResponse) (now : ℕ) → IsMark (mark_rejected response now)
  settles :
      (response : IngestResponse) (now : ℕ) (photo : Bool) → IsMark (mark_synced response now photo)
  returns : (attempts : ℕ) (message : Text) → IsMark (mark_queued attempts message)
  uploads : (now : ℕ) → IsMark (mark_photo now)

pub data Marked (store : Saved) : Saved → Type 0 where
  unmarked : Marked store store
  then_marked :
      (store' : Saved) (id : Text) (patch : QueuedWeighIn → QueuedWeighIn)
      → Marked store store'
      → IsMark patch
      → Marked store (update store' id patch)

module _ {W : Type 0} (deps : SyncDeps W) (backend_url : Text) (store : Saved) where
  take_answer-Marked :
      (r : QueuedWeighIn) (answer : Result Text IngestResponse) (p : Pass W)
      → Marked store p.store
      → Marked store (take_answer deps backend_url r answer p).store
  unfolding take_answer settle refuse give_back patch_record
  take_answer-Marked r (err message) p m = then_marked p.store r.id _ m (returns _ message)
  take_answer-Marked r (ok response) p m =
      elim (Bool-cases (response.quarantined && not response.duplicate)) [
        | inl refused ↦ rw refused (then_marked p.store r.id _ m (refuses response _))
        | inr fine ↦ rw fine (then_marked p.store r.id _ m (settles response _ _))
      ]

  sync_records-Marked :
      (rs : List QueuedWeighIn) (p : Pass W)
      → Marked store p.store
      → Marked store (sync_records deps backend_url p rs).store
  unfolding sync_records sync_one patch_record
  sync_records-Marked [] p m = m
  sync_records-Marked (r ∷ rs) p m =
      sync_records-Marked rs _
        (take_answer-Marked r _ _ (then_marked p.store r.id mark_syncing m begins))

  send_again-Marked :
      (r : QueuedWeighIn) (p : Pass W)
      → Marked store p.store
      → Marked store (send_again deps backend_url p r).store
  unfolding send_again patch_record
  send_again-Marked r p m =
      elim (Bool-cases
        (try_photo deps backend_url (truthy r.photo_uri)
          (known_id deps backend_url r.server_event_id) p.world).0) [
            | inl sent ↦ rw sent (then_marked p.store r.id _ m (uploads _))
            | inr lost ↦ rw lost m
          ]

  send_photos-Marked :
      (rs : List QueuedWeighIn) (p : Pass W)
      → Marked store p.store
      → Marked store (send_photos deps backend_url p rs).store
  unfolding send_photos
  send_photos-Marked [] p m = m
  send_photos-Marked (r ∷ rs) p m = send_photos-Marked rs _ (send_again-Marked r p m)

  pub sync_pending-Marked : (w : W) → Marked store (sync_pending deps backend_url store w).store
  unfolding sync_pending drain
  sync_pending-Marked w = elim (Bool-cases (deps.is_online w).0) [
    | inl online ↦ rw online (send_photos-Marked _ _ (sync_records-Marked _ _ unmarked))
    | inr offline ↦ rw offline unmarked
  ]
