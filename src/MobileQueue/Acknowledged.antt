-- ===== src/MobileQueue/Acknowledged.antt =====
-- Records leave the queue once the server has acknowledged them, and not before.
use proofchain.Prelude.{
  ◌==◌, ==_iff, Bool-cases, length, keep, All, All-map, All-keep, All-kept, All-snoc, length-keep,
  keep_whole, All-mapped, Text, text_eq, ℕ, ◌*◌, ◌≡◌, refl, sym, subst, inl, inr, true, false, some,
  List, arith, ℤ, pos, ◌-ℤ◌,
}
use proofchain.MobileQueue.{
  QueuedWeighIn, Saved, enqueue, is_open, nothing_saved, patched, prune_synced, queued, read_all,
  retained, unreadable, update, is_finished, photo_outstanding,
}
use proofchain.MobileQueue.Sync.{
  SyncDeps, mark_photo, mark_queued, mark_rejected, mark_synced, mark_syncing, sync_pending,
}
use proofchain.MobileQueue.Marks.{
  IsMark, Marked, begins, refuses, returns, settles, sync_pending-Marked, then_marked, unmarked,
  uploads,
}

pub data QueueReach : Saved → Type 1 where
  first_start : QueueReach nothing_saved
  damaged : (raw : Text) → QueueReach (unreadable raw)
  captures :
      (saved : Saved) (r : QueuedWeighIn)
      → QueueReach saved
      → r.status ≡ queued
      → QueueReach (enqueue saved r)
  syncs :
      {W : Type 0} (deps : SyncDeps W) (backend_url : Text) (saved : Saved) (w : W)
      → QueueReach saved
      → QueueReach (sync_pending deps backend_url saved w).store
  prunes :
      (saved : Saved) (now days : ℕ) → QueueReach saved → QueueReach (prune_synced saved now days).0

-- A record that is neither queued nor on its way has an event on the server.
abbrev pub IsAcknowledged : QueuedWeighIn → Type 0
IsAcknowledged r = is_open r.status ≡ false → (e : Text) × (r.server_event_id ≡ some e)

mark-IsAcknowledged :
    (patch : QueuedWeighIn → QueuedWeighIn) (r : QueuedWeighIn)
    → IsMark patch
    → IsAcknowledged r
    → IsAcknowledged (patch r)
unfolding mark_syncing mark_rejected mark_synced mark_queued mark_photo
mark-IsAcknowledged patch r begins a settled = cc
mark-IsAcknowledged patch r (refuses response now) a settled = (response.event_id, refl)
mark-IsAcknowledged patch r (settles response now photo) a settled = (response.event_id, refl)
mark-IsAcknowledged patch r (returns attempts message) a settled = cc
mark-IsAcknowledged patch r (uploads now) a settled = a settled

patched-IsAcknowledged :
    (id : Text) (patch : QueuedWeighIn → QueuedWeighIn) (r : QueuedWeighIn)
    → IsMark patch
    → IsAcknowledged r
    → IsAcknowledged (patched id patch r)
unfolding patched
patched-IsAcknowledged id patch r k a = elim (Bool-cases (text_eq r.id id)) [
  | inl own ↦ rw own (mark-IsAcknowledged patch r k a)
  | inr other ↦ rw other a
]

Marked-IsAcknowledged :
    (saved saved' : Saved)
    → Marked saved saved'
    → All IsAcknowledged (read_all saved)
    → All IsAcknowledged (read_all saved')
unfolding update read_all
Marked-IsAcknowledged saved _ unmarked a = a
Marked-IsAcknowledged saved _ (then_marked prior id patch m k) a =
    All-mapped IsAcknowledged (patched id patch) (read_all prior) (
      All-map (λ r. patched-IsAcknowledged id patch r k) (read_all prior)
        (Marked-IsAcknowledged saved prior m a))

-- When no record is dropped, not writing the queue again makes no difference.
prune_synced-keep :
    (saved : Saved) (now days : ℕ)
    → read_all (prune_synced saved now days).0 ≡ retained now days (read_all saved)
unfolding prune_synced
prune_synced-keep saved now days =
    elim (Bool-cases (length (retained now days (read_all saved)) == length (read_all saved))) [
      | inl whole ↦
          rw whole (sym (unfold retained in keep_whole _ (read_all saved) ((==_iff _ _).0 whole)))
      | inr less ↦ rw less (unfold read_all in refl)
    ]

QueueReach-IsAcknowledged : (saved : Saved) → QueueReach saved → All IsAcknowledged (read_all saved)
unfolding enqueue read_all retained
QueueReach-IsAcknowledged _ first_start = tt
QueueReach-IsAcknowledged _ (damaged raw) = tt
QueueReach-IsAcknowledged _ (captures saved r q fresh) =
    All-snoc IsAcknowledged (read_all saved) r (QueueReach-IsAcknowledged saved q) (λ settled. cc)
QueueReach-IsAcknowledged _ (syncs deps url saved w q) =
    Marked-IsAcknowledged saved _ (sync_pending-Marked deps url saved w)
      (QueueReach-IsAcknowledged saved q)
QueueReach-IsAcknowledged _ (prunes saved now days q) =
    subst (All IsAcknowledged) (sym (prune_synced-keep saved now days))
      (All-keep IsAcknowledged _ (read_all saved) (QueueReach-IsAcknowledged saved q))

-- What a clean-up is to drop.
abbrev pub finished_records : ℕ → ℕ → List QueuedWeighIn → List QueuedWeighIn
finished_records now days records = keep (is_finished (pos now -ℤ pos (days * 86400000))) records

-- An event on the server, and no photo that it has yet to get.
abbrev pub IsHandedOver : QueuedWeighIn → Type 0
IsHandedOver r = ((e : Text) × (r.server_event_id ≡ some e)) × (photo_outstanding r ≡ false)

is_finished-open :
    (cutoff : ℤ) (r : QueuedWeighIn) → is_finished cutoff r ≡ true → is_open r.status ≡ false
unfolding is_finished
is_finished-open cutoff r f = ground arith

is_finished-photo :
    (cutoff : ℤ) (r : QueuedWeighIn) → is_finished cutoff r ≡ true → photo_outstanding r ≡ false
unfolding is_finished
is_finished-photo cutoff r f = ground arith

-- From the first start of the app, or from a queue that cannot be read, through any series of
-- captures, passes over the queue and clean-ups: each record that a clean-up drops has an event on
-- the server and, where it has a photo, the photo has been sent; all else is kept as it is and in
-- its order, and the number returned is the number dropped.
pub prune_synced-acknowledged :
    (saved : Saved) (now days : ℕ)
    → QueueReach saved
    → (read_all (prune_synced saved now days).0 ≡ retained now days (read_all saved))
      × ((prune_synced saved now days).1 ≡ length (finished_records now days (read_all saved)))
      × All IsHandedOver (finished_records now days (read_all saved))
prune_synced-acknowledged saved now days q =
    let cutoff = pos now -ℤ pos (days * 86400000) in
    let split = length-keep (is_finished cutoff) (read_all saved) in
    (
      prune_synced-keep saved now days,
      unfold prune_synced retained in omega arith,
      All-kept IsHandedOver (is_finished cutoff) (read_all saved) (
          All-map (λ r a f. (a (is_finished-open cutoff r f), is_finished-photo cutoff r f))
            (read_all saved) (QueueReach-IsAcknowledged saved q)),
    )
