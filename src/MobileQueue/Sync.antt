-- ===== src/MobileQueue/Sync.antt =====
-- apps/mobile/src/lib/api.ts: one pass of the mobile app over its queue. The network is a
-- parameter, which answers out of a state of its own.
use proofchain.Prelude.{
  if◌then◌else◌, Result, ok, err, Text, text, truthy, ℕ, ◌+◌, Bool, true, false, not, ◌&&◌, Option,
  none, some, List, [], ◌∷◌,
}
use proofchain.MobileQueue.{
  QueuedWeighIn, Saved, pending, pending_photos, queued, rejected, synced, syncing, update,
}
use proofchain.IntegrityCopy.{CopyFinding, describe_failures}

pub record IngestResponse : Type 0 where
  pub event_id : Text
  pub payload_hash : Text
  pub quarantined : Bool
  pub duplicate : Bool
  pub findings : List CopyFinding

pub record SyncOutcome : Type 0 where
  pub attempted : ℕ
  pub synced_records : ℕ
  pub rejected_records : ℕ
  pub failed_records : ℕ
  pub photos_uploaded : ℕ

-- The dependencies of `syncPending`: a call that throws returns an error or `false`.
pub record SyncDeps (W : Type 0) : Type 0 where
  pub is_online : W → Bool × W
  pub post : Text → QueuedWeighIn → W → Result Text IngestResponse × W
  pub send_photo : Text → Text → Text → W → Bool × W
  pub clock : W → ℕ

unfoldable pub failure_summary : IngestResponse → Text
failure_summary response = describe_failures response.findings

unfoldable pub no_outcome : SyncOutcome
no_outcome = record {
  attempted = 0;
  synced_records = 0;
  rejected_records = 0;
  failed_records = 0;
  photos_uploaded = 0;
}

unfoldable pub mark_syncing : QueuedWeighIn → QueuedWeighIn
mark_syncing r = record r { status = syncing }

unfoldable pub mark_rejected : IngestResponse → ℕ → QueuedWeighIn → QueuedWeighIn
mark_rejected response now r = record r {
  status = rejected;
  server_event_id = some response.event_id;
  synced_at = some now;
  last_error = some (failure_summary response);
}

unfoldable pub mark_synced : IngestResponse → ℕ → Bool → QueuedWeighIn → QueuedWeighIn
mark_synced response now photo_uploaded r = record r {
  status = synced;
  server_event_id = some response.event_id;
  synced_at = some now;
  photo_uploaded_at = if photo_uploaded then some now else none;
  last_error =
      if photo_uploaded
      then none
      else some (text "Weigh-in recorded. Its photo will finish uploading on the next connection.");
}

unfoldable pub mark_queued : ℕ → Text → QueuedWeighIn → QueuedWeighIn
mark_queued attempts message r = record r {
  status = queued;
  attempts = attempts;
  last_error = some message;
}

unfoldable pub mark_photo : ℕ → QueuedWeighIn → QueuedWeighIn
mark_photo now r = record r { photo_uploaded_at = some now; last_error = none }

-- The stored queue, the network and the counts so far.
pub record Pass (W : Type 0) : Type 0 where
  pub store : Saved
  pub world : W
  pub outcome : SyncOutcome

module _ {W : Type 0} (deps : SyncDeps W) (backend_url : Text) where
  unfoldable pub patch_record : Text → (QueuedWeighIn → QueuedWeighIn) → Pass W → Pass W
  patch_record id patch p = record p { store = update p.store id patch }

  -- `tryPhoto`, where the address of the photo is not empty.
  unfoldable pub try_photo : Option Text → Text → W → Bool × W
  try_photo none event_id w = (false, w)
  try_photo (some uri) event_id w = deps.send_photo backend_url event_id uri w

  unfoldable pub record_photo : Bool → SyncOutcome → SyncOutcome
  record_photo true o = record o { photos_uploaded = o.photos_uploaded + 1 }
  record_photo false o = o

  unfoldable pub settle : QueuedWeighIn → IngestResponse → Pass W → Pass W
  settle r response p =
      let sent = try_photo (truthy r.photo_uri) response.event_id p.world in
      let marked = patch_record r.id (mark_synced response (deps.clock sent.1) sent.0) p in
      record marked {
        world = sent.1;
        outcome =
            record_photo sent.0
              (record p.outcome { synced_records = p.outcome.synced_records + 1 });
      }

  unfoldable pub refuse : QueuedWeighIn → IngestResponse → Pass W → Pass W
  refuse r response p = record (patch_record r.id (mark_rejected response (deps.clock p.world)) p) {
    outcome = record p.outcome { rejected_records = p.outcome.rejected_records + 1 };
  }

  unfoldable pub give_back : QueuedWeighIn → Text → Pass W → Pass W
  give_back r message p = record (patch_record r.id (mark_queued (r.attempts + 1) message) p) {
    outcome = record p.outcome { failed_records = p.outcome.failed_records + 1 };
  }

  unfoldable pub take_answer : QueuedWeighIn → Result Text IngestResponse → Pass W → Pass W
  take_answer r (err message) p = give_back r message p
  take_answer r (ok response) p =
      if response.quarantined && not response.duplicate
      then refuse r response p
      else settle r response p

  unfoldable pub sync_one : Pass W → QueuedWeighIn → Pass W
  sync_one p r =
      let posted = deps.post backend_url r p.world in
      let begun = patch_record r.id mark_syncing p in
      take_answer r posted.0 (record begun {
        world = posted.1;
        outcome = record p.outcome { attempted = p.outcome.attempted + 1 };
      })

  unfoldable pub sync_records : Pass W → List QueuedWeighIn → Pass W
  sync_records p [] = p
  sync_records p (r ∷ rs) = sync_records (sync_one p r) rs

  -- `record.serverEventId!`, where `awaits_photo` has tested that it is there.
  unfoldable pub known_id : Option Text → Text
  known_id none = []
  known_id (some id) = id

  -- A photo of the second pass.
  unfoldable pub send_again : Pass W → QueuedWeighIn → Pass W
  send_again p r =
      let sent = try_photo (truthy r.photo_uri) (known_id r.server_event_id) p.world in
      let moved = record p { world = sent.1; outcome = record_photo sent.0 p.outcome } in
      if sent.0 then patch_record r.id (mark_photo (deps.clock sent.1)) moved else moved

  unfoldable pub send_photos : Pass W → List QueuedWeighIn → Pass W
  send_photos p [] = p
  send_photos p (r ∷ rs) = send_photos (send_again p r) rs

  unfoldable pub drain : Pass W → Pass W
  drain p =
      let drained = sync_records p (pending p.store) in
      send_photos drained (pending_photos drained.store)

  unfoldable pub sync_pending : Saved → W → Pass W
  sync_pending store w =
      let online = deps.is_online w in
      let p : Pass W = record { store = store; world = online.1; outcome = no_outcome } in
      if online.0 then drain p else p
