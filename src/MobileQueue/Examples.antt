-- ===== src/MobileQueue/Examples.antt =====
-- The theorems on the mobile app's queue, where two weigh-ins wait and the server refuses one.
use proofchain.Prelude.{
  length, keep, All, ok, Text, text, text_eq, ℕ, ◌+◌, ◌≡◌, refl, true, false, none, some, [], ◌∷◌,
  pos, ◌-ℤ◌,
}
use proofchain.Canonical.{WeighInPayload}
use proofchain.MobileQueue.{
  QueuedWeighIn, pending, Saved, awaits_photo, enqueue, holds, insert_by_age, is_finished, is_open,
  is_syncing, nothing_saved, oldest_first, patched, pending_photos, photo_outstanding, prune_synced,
  queued, read_all, retained, update,
}
use proofchain.MobileQueue.Sync.{
  SyncDeps, drain, failure_summary, give_back, mark_rejected, mark_synced, mark_syncing, no_outcome,
  patch_record, record_photo, refuse, send_again, send_photos, settle, sync_one, sync_pending,
  sync_records, take_answer, try_photo,
}
use proofchain.IntegrityCopy.{describe_failures}
use proofchain.MobileQueue.Signed.{signed_parts, sync_pending-signed_parts}
use proofchain.MobileQueue.Acknowledged.{
  IsHandedOver, QueueReach, captures, finished_records, first_start, prune_synced-acknowledged,
  syncs,
}
use proofchain.MobileQueue.Stranded.{sync_pending-settles}
use proofchain.MobileQueue.Tally.{IsTallied, sync_pending-outcome}
use proofchain.MobileQueue.Posts.{forget, noting}

abbrev payload_of : Text → WeighInPayload
payload_of nonce = record {
  schema = text "proofchain.weighin.v2";
  collector_id = text "c";
  hub_id = text "h";
  device_id = text "d";
  weight = pos 12500;
  material = text "PET";
  captured_at = text "2026-01-01T00:00:00.000Z";
  photo_hash = [];
  nonce = nonce;
}

abbrev fresh : Text → ℕ → QueuedWeighIn
fresh id now = record {
  id = id;
  payload = payload_of id;
  signature = text "s";
  photo_uri = some (text "file:///p.jpg");
  photo_uploaded_at = none;
  status = queued;
  attempts = 0;
  last_error = none;
  created_at = now;
  synced_at = none;
  server_event_id = none;
}

abbrev two_waiting : Saved
two_waiting = holds (fresh (text "1") 10 ∷ fresh (text "2") 20 ∷ [])

-- The state of the network is the number of calls so far; it refuses the second weigh-in and takes photos.
abbrev network : SyncDeps ℕ
network = record {
  is_online = λ n. (true, n);
  post = λ url r n. (
    ok (record {
      event_id = r.id;
      payload_hash = [];
      quarantined = text_eq r.id (text "2");
      duplicate = false;
      findings = [];
    }),
    n + 1,
  );
  send_photo = λ url event_id uri n. (true, n + 1);
  clock = λ n. 100 + n;
}

abbrev url : Text
url = text "http://10.0.2.2:3000"

abbrev synced_up : Saved
synced_up = (sync_pending network url two_waiting 0).store

captured_both : QueueReach two_waiting
unfolding enqueue read_all
captured_both =
    captures (holds (fresh (text "1") 10 ∷ [])) (fresh (text "2") 20)
      (captures nothing_saved (fresh (text "1") 10) first_start refl) refl

sync_pending-signed_parts_example : signed_parts synced_up ≡ signed_parts two_waiting
sync_pending-signed_parts_example = sync_pending-signed_parts network url two_waiting 0

sync_pending-outcome_example :
    IsTallied (sync_pending network url two_waiting 0).outcome
    × ((sync_pending network url two_waiting 0).outcome.attempted
        ≡ length (keep (λ r. is_open r.status) (read_all two_waiting)))
    × (forget (sync_pending (noting network) url two_waiting (0, []))
        ≡ sync_pending network url two_waiting 0)
    × ((sync_pending (noting network) url two_waiting (0, [])).world.1
        ≡ oldest_first (keep (λ r. is_open r.status) (read_all two_waiting)))
sync_pending-outcome_example = sync_pending-outcome network url two_waiting 0 refl

sync_pending-settles_example : All (λ r. is_syncing r.status ≡ false) (read_all synced_up)
sync_pending-settles_example = sync_pending-settles network url two_waiting 0 refl

-- After a month the first weigh-in goes.
prune_synced-acknowledged_example :
    (read_all (prune_synced synced_up 3000000000 14).0
      ≡ retained 3000000000 14 (read_all synced_up))
    × ((prune_synced synced_up 3000000000 14).1
        ≡ length (finished_records 3000000000 14 (read_all synced_up)))
    × All IsHandedOver (finished_records 3000000000 14 (read_all synced_up))
prune_synced-acknowledged_example =
    prune_synced-acknowledged synced_up 3000000000 14
      (syncs network url two_waiting 0 captured_both)

one_dropped : (prune_synced synced_up 3000000000 14).1 ≡ 1
unfolding prune_synced retained is_finished photo_outstanding sync_pending drain sync_records
    sync_one take_answer settle refuse give_back patch_record try_photo record_photo send_photos
    send_again pending pending_photos awaits_photo oldest_first insert_by_age update patched
    read_all mark_syncing mark_rejected mark_synced failure_summary describe_failures text_eq ◌-ℤ◌
    no_outcome
one_dropped = refl
