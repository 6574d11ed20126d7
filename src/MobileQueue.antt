-- ===== src/MobileQueue.antt =====
-- apps/mobile/src/lib/queue.ts: the offline queue of the mobile app. The whole queue is one value
-- of the key-value store. Instants are in milliseconds; strings that hold one are modelled by it.
pub mod Sync
pub mod Marks
pub mod Signed
pub mod Acknowledged
pub mod Stranded
pub mod Posts
pub mod Tally
mod Examples
use proofchain.Prelude.{
  leb, ◌==◌, if◌then◌else◌, is_none, length, keep, Text, text_eq, ℕ, ◌+◌, ◌-◌, ◌*◌, Bool, true,
  false, not, ◌&&◌, Option, List, [], ◌∷◌, ◌++◌, map, ℤ, pos, ltb_ℤ, ◌-ℤ◌,
}
use proofchain.Canonical.{WeighInPayload}
use proofchain.Events.{store}

pub data QueueStatus : Type 0 where
  queued syncing synced rejected : QueueStatus

pub record QueuedWeighIn : Type 0 where
  pub id : Text
  pub payload : WeighInPayload
  pub signature : Text
  pub photo_uri : Option Text
  pub photo_uploaded_at : Option ℕ
  pub status : QueueStatus
  pub attempts : ℕ
  pub last_error : Option Text
  pub created_at : ℕ
  pub synced_at : Option ℕ
  pub server_event_id : Option Text

-- What the store has under the queue's key: no item or an empty one, text that is not the JSON of
-- an array, or the JSON of the records.
pub data Saved : Type 0 where
  nothing_saved : Saved
  unreadable : Text → Saved
  holds : List QueuedWeighIn → Saved

abbrev pub is_syncing : QueueStatus → Bool
is_syncing syncing = true
is_syncing queued = false
is_syncing synced = false
is_syncing rejected = false

abbrev pub is_synced : QueueStatus → Bool
is_synced synced = true
is_synced queued = false
is_synced syncing = false
is_synced rejected = false

abbrev pub is_open : QueueStatus → Bool
is_open queued = true
is_open syncing = true
is_open synced = false
is_open rejected = false

unfoldable pub read_all : Saved → List QueuedWeighIn
read_all nothing_saved = []
read_all (unreadable raw) = []
read_all (holds records) = records

unfoldable pub enqueue : Saved → QueuedWeighIn → Saved
enqueue store entry = holds (read_all store ++ entry ∷ [])

-- `{ ...r, ...patch, id: r.id }`; a patch is a function on records.
unfoldable pub patched : Text → (QueuedWeighIn → QueuedWeighIn) → QueuedWeighIn → QueuedWeighIn
patched id patch r = if text_eq r.id id then record (patch r) { id = r.id } else r

-- Read and written as one change. The source awaits between the two, so that this stands for an update
-- that no capture and no other update interrupts.
unfoldable pub update : Saved → Text → (QueuedWeighIn → QueuedWeighIn) → Saved
update store id patch = holds (map (patched id patch) (read_all store))

unfoldable pub insert_by_age : QueuedWeighIn → List QueuedWeighIn → List QueuedWeighIn
insert_by_age r [] = r ∷ []
insert_by_age r (x ∷ xs) =
    let rest = insert_by_age r xs in if leb r.created_at x.created_at then r ∷ x ∷ xs else x ∷ rest

unfoldable pub oldest_first : List QueuedWeighIn → List QueuedWeighIn
oldest_first [] = []
oldest_first (r ∷ rs) = insert_by_age r (oldest_first rs)

unfoldable pub pending : Saved → List QueuedWeighIn
pending store = oldest_first (keep (λ r. is_open r.status) (read_all store))

-- A photo was taken and the server does not have it.
unfoldable pub photo_outstanding : QueuedWeighIn → Bool
photo_outstanding r = not (is_none r.photo_uri) && is_none r.photo_uploaded_at

unfoldable pub awaits_photo : QueuedWeighIn → Bool
awaits_photo r = is_synced r.status && (not (is_none r.server_event_id) && photo_outstanding r)

unfoldable pub pending_photos : Saved → List QueuedWeighIn
pending_photos store = oldest_first (keep awaits_photo (read_all store))

pub record Counts : Type 0 where
  pub queued_count : ℕ
  pub syncing_count : ℕ
  pub synced_count : ℕ
  pub rejected_count : ℕ

unfoldable pub count_status : Counts → QueueStatus → Counts
count_status c queued = record c { queued_count = c.queued_count + 1 }
count_status c syncing = record c { syncing_count = c.syncing_count + 1 }
count_status c synced = record c { synced_count = c.synced_count + 1 }
count_status c rejected = record c { rejected_count = c.rejected_count + 1 }

unfoldable pub count_all : Counts → List QueuedWeighIn → Counts
count_all c [] = c
count_all c (r ∷ rs) = count_all (count_status c r.status) rs

unfoldable pub counts : Saved → Counts
counts store =
    count_all (record { queued_count = 0; syncing_count = 0; synced_count = 0; rejected_count = 0 })
      (read_all store)

-- The first argument is `cutoff`.
unfoldable pub is_finished : ℤ → QueuedWeighIn → Bool
is_finished cutoff r =
    is_synced r.status && (not (photo_outstanding r) && ltb_ℤ (pos r.created_at) cutoff)

unfoldable pub retained : ℕ → ℕ → List QueuedWeighIn → List QueuedWeighIn
retained now older_than_days records =
    keep (λ r. not (is_finished (pos now -ℤ pos (older_than_days * 86400000)) r)) records

-- The queue, and how many records left it.
unfoldable pub prune_synced : Saved → ℕ → ℕ → Saved × ℕ
prune_synced store now older_than_days =
    let records = read_all store in
    let kept = retained now older_than_days records in
    (if length kept == length records then store else holds kept, length records - length kept)
