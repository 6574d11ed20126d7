-- ===== src/Photos.antt =====
-- apps/backend/src/photos/photos.service.ts and photo-store.ts: the photo of a weigh-in, kept under
-- its own digest. The file system is a table of files by path; a read that fails is taken to mean
-- that the file is not there.
pub mod Evidence
pub mod Store
mod Examples
use proofchain.Prelude.{
  ltb, ◌==◌, if◌then◌else◌, is_none, length, take, drop, find, throw_if, or_throw, ok, Text, text,
  truthy, text_eq, ℕ, ◌/◌, Bool, not, Option, none, some, List, ◌++◌, map, ◌>>=◌, ◌>>◌,
}
use proofchain.Database.{CollectionEventEntity}
use proofchain.Errors.{
  Outcome, bad_request, event_missing, not_found, payload_too_large, photo_differs, photo_empty,
  photo_not_image, photo_too_large,
}
use proofchain.Hashing.{Sha256}
use proofchain.Hashing.Hex.{Bytes, is_hash_hex}
use proofchain.ImageType.{ImageType, detect_image_type}
use proofchain.Table.{get, put}

pub record PhotoFile : Type 0 where
  pub path : Text
  pub bytes : Bytes

pub record StoredPhoto : Type 0 where
  pub sha256 : Text
  pub size : ℕ
  pub relative_path : Text

pub record PhotoAttachment : Type 0 where
  pub event_id : Text
  pub sha256 : Text
  pub size : ℕ
  pub content_type : ImageType
  pub already_stored : Bool

-- No type stands for `application/octet-stream`.
pub record ServedPhoto : Type 0 where
  pub bytes : Bytes
  pub sha256 : Text
  pub content_type : Option ImageType

-- The rows and the files that the service works on.
pub record PhotoState : Type 0 where
  pub events : List CollectionEventEntity
  pub files : List PhotoFile

abbrev pub path_of : PhotoFile → Text
path_of f = f.path

abbrev pub with_id : Text → CollectionEventEntity → Bool
with_id id e = text_eq e.id id

-- `join(sha256.slice(0, 2), sha256.slice(2, 4), sha256 + ".bin")`, once the digest has been tested.
unfoldable pub relative_path_for : Text → Text
relative_path_for sha256 =
    take 2 sha256 ++ (text "/" ++ (take 2 (drop 2 sha256) ++ (text "/" ++ (sha256 ++ text ".bin"))))

-- `read`; a digest of another form has no file.
unfoldable pub read_photo : List PhotoFile → Text → Option PhotoFile
read_photo files sha256 =
    let found = get path_of files (relative_path_for sha256) in
    if is_hash_hex sha256 then found else none

unfoldable pub has_photo : List PhotoFile → Text → Bool
has_photo files sha256 = not (is_none (read_photo files sha256))

abbrev pub with_uri : Text → CollectionEventEntity → CollectionEventEntity
with_uri uri e = record e { photo_uri = some uri }

unfoldable pub set_photo_uri : Text → Text → List CollectionEventEntity → List CollectionEventEntity
set_photo_uri id uri events = map (λ e. if with_id id e then with_uri uri e else e) events

module _ (sha : Sha256) where
  -- `put`: the digest of the bytes always has the form that its path asks for.
  unfoldable pub put_photo : List PhotoFile → Bytes → List PhotoFile × StoredPhoto
  put_photo files bytes =
      let sha256 = sha.hex bytes in
      let path = relative_path_for sha256 in
      (
        put path_of files (record { path = path; bytes = bytes }),
        record { sha256 = sha256; size = length bytes; relative_path = path },
      )

  -- From the point where the bytes are known to be the event's photo.
  unfoldable pub store_photo : PhotoState → Text → Bytes → ImageType → PhotoState × PhotoAttachment
  store_photo s event_id bytes content_type =
      let stored = put_photo s.files bytes in
      (
        record {
          events = set_photo_uri event_id stored.1.relative_path s.events;
          files = stored.0;
        },
        record {
          event_id = event_id;
          sha256 = sha.hex bytes;
          size = stored.1.size;
          content_type = content_type;
          already_stored = has_photo s.files (sha.hex bytes);
        },
      )

  -- `max_bytes` is set in the configuration.
  unfoldable pub attach : ℕ → PhotoState → Text → Bytes → Outcome (PhotoState × PhotoAttachment)
  attach max_bytes s event_id bytes = do
    throw_if (length bytes == 0) (bad_request photo_empty)
    throw_if (ltb max_bytes (length bytes)) (payload_too_large photo_too_large)
    event ← or_throw (find (with_id event_id) s.events) (not_found event_missing)
    content_type ← or_throw (detect_image_type bytes) (bad_request photo_not_image)
    throw_if (not (text_eq (sha.hex bytes) event.photo_hash)) (bad_request photo_differs)
    ok (store_photo s event_id bytes content_type)

-- The photo of an event that has one on record.
unfoldable pub serve : Text → Option PhotoFile → Option ServedPhoto
serve sha256 none = none
serve sha256 (some f) =
    some (record { bytes = f.bytes; sha256 = sha256; content_type = detect_image_type f.bytes })

-- The first argument is the event's `photoUri`, unless it is null or empty.
unfoldable pub photo_at : Option Text → List PhotoFile → CollectionEventEntity → Option ServedPhoto
photo_at none files event = none
photo_at (some uri) files event = serve event.photo_hash (read_photo files event.photo_hash)

unfoldable pub photo_of : PhotoState → CollectionEventEntity → Option ServedPhoto
photo_of s event = photo_at (truthy event.photo_uri) s.files event

unfoldable pub for_event : PhotoState → Text → Outcome (Option ServedPhoto)
for_event s event_id = do
  event ← or_throw (find (with_id event_id) s.events) (not_found event_missing)
  ok (photo_of s event)
