-- ===== src/Photos/Examples.antt =====
-- The theorems on the photos at an upload of a JPEG.
use proofchain.Prelude.{ok, text, text_eq, ◌≡◌, refl, false, none, [], ◌∷◌, pos}
use proofchain.Database.{CollectionEventEntity, pass}
use proofchain.Hashing.Toy.{toy, toy_hex}
use proofchain.Hashing.Hex.{Bytes}
use proofchain.ImageType.{detect_image_type, jpeg, matches, subarray, has_brand}
use proofchain.Photos.{PhotoState, PhotoAttachment, attach, store_photo}
use proofchain.Photos.Store.{EvidenceFor, IdsDiffer, IsEvidence, attach-IsEvidence}

abbrev jpeg_bytes : Bytes
jpeg_bytes = 255 ∷ 216 ∷ 255 ∷ 0 ∷ 0 ∷ 0 ∷ 0 ∷ 0 ∷ 0 ∷ 0 ∷ 0 ∷ 0 ∷ []

abbrev weighed : CollectionEventEntity
weighed = record {
  id = text "e";
  collector_id = [];
  hub_id = [];
  device_id = [];
  batch_id = none;
  weight = pos 1500;
  material = text "PET";
  captured_at = pos 7;
  received_at = 8;
  photo_hash = toy_hex jpeg_bytes;
  photo_uri = none;
  nonce = [];
  signature = [];
  payload_hash = [];
  integrity = pass;
  quarantined = false;
}

abbrev without_photo : PhotoState
without_photo = record { events = weighed ∷ []; files = [] }

abbrev uploaded : PhotoState × PhotoAttachment
uploaded = store_photo toy without_photo (text "e") jpeg_bytes jpeg

upload_accepted : attach toy 1000 without_photo (text "e") jpeg_bytes ≡ ok uploaded
unfolding attach text_eq detect_image_type matches subarray has_brand toy_hex
upload_accepted = refl

ids_differ : IdsDiffer without_photo.events
unfolding text_eq
ids_differ = (refl, tt)

no_photo_yet : IsEvidence toy without_photo
unfolding EvidenceFor
no_photo_yet = (tt, tt)

attach-IsEvidence_example : IsEvidence toy uploaded.0
attach-IsEvidence_example =
    attach-IsEvidence toy 1000 without_photo uploaded.0 (text "e") jpeg_bytes uploaded.1
      upload_accepted ids_differ no_photo_yet
