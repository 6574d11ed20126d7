-- ===== src/Photos/Evidence.antt =====
-- What is served as the photo of a weigh-in hashes to the digest that was signed.
use proofchain.Prelude.{
  Option-cases, length, take, drop, find, append_split, cons_tail, ok, Text, text, text_eq_iff, ℕ,
  ◌+◌, ◌≡◌, refl, sym, ◌∙◌, inl, inr, true, Option, none, some, List, [], ◌∷◌, arith,
}
use proofchain.Database.{CollectionEventEntity}
use proofchain.Hashing.{Sha256}
use proofchain.Hashing.Hex.{Bytes, is_hash_hex, is_hash_hex-length}
use proofchain.Photos.{
  PhotoState, PhotoAttachment, attach, relative_path_for, with_id, PhotoFile, path_of, put_photo,
  read_photo, store_photo, with_uri,
}
use proofchain.ImageType.{ImageType, detect_image_type}
use proofchain.Table.{get-put}

first_two :
    (s : Text) (n : ℕ) → length s ≡ 2 + n → (length (take 2 s) ≡ 2) × (length (drop 2 s) ≡ n)
first_two [] n h = absurd (omega arith)
first_two (a ∷ []) n h = absurd (omega arith)
first_two (a ∷ b ∷ s) n h = (ground arith, omega arith)

pub relative_path_for_injective :
    (s t : Text)
    → is_hash_hex s ≡ true
    → is_hash_hex t ≡ true
    → relative_path_for s ≡ relative_path_for t
    → s ≡ t
unfolding relative_path_for
relative_path_for_injective s t hs ht e =
    let ls = is_hash_hex-length s hs in
    let lt = is_hash_hex-length t ht in
    let (s2, s62) = first_two s 62 ls in
    let (t2, t62) = first_two t 62 lt in
    let (s4, s60) = first_two (drop 2 s) 60 s62 in
    let (t4, t60) = first_two (drop 2 t) 60 t62 in
    let one = append_split (take 2 s) _ (take 2 t) _ (s2 ∙ sym t2) e in
    let two =
      append_split (take 2 (drop 2 s)) _ (take 2 (drop 2 t)) _ (s4 ∙ sym t4) (cons_tail one.1) in
    (append_split s (text ".bin") t (text ".bin") (ls ∙ sym lt) (cons_tail two.1)).0

abbrev uri_given : Text → Option CollectionEventEntity → Option CollectionEventEntity
uri_given uri none = none
uri_given uri (some e) = some (with_uri uri e)

module _ (sha : Sha256) where
  -- What an upload that is accepted has passed, and what it does.
  pub record Accepted (s s' : PhotoState) (id : Text) (bytes : Bytes) (a : PhotoAttachment)
      : Type 0 where
    pub event : CollectionEventEntity
    pub content_type : ImageType
    pub found : find (with_id id) s.events ≡ some event
    pub detected : detect_image_type bytes ≡ some content_type
    pub signed : sha.hex bytes ≡ event.photo_hash
    pub outcome : store_photo sha s id bytes content_type ≡ (s', a)

  pub attach-Accepted :
      (max_bytes : ℕ) (s s' : PhotoState) (id : Text) (bytes : Bytes) (a : PhotoAttachment)
      → attach sha max_bytes s id bytes ≡ ok (s', a)
      → Accepted s s' id bytes a
  unfolding attach
  attach-Accepted max_bytes s s' id bytes a h = elim (Option-cases (find (with_id id) s.events)) [
    | inl missing ↦ absurd (ground arith)
    | inr (event, found) ↦ elim (Option-cases (detect_image_type bytes)) [
      | inl no_image ↦ absurd (ground arith)
      | inr (content_type, detected) ↦ record {
        event = event;
        content_type = content_type;
        found = found;
        detected = detected;
        signed = ground (arith, text_eq_iff (sha.hex bytes) event.photo_hash);
        outcome = ground arith;
      }
    ]
  ]

  pub read_photo-put_photo :
      (files : List PhotoFile) (bytes : Bytes)
      → read_photo (put_photo sha files bytes).0 (sha.hex bytes)
        ≡ some (record { path = relative_path_for (sha.hex bytes); bytes = bytes })
  unfolding read_photo put_photo
  read_photo-put_photo files bytes =
      let path = relative_path_for (sha.hex bytes) in
      rw
        (
          sha.hex-is_hash_hex bytes,
          get-put path_of files (record { path = path; bytes = bytes }) path,
          (text_eq_iff path path).1 refl,
        )
        refl
