-- ===== src/Photos/Store.antt =====
-- No upload takes away the evidence behind another weigh-in.
use proofchain.Prelude.{
  if◌then◌else◌, Bool-cases, find, All, some_injective, All-zip, All-mapped, ok, Text, text_eq→eq,
  truthy, text_eq, ℕ, ◌≡◌, refl, sym, ap, subst, ◌∙◌, inl, inr, true, false, Option, none, some,
  List, arith,
}
use proofchain.Database.{CollectionEventEntity}
use proofchain.Hashing.{Sha256}
use proofchain.Hashing.Hex.{Bytes, is_hash_hex}
use proofchain.Photos.{
  PhotoState, PhotoFile, put_photo, read_photo, relative_path_for, with_id, PhotoAttachment, attach,
  path_of, set_photo_uri, store_photo, with_uri,
}
use proofchain.Photos.Evidence.{read_photo-put_photo, relative_path_for_injective, attach-Accepted}
use proofchain.Table.{get-put}

-- Each row is the one that its id finds.
abbrev pub IdsDiffer : List CollectionEventEntity → Type 0
IdsDiffer events = All (λ e. find (with_id e.id) events ≡ some e) events

module _ (sha : Sha256) where
  -- Where an event names a photo, the store has one whose bytes hash to the digest that was signed.
  unfoldable pub EvidenceFor : Option Text → List PhotoFile → Text → Type 0
  EvidenceFor none files photo_hash = Unit
  EvidenceFor (some uri) files photo_hash =
      (f : PhotoFile) × (read_photo files photo_hash ≡ some f) × (sha.hex f.bytes ≡ photo_hash)

  abbrev pub IsEvidence : PhotoState → Type 0
  IsEvidence s = All (λ e. EvidenceFor (truthy e.photo_uri) s.files e.photo_hash) s.events

  new_file-evidence :
      (files : List PhotoFile) (bytes : Bytes) (photo_hash : Text) (o : Option Text)
      → sha.hex bytes ≡ photo_hash
      → EvidenceFor o (put_photo sha files bytes).0 photo_hash
  unfolding EvidenceFor
  new_file-evidence files bytes photo_hash none e = tt
  new_file-evidence files bytes photo_hash (some uri) e = (
    _,
    ap (read_photo (put_photo sha files bytes).0) (sym e) ∙ read_photo-put_photo sha files bytes,
    e,
  )

  read_photo-hex :
      (files : List PhotoFile) (photo_hash : Text) (f : PhotoFile)
      → read_photo files photo_hash ≡ some f
      → is_hash_hex photo_hash ≡ true
  unfolding read_photo
  read_photo-hex files photo_hash f h = ground arith

  -- A file under another path stays.
  read_photo-other :
      (files : List PhotoFile) (bytes : Bytes) (photo_hash : Text)
      → text_eq (relative_path_for (sha.hex bytes)) (relative_path_for photo_hash) ≡ false
      → read_photo (put_photo sha files bytes).0 photo_hash ≡ read_photo files photo_hash
  unfolding read_photo put_photo
  read_photo-other files bytes photo_hash other =
      rw
        (
          get-put path_of files (record { path = relative_path_for (sha.hex bytes); bytes = bytes })
              (relative_path_for photo_hash),
          other,
        )
        refl

  put_photo-evidence :
      (files : List PhotoFile) (bytes : Bytes) (photo_hash : Text) (o : Option Text)
      → EvidenceFor o files photo_hash
      → EvidenceFor o (put_photo sha files bytes).0 photo_hash
  unfolding EvidenceFor
  put_photo-evidence files bytes photo_hash none h = tt
  put_photo-evidence files bytes photo_hash (some uri) (f, found, signed) =
      elim (Bool-cases
        (text_eq (relative_path_for (sha.hex bytes)) (relative_path_for photo_hash))) [
          | inl same ↦
              let one =
                relative_path_for_injective (sha.hex bytes) photo_hash (sha.hex-is_hash_hex bytes)
                  (read_photo-hex files photo_hash f found) (text_eq→eq _ _ same) in
              new_file-evidence files bytes photo_hash (some uri) one
          | inr other ↦ (f, read_photo-other files bytes photo_hash other ∙ found, signed)
        ]

  attached-evidence :
      (s : PhotoState) (id : Text) (bytes : Bytes) (event e : CollectionEventEntity)
      → find (with_id id) s.events ≡ some event
      → sha.hex bytes ≡ event.photo_hash
      → find (with_id e.id) s.events ≡ some e
      → EvidenceFor (truthy e.photo_uri) s.files e.photo_hash
      → (λ (x : CollectionEventEntity).
            EvidenceFor (truthy x.photo_uri) (put_photo sha s.files bytes).0 x.photo_hash)
          (if with_id id e then with_uri (relative_path_for (sha.hex bytes)) e else e)
  attached-evidence s id bytes event e found signed own h = elim (Bool-cases (with_id id e)) [
    | inl mine ↦
        let at_id = text_eq→eq e.id id mine in
        let same =
          some_injective (sym found ∙ ap (λ i. find (with_id i) s.events) (sym at_id) ∙ own) in
        rw mine (
          new_file-evidence s.files bytes e.photo_hash _
            (signed ∙ ap (λ (x : CollectionEventEntity). x.photo_hash) same))
    | inr other ↦ rw other (put_photo-evidence s.files bytes e.photo_hash (truthy e.photo_uri) h)
  ]

  -- If the photo that each event names is in the store and hashes to the digest that was signed, then
  -- this is so after an upload that is accepted: for the event of the upload, and still for every other.
  pub attach-IsEvidence :
      (max_bytes : ℕ) (s s' : PhotoState) (id : Text) (bytes : Bytes) (a : PhotoAttachment)
      → attach sha max_bytes s id bytes ≡ ok (s', a)
      → IdsDiffer s.events
      → IsEvidence s
      → IsEvidence s'
  unfolding store_photo set_photo_uri relative_path_for put_photo
  attach-IsEvidence max_bytes s s' id bytes a h ids v =
      let u = attach-Accepted sha max_bytes s s' id bytes a h in
      subst (λ (r : PhotoState × PhotoAttachment). IsEvidence r.0) u.outcome
        (All-mapped
          (λ e. EvidenceFor (truthy e.photo_uri) (put_photo sha s.files bytes).0 e.photo_hash) _
          s.events
          (All-zip (λ e own w. attached-evidence s id bytes u.event e u.found u.signed own w)
            s.events ids v))
