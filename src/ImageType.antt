-- ===== src/ImageType.antt =====
-- apps/backend/src/photos/image-type.ts: the type of an image, from its leading bytes.
use proofchain.Prelude.{
  leb, if◌then◌else◌, length, take, exists, Text, text, text_eq, ℕ, zero, suc, ◌+◌, ◌%◌, Bool, true,
  ◌&&◌, Option, none, some, List, [], ◌∷◌, map,
}
use proofchain.Merkle.{first}
use proofchain.Hashing.Hex.{Bytes}

pub data ImageType : Type 0 where
  jpeg png webp heic : ImageType

pub record Signature : Type 0 where
  pub type : ImageType
  pub offset : ℕ
  pub magic : Bytes

abbrev pub signatures : List Signature
signatures =
    record { type = jpeg; offset = 0; magic = 255 ∷ 216 ∷ 255 ∷ [] }
    ∷ record { type = png; offset = 0; magic = 137 ∷ 80 ∷ 78 ∷ 71 ∷ 13 ∷ 10 ∷ 26 ∷ 10 ∷ [] }
    ∷ record { type = webp; offset = 0; magic = 82 ∷ 73 ∷ 70 ∷ 70 ∷ [] }
    ∷ record { type = heic; offset = 4; magic = 102 ∷ 116 ∷ 121 ∷ 112 ∷ [] }
    ∷ []

skip : ℕ → Bytes → Bytes
skip zero bytes = bytes
skip (suc n) [] = []
skip (suc n) (b ∷ bytes) = skip n bytes

-- The bytes from `first` on, `n` of them at most.
unfoldable pub subarray : ℕ → ℕ → Bytes → Bytes
unfolding skip
subarray first n bytes = take n (skip first bytes)

unfoldable pub matches : Bytes → Signature → Bool
matches bytes signature =
    leb (signature.offset + length signature.magic) (length bytes)
    && text_eq (subarray signature.offset (length signature.magic) bytes) signature.magic

-- "heic", "heix", "hevc", "mif1" and "msf1". `toString("ascii")` drops the high bit of a byte.
unfoldable pub brand : Bytes → Text
brand bytes = map (λ b. b % 128) (subarray 8 4 bytes)

still_brands : List Text
still_brands = text "heic" ∷ text "heix" ∷ text "hevc" ∷ text "mif1" ∷ text "msf1" ∷ []

-- What the containers ask for besides their header.
unfoldable pub has_brand : ImageType → Bytes → Bool
unfolding still_brands
has_brand jpeg bytes = true
has_brand png bytes = true
has_brand webp bytes = leb 12 (length bytes) && text_eq (brand bytes) (text "WEBP")
has_brand heic bytes = exists (text_eq (brand bytes)) still_brands

-- The first signature that matches, with its brand.
detect_from : List Signature → Bytes → Option ImageType
detect_from [] bytes = none
detect_from (s ∷ more) bytes =
    let rest = detect_from more bytes in
    if matches bytes s && has_brand s.type bytes then some s.type else rest

unfoldable pub detect_image_type : Bytes → Option ImageType
unfolding detect_from
detect_image_type bytes = detect_from signatures bytes
