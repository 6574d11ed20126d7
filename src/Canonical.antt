-- ===== src/Canonical.antt =====
-- packages/shared/src/canonical-core.ts and canonical.ts: the string that a device signs, and its
-- hash. The field set is fixed, so that the sorted keys are written out. A weight here is in grams, as
-- `quantise` leaves it and as the backend's DTO asks for it (`maxDecimalPlaces: 3`); Canonical/Captured has
-- the payload with any weight. Below 10^21 kg the source prints it without an exponent.
mod Scan
mod Weight
pub mod Payload
pub mod Captured
pub mod Signed
mod Examples
use proofchain.Prelude.{
  ltb, leb, ◌==◌, if◌then◌else◌, Text, text, ℕ, zero, suc, ◌+◌, ◌/◌, ◌%◌, Bool, false, not, ◌&&◌,
  ◌||◌, [], ◌∷◌, ◌++◌, ℤ, pos, negsuc,
}
use proofchain.Hashing.{Sha256}
use proofchain.Hashing.Utf8.{utf8}

pub record WeighInPayload : Type 0 where
  pub schema : Text
  pub collector_id : Text
  pub hub_id : Text
  pub device_id : Text
  pub weight : ℤ
  pub material : Text
  pub captured_at : Text
  pub photo_hash : Text
  pub nonce : Text

hex_unit : ℕ → ℕ
hex_unit n = if ltb n 10 then 48 + n else 87 + n

-- `\uXXXX`
unfoldable pub unicode_escape : ℕ → Text
unfolding hex_unit
unicode_escape c =
    text "\\u"
    ++ hex_unit (c / 4096)
      ∷ hex_unit (c / 256 % 16)
      ∷ hex_unit (c / 16 % 16)
      ∷ hex_unit (c % 16)
      ∷ []

is_high : ℕ → Bool
is_high c = leb 55296 c && ltb c 56320

is_low : ℕ → Bool
is_low c = leb 56320 c && ltb c 57344

starts_low : Text → Bool
unfolding is_low
starts_low [] = false
starts_low (c ∷ s) = is_low c

-- The escapes of JSON.stringify; a surrogate without its partner is escaped too.
escape_unit : ℕ → Text
unfolding is_high is_low
escape_unit c =
    if c == 34
    then 92 ∷ 34 ∷ []
    else if c == 92
    then 92 ∷ 92 ∷ []
    else if c == 8
    then text "\\b"
    else if c == 12
    then text "\\f"
    else if c == 10
    then text "\\n"
    else if c == 13
    then text "\\r"
    else if c == 9
    then text "\\t"
    else if ltb c 32 || (is_high c || is_low c)
    then unicode_escape c
    else c ∷ []

-- `paired`: the unit is the second half of a surrogate pair.
json_units : Bool → Text → Text
unfolding escape_unit is_high starts_low
json_units paired [] = []
json_units paired (c ∷ s) =
    let opens = not paired && (is_high c && starts_low s) in
    (if paired || opens then c ∷ [] else escape_unit c) ++ json_units opens s

unfoldable pub json_string : Text → Text
unfolding json_units
json_string s = 34 ∷ json_units false s ++ 34 ∷ []

-- The decimal digits of a number, in front of `acc`.
digits : ℕ → ℕ → Text → Text
digits zero n acc = acc
digits (suc fuel) n acc =
    let more = digits fuel (n / 10) ((48 + n % 10) ∷ acc) in
    if ltb n 10 then (48 + n) ∷ acc else more

-- The three decimals of `m` thousandths, less the zeros at the end.
decimals : ℕ → Text
decimals m =
    if m == 0
    then []
    else if m % 100 == 0
    then 46 ∷ (48 + m / 100) ∷ []
    else if m % 10 == 0
    then 46 ∷ (48 + m / 100) ∷ (48 + m / 10 % 10) ∷ []
    else 46 ∷ (48 + m / 100) ∷ (48 + m / 10 % 10) ∷ (48 + m % 10) ∷ []

kilograms : ℕ → Text
unfolding digits decimals
kilograms grams = digits (grams / 1000 + 1) (grams / 1000) [] ++ decimals (grams % 1000)

unfoldable pub json_weight : ℤ → Text
unfolding kilograms
json_weight (pos grams) = kilograms grams
json_weight (negsuc n) = 45 ∷ kilograms (n + 1)

-- `"key":"value"`, and the comma after it.
entry : Text → Text → Text
unfolding json_string
entry key value = json_string key ++ 58 ∷ json_string value ++ 44 ∷ []

-- `canonicalEventPayload` where the weight is whole grams.
unfoldable pub canonical_in_grams : WeighInPayload → Text
unfolding entry json_weight
canonical_in_grams p =
    123 ∷ entry (text "capturedAt") p.captured_at
    ++ entry (text "collectorId") p.collector_id
    ++ entry (text "deviceId") p.device_id
    ++ entry (text "hubId") p.hub_id
    ++ entry (text "material") p.material
    ++ entry (text "nonce") p.nonce
    ++ entry (text "photoHash") p.photo_hash
    ++ entry (text "schema") p.schema
    ++ json_string (text "weightKg")
    ++ 58 ∷ json_weight p.weight
    ++ 125 ∷ []

unfoldable pub event_payload_hash : Sha256 → WeighInPayload → Text
event_payload_hash sha p = sha.hex (utf8 (canonical_in_grams p))
