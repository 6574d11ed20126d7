-- ===== src/Canonical/Captured.antt =====
-- packages/shared/src/canonical-core.ts: a payload with a weight as it was captured, and the rounding to
-- grams on the way to the signed string.
use proofchain.Prelude.{Text, ℕ, zero, suc, ◌+◌, ◌*◌, ◌/◌, Bool, true, false, ℤ, pos, negsuc}
use proofchain.Canonical.{WeighInPayload, canonical_in_grams}

-- A finite number: a double is one whose denominator is a power of two.
pub record Kilograms : Type 0 where
  pub negative : Bool
  pub numerator : ℕ
  pub denominator : ℕ

-- A payload as the source has it, with `weightKg` of any precision.
pub record CapturedPayload : Type 0 where
  pub schema : Text
  pub collector_id : Text
  pub hub_id : Text
  pub device_id : Text
  pub weight_kg : Kilograms
  pub material : Text
  pub captured_at : Text
  pub photo_hash : Text
  pub nonce : Text

-- Minus zero is zero, as `encode` has it.
abbrev pub with_sign : Bool → ℕ → ℤ
with_sign false m = pos m
with_sign true zero = pos 0
with_sign true (suc m) = negsuc m

-- `toFixed(3)`, in grams: the nearest integer, and of two that are as near the one away from zero.
-- A number that is not finite, which throws, is no `Kilograms`.
unfoldable pub quantise : Kilograms → ℤ
quantise kg = with_sign kg.negative ((2000 * kg.numerator + kg.denominator) / (2 * kg.denominator))

unfoldable pub normalised : CapturedPayload → WeighInPayload
normalised p = record {
  schema = p.schema;
  collector_id = p.collector_id;
  hub_id = p.hub_id;
  device_id = p.device_id;
  weight = quantise p.weight_kg;
  material = p.material;
  captured_at = p.captured_at;
  photo_hash = p.photo_hash;
  nonce = p.nonce;
}

unfoldable pub canonical_event_payload : CapturedPayload → Text
canonical_event_payload p = canonical_in_grams (normalised p)
