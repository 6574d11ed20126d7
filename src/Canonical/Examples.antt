-- ===== src/Canonical/Examples.antt =====
-- The canonical strings of a weigh-in.
use proofchain.Prelude.{text, ◌≡◌, refl, ◌↔◌, false, [], arith}
use proofchain.Canonical.{canonical_in_grams, json_string, json_weight}
use proofchain.Canonical.Signed.{SignedAlike, canonical_event_payload_iff}
use proofchain.Canonical.Captured.{CapturedPayload, canonical_event_payload, normalised, quantise}
use proofchain.Canonical.Payload.{IsWellFormed, every-AreUnits}

-- A weigh-in of 1.5 kg.
abbrev weighed : CapturedPayload
weighed = record {
  schema = text "proofchain.weighin.v2";
  collector_id = [];
  hub_id = text "h";
  device_id = [];
  weight_kg = record { negative = false; numerator = 3; denominator = 2 };
  material = text "PET";
  captured_at = [];
  photo_hash = [];
  nonce = text "n";
}

-- The same with 1.5000000001 kg.
abbrev jittered : CapturedPayload
jittered = record weighed {
  weight_kg = record { negative = false; numerator = 15000000001; denominator = 10000000000 };
}

weighed-IsWellFormed : IsWellFormed (normalised weighed)
unfolding normalised
weighed-IsWellFormed = record {
  schema_units = every-AreUnits weighed.schema refl;
  collector_units = tt;
  hub_units = every-AreUnits weighed.hub_id refl;
  device_units = tt;
  material_units = every-AreUnits weighed.material refl;
  captured_units = tt;
  photo_units = tt;
  nonce_units = every-AreUnits weighed.nonce refl;
}

jittered-IsWellFormed : IsWellFormed (normalised jittered)
unfolding normalised
jittered-IsWellFormed = record {
  schema_units = every-AreUnits weighed.schema refl;
  collector_units = tt;
  hub_units = every-AreUnits weighed.hub_id refl;
  device_units = tt;
  material_units = every-AreUnits weighed.material refl;
  captured_units = tt;
  photo_units = tt;
  nonce_units = every-AreUnits weighed.nonce refl;
}

canonical_event_payload_iff_example :
    (canonical_event_payload jittered ≡ canonical_event_payload weighed)
    ↔ SignedAlike jittered weighed
canonical_event_payload_iff_example =
    canonical_event_payload_iff jittered weighed jittered-IsWellFormed weighed-IsWellFormed
      (omega arith) (omega arith)

-- Noise below a gram does not show in the signed string.
noise_is_dropped : canonical_event_payload jittered ≡ canonical_event_payload weighed
unfolding canonical_event_payload normalised quantise
noise_is_dropped = refl

weighed_string :
    canonical_event_payload weighed
    ≡ text
        "{\"capturedAt\":\"\",\"collectorId\":\"\",\"deviceId\":\"\",\"hubId\":\"h\",\"material\":\"PET\",\"nonce\":\"n\",\"photoHash\":\"\",\"schema\":\"proofchain.weighin.v2\",\"weightKg\":1.5}"
unfolding canonical_event_payload normalised quantise canonical_in_grams json_string json_weight
weighed_string = refl
