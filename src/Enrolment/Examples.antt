-- ===== src/Enrolment/Examples.antt =====
-- The theorem on the registry of devices: a key is revoked, and another is enrolled after it.
use proofchain.Prelude.{replicate, ok, text, text_eq, ◌≡◌, refl, true, none, some, [], ◌∷◌, pos}
use proofchain.Integrity.{DeviceEntity, evaluate_integrity, is_fail}
use proofchain.Events.{Registry, context_of}
use proofchain.Signing.{NodeCrypto}
use proofchain.Canonical.{WeighInPayload}
use proofchain.Enrolment.{
  EnrolDevice, enrol_device, new_device, revoke_device, revoke_found, save_device,
}
use proofchain.Enrolment.Revocation.{enrols, unchanged, revoke_device-quarantines, unchanged}

abbrev any_signature : NodeCrypto
any_signature = record { from_base64 = λ t. replicate 32 0; ed25519_verify = λ message key s. true }

abbrev lost_phone : DeviceEntity
lost_phone = record {
  id = text "d1";
  collector_id = text "c";
  public_key = text "k1";
  revoked_at = none;
}

abbrev one_phone : Registry
one_phone = record {
  devices = lost_phone ∷ [];
  collectors = record { id = text "c"; active = true } ∷ [];
  hubs = record { id = text "h"; min_weight = pos 100; max_weight = pos 10000000 } ∷ [];
}

abbrev revoked_phone : DeviceEntity
revoked_phone = record lost_phone { revoked_at = some 5 }

abbrev phone_revoked : Registry
phone_revoked = record one_phone { devices = revoked_phone ∷ [] }

abbrev second_key : EnrolDevice
second_key = record { collector_id = text "c"; public_key = text "k2" }

abbrev two_phones : Registry
two_phones = record one_phone { devices = revoked_phone ∷ new_device (text "d2") second_key ∷ [] }

revoked_at_five : revoke_device one_phone (text "d1") 5 ≡ ok (phone_revoked, revoked_phone)
unfolding revoke_device revoke_found save_device text_eq
revoked_at_five = refl

second_enrolled :
    enrol_device any_signature phone_revoked (text "d2") second_key
    ≡ ok (two_phones, new_device (text "d2") second_key)
unfolding enrol_device new_device text_eq
second_enrolled = refl

abbrev from_lost_phone : WeighInPayload
from_lost_phone = record {
  schema = text "proofchain.weighin.v2";
  collector_id = text "c";
  hub_id = text "h";
  device_id = text "d1";
  weight = pos 1500;
  material = text "PET";
  captured_at = [];
  photo_hash = replicate 64 48;
  nonce = [];
}

revoke_device-quarantines_example :
    is_fail
      (evaluate_integrity any_signature
        (λ s. some (pos 7))
        from_lost_phone
        (text "s")
        (context_of two_phones from_lost_phone none 8 300)).outcome
    ≡ true
revoke_device-quarantines_example =
    revoke_device-quarantines any_signature (λ s. some (pos 7)) one_phone phone_revoked two_phones
      (text "d1") 5 revoked_phone from_lost_phone (text "s") none 8 300 revoked_at_five
      (enrols phone_revoked two_phones (text "d2") second_key (new_device (text "d2") second_key)
        unchanged second_enrolled)
      refl
