-- ===== src/Enrolment.antt =====
-- apps/backend/src/collectors/registry.service.ts: the enrolment of a device's key and its
-- revocation.
pub mod Revocation
mod Examples
use proofchain.Prelude.{
  ◌==◌, if◌then◌else◌, length, exists, find, throw_if, or_throw, ok, Text, text_eq, ℕ, Bool, not,
  Option, none, some, List, [], ◌∷◌, ◌++◌, map, ◌>>=◌, ◌>>◌,
}
use proofchain.Errors.{
  Outcome, conflict, not_found, collector_missing, device_missing, invalid_public_key, key_enrolled,
}
use proofchain.Integrity.{CollectorEntity, DeviceEntity}
use proofchain.Events.{Registry}
use proofchain.Signing.{NodeCrypto}

-- The label of a device is left out, here and in its row.
pub record EnrolDevice : Type 0 where
  pub collector_id : Text
  pub public_key : Text

abbrev pub device_with : Text → DeviceEntity → Bool
device_with id d = text_eq d.id id

abbrev collector_with : Text → CollectorEntity → Bool
collector_with id c = text_eq c.id id

unfoldable pub new_device : Text → EnrolDevice → DeviceEntity
new_device new_id dto = record {
  id = new_id;
  collector_id = dto.collector_id;
  public_key = dto.public_key;
  revoked_at = none;
}

-- The length of the decoded key is the test that a raw ed25519 key has to pass.
unfoldable pub enrol_device :
    NodeCrypto → Registry → Text → EnrolDevice → Outcome (Registry × DeviceEntity)
enrol_device crypto registry new_id dto = do
  collector ←
      or_throw (find (collector_with dto.collector_id) registry.collectors)
        (not_found collector_missing)
  throw_if (not (length (crypto.from_base64 dto.public_key) == 32)) (conflict invalid_public_key)
  throw_if (exists (λ d. text_eq d.public_key dto.public_key) registry.devices)
      (conflict key_enrolled)
  ok (
    record registry { devices = registry.devices ++ new_device new_id dto ∷ [] },
    new_device new_id dto,
  )

unfoldable pub save_device : DeviceEntity → List DeviceEntity → List DeviceEntity
save_device d devices = map (λ x. if device_with d.id x then d else x) devices

-- A device that is revoked already stays as it is.
unfoldable pub revoke_found : Registry → ℕ → DeviceEntity → Option ℕ → Registry × DeviceEntity
revoke_found registry now d (some earlier) = (registry, d)
revoke_found registry now d none =
    let revoked = record d { revoked_at = some now } in
    (record registry { devices = save_device revoked registry.devices }, revoked)

unfoldable pub revoke_device : Registry → Text → ℕ → Outcome (Registry × DeviceEntity)
revoke_device registry id now = do
  device ← or_throw (find (device_with id) registry.devices) (not_found device_missing)
  ok (revoke_found registry now device device.revoked_at)
