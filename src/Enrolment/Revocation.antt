-- ===== src/Enrolment/Revocation.antt =====
-- A device that is revoked stays revoked, and what it signs is quarantined.
use proofchain.Prelude.{
  if◌then◌else◌, Bool-cases, Option-cases, is_none, find, first_some, find-append, find-holds,
  ok_injective, ok, Text, text_eq_iff, text_eq, ℕ, ◌≡◌, refl, sym, ap, subst, ◌∙◌, inl, inr, Bool,
  true, false, not, Option, none, some, List, [], ◌∷◌, ◌++◌, arith, ℤ,
}
use proofchain.Integrity.{DeviceEntity, evaluate_integrity, is_fail}
use proofchain.Events.{Registry, context_of}
use proofchain.Signing.{NodeCrypto}
use proofchain.Enrolment.{
  EnrolDevice, device_with, enrol_device, revoke_device, revoke_found, save_device, collector_with,
  new_device,
}
use proofchain.Database.{before, CollectionEventEntity}
use proofchain.Canonical.{WeighInPayload}
use proofchain.Integrity.Rules.{evaluate_integrity_iff}

-- Enrolments, revocations, and changes of collectors and hubs, which touch no device.
pub data RegistryReach (crypto : NodeCrypto) (start : Registry) : Registry → Type 0 where
  unchanged : RegistryReach crypto start start
  enrols :
      (r r' : Registry) (new_id : Text) (dto : EnrolDevice) (d : DeviceEntity)
      → RegistryReach crypto start r
      → enrol_device crypto r new_id dto ≡ ok (r', d)
      → RegistryReach crypto start r'
  revokes :
      (r r' : Registry) (id : Text) (now : ℕ) (d : DeviceEntity)
      → RegistryReach crypto start r
      → revoke_device r id now ≡ ok (r', d)
      → RegistryReach crypto start r'
  other_rows :
      (r r' : Registry)
      → RegistryReach crypto start r
      → r'.devices ≡ r.devices
      → RegistryReach crypto start r'

abbrev is_revoked : Option DeviceEntity → Bool
is_revoked none = false
is_revoked (some d) = not (is_none d.revoked_at)

-- The device that the id finds is there, and revoked.
abbrev pub IsRevoked : Registry → Text → Type 0
IsRevoked r id = is_revoked (find (device_with id) r.devices) ≡ true

find-save_device :
    (d : DeviceEntity) (id : Text) (ds : List DeviceEntity)
    → find (device_with id) (save_device d ds) ≡ (
        if text_eq d.id id
        then (if is_none (find (device_with id) ds) then none else some d)
        else find (device_with id) ds)
unfolding save_device
find-save_device d id [] = ground arith
find-save_device d id (x ∷ ds) = ground (
  arith,
  text_eq_iff x.id d.id,
  text_eq_iff x.id id,
  text_eq_iff d.id id,
  find-save_device d id ds,
)

enrol_device-devices :
    (crypto : NodeCrypto) (r r' : Registry) (new_id : Text) (dto : EnrolDevice) (d : DeviceEntity)
    → enrol_device crypto r new_id dto ≡ ok (r', d)
    → r'.devices ≡ r.devices ++ new_device new_id dto ∷ []
unfolding enrol_device
enrol_device-devices crypto r r' new_id dto d h =
    elim (Option-cases (find (collector_with dto.collector_id) r.collectors)) [
      | inl missing ↦ absurd (ground arith)
      | inr (collector, known) ↦ ground arith
    ]

is_revoked-first_some :
    (o o' : Option DeviceEntity) → is_revoked o ≡ true → is_revoked (first_some o o') ≡ true
is_revoked-first_some none o' h = cc
is_revoked-first_some (some d) o' h = h

enrol_device-IsRevoked :
    (crypto : NodeCrypto) (r r' : Registry) (new_id : Text) (dto : EnrolDevice) (d : DeviceEntity)
    (id : Text)
    → enrol_device crypto r new_id dto ≡ ok (r', d)
    → IsRevoked r id
    → IsRevoked r' id
enrol_device-IsRevoked crypto r r' new_id dto d id h k =
    ap (λ ds. is_revoked (find (device_with id) ds))
      (enrol_device-devices crypto r r' new_id dto d h)
    ∙ ap is_revoked (find-append (device_with id) r.devices (new_device new_id dto ∷ []))
    ∙ is_revoked-first_some (find (device_with id) r.devices) _ k

save_device-IsRevoked :
    (x : DeviceEntity) (id : Text) (ds : List DeviceEntity)
    → is_none x.revoked_at ≡ false
    → is_revoked (find (device_with id) ds) ≡ true
    → is_revoked (find (device_with id) (save_device x ds)) ≡ true
save_device-IsRevoked x id ds gone k = ap is_revoked (find-save_device x id ds) ∙ ground arith

save_device-own :
    (x : DeviceEntity) (id : Text) (ds : List DeviceEntity) (d : DeviceEntity)
    → is_none x.revoked_at ≡ false
    → text_eq x.id id ≡ true
    → find (device_with id) ds ≡ some d
    → is_revoked (find (device_with id) (save_device x ds)) ≡ true
save_device-own x id ds d gone own found =
    ap is_revoked (find-save_device x id ds) ∙ rw (own, found) (ground arith)

revoke_found-IsRevoked :
    (r : Registry) (id : Text) (now : ℕ) (d : DeviceEntity) (o : Option ℕ)
    → IsRevoked r id
    → IsRevoked (revoke_found r now d o).0 id
unfolding revoke_found
revoke_found-IsRevoked r id now d (some t) k = k
revoke_found-IsRevoked r id now d none k =
    save_device-IsRevoked (record d { revoked_at = some now }) id r.devices refl k

revoke_found-own :
    (r : Registry) (id : Text) (now : ℕ) (d : DeviceEntity)
    → find (device_with id) r.devices ≡ some d
    → IsRevoked (revoke_found r now d d.revoked_at).0 id
unfolding revoke_found
revoke_found-own r id now d found = elim (Option-cases d.revoked_at) [
  | inl active ↦ simp active (
      save_device-own (record d { revoked_at = some now }) id r.devices d refl
        (find-holds (device_with id) r.devices d found) found)
  | inr (t, gone) ↦ simp gone (rw (found, gone) refl)
]

revoke_device_effect :
    (r r' : Registry) (id : Text) (now : ℕ) (d : DeviceEntity)
    → revoke_device r id now ≡ ok (r', d)
    → (x : DeviceEntity) × (find (device_with id) r.devices ≡ some x)
      × (r' ≡ (revoke_found r now x x.revoked_at).0)
unfolding revoke_device
revoke_device_effect r r' id now d h = elim (Option-cases (find (device_with id) r.devices)) [
  | inl missing ↦ absurd (ground arith)
  | inr (x, found) ↦
      (x, found, sym (ap (λ (p : Registry × DeviceEntity). p.0) (ok_injective (rw found at h))))
]

RegistryReach-IsRevoked :
    (crypto : NodeCrypto) (start r : Registry) (id : Text)
    → RegistryReach crypto start r
    → IsRevoked start id
    → IsRevoked r id
RegistryReach-IsRevoked crypto start r id unchanged k = k
RegistryReach-IsRevoked crypto start r id (enrols before _ new_id dto d reach h) k =
    enrol_device-IsRevoked crypto before r new_id dto d id h
      (RegistryReach-IsRevoked crypto start before id reach k)
RegistryReach-IsRevoked crypto start r id (revokes before _ other now d reach h) k =
    let (x, found, after) = revoke_device_effect before r other now d h in
    subst (λ q. IsRevoked q id) (sym after)
      (revoke_found-IsRevoked before id now x x.revoked_at
        (RegistryReach-IsRevoked crypto start before id reach k))
RegistryReach-IsRevoked crypto start r id (other_rows before _ reach same) k =
    ap (λ ds. is_revoked (find (device_with id) ds)) same
    ∙ RegistryReach-IsRevoked crypto start before id reach k

-- Once a device is revoked, whatever is enrolled, revoked or changed afterwards, a weigh-in in its
-- name that arrives fails the integrity checks, with whatever signature, also where it was captured and
-- signed before the revocation: the check reads no instant of the payload.
pub revoke_device-quarantines :
    (crypto : NodeCrypto) (parse_date : Text → Option ℤ) (before after later : Registry) (id : Text)
    (now : ℕ) (d : DeviceEntity) (payload : WeighInPayload) (signature : Text)
    (existing : Option CollectionEventEntity) (at skew : ℕ)
    → revoke_device before id now ≡ ok (after, d)
    → RegistryReach crypto after later
    → payload.device_id ≡ id
    → is_fail
        (evaluate_integrity crypto parse_date payload signature
          (context_of later payload existing at skew)).outcome
      ≡ true
unfolding context_of
revoke_device-quarantines crypto parse_date before after later id now d payload signature existing
      at skew h reach own =
    let ctx = context_of later payload existing at skew in
    elim (Bool-cases
      (is_fail (evaluate_integrity crypto parse_date payload signature ctx).outcome)) [
        | inl fails ↦ fails
        | inr passes ↦
            let (x, found, effect) = revoke_device_effect before after id now d h in
            let first_revoked =
              subst (λ q. IsRevoked q id) (sym effect) (revoke_found-own before id now x found) in
            let still = RegistryReach-IsRevoked crypto after later id reach first_revoked in
            let signed =
              ((evaluate_integrity_iff crypto parse_date payload signature ctx).0 passes).0 in
            let seen : find (device_with id) later.devices ≡ some signed.device =
              ap (λ i. find (device_with i) later.devices) (sym own) ∙ signed.known in
            absurd (ground (arith, signed.not_revoked))
      ]
