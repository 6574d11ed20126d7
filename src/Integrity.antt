-- ===== src/Integrity.antt =====
-- apps/backend/src/events/integrity.ts: the checks that every weigh-in passes at ingest. The detail
-- texts of the findings are left out.
pub mod Rules
use proofchain.Prelude.{
  if◌then◌else◌, is_none, exists, Text, text_eq, ℕ, ◌+◌, ◌*◌, Bool, true, false, not, Option, none,
  some, List, [], ◌∷◌, ℤ, pos, ltb_ℤ, ◌+ℤ◌,
}
use proofchain.Canonical.{WeighInPayload}
use proofchain.Signing.{NodeCrypto, verify_weigh_in_signature}
use proofchain.Database.{IntegrityOutcome, fail, pass, warn}
use proofchain.Hashing.Hex.{is_hash_hex}

pub data IntegrityCheck : Type 0 where
  device_enrolled signature_valid weight_in_range : IntegrityCheck
  not_duplicate clock_plausible photo_present : IntegrityCheck

pub record IntegrityFinding : Type 0 where
  pub check : IntegrityCheck
  pub outcome : IntegrityOutcome

pub record IntegrityVerdict : Type 0 where
  pub outcome : IntegrityOutcome
  pub findings : List IntegrityFinding

pub record DeviceEntity : Type 0 where
  pub id : Text
  pub collector_id : Text
  pub public_key : Text
  pub revoked_at : Option ℕ

pub record CollectorEntity : Type 0 where
  pub id : Text
  pub active : Bool

pub record HubEntity : Type 0 where
  pub id : Text
  pub min_weight : ℤ
  pub max_weight : ℤ

-- `now` is in milliseconds, the tolerance in seconds.
pub record IntegrityContext : Type 0 where
  pub device : Option DeviceEntity
  pub collector : Option CollectorEntity
  pub hub : Option HubEntity
  pub is_duplicate : Bool
  pub now : ℕ
  pub max_clock_skew_seconds : ℕ

abbrev pub is_fail : IntegrityOutcome → Bool
is_fail fail = true
is_fail pass = false
is_fail warn = false

abbrev pub is_warn : IntegrityOutcome → Bool
is_warn warn = true
is_warn pass = false
is_warn fail = false

is_active : Option CollectorEntity → Bool
is_active none = false
is_active (some c) = c.active

enrolled : WeighInPayload → IntegrityContext → DeviceEntity → IntegrityOutcome
unfolding is_active
enrolled payload ctx device =
    if not (is_none device.revoked_at)
    then fail
    else if not (text_eq device.collector_id payload.collector_id)
    then fail
    else if not (is_active ctx.collector)
    then fail
    else pass

unfoldable pub check_device_enrolled : WeighInPayload → IntegrityContext → IntegrityOutcome
unfolding enrolled
check_device_enrolled payload ctx = elim ctx.device [
  | none ↦ fail
  | some device ↦ enrolled payload ctx device
]

unfoldable pub check_signature :
    NodeCrypto → WeighInPayload → Text → IntegrityContext → IntegrityOutcome
check_signature crypto payload signature ctx = elim ctx.device [
  | none ↦ fail
  | some device ↦
      if verify_weigh_in_signature crypto payload signature device.public_key then pass else fail
]

within : ℤ → HubEntity → IntegrityOutcome
within weight hub =
    if ltb_ℤ weight hub.min_weight then fail else if ltb_ℤ hub.max_weight weight then fail else pass

at_hub : ℤ → Option HubEntity → IntegrityOutcome
unfolding within
at_hub weight none = fail
at_hub weight (some hub) = within weight hub

unfoldable pub check_weight_range : WeighInPayload → IntegrityContext → IntegrityOutcome
unfolding at_hub
check_weight_range payload ctx =
    if not (ltb_ℤ (pos 0) payload.weight) then fail else at_hub payload.weight ctx.hub

unfoldable pub check_duplicate : IntegrityContext → IntegrityOutcome
check_duplicate ctx = if ctx.is_duplicate then fail else pass

-- More than the tolerance ahead of the server fails, more than it behind warns.
clock : IntegrityContext → ℤ → IntegrityOutcome
clock ctx captured =
    let skew = ctx.max_clock_skew_seconds * 1000 in
    if ltb_ℤ (pos (ctx.now + skew)) captured
    then fail
    else if ltb_ℤ (captured +ℤ pos skew) (pos ctx.now)
    then warn
    else pass

unfoldable pub check_photo : WeighInPayload → IntegrityOutcome
check_photo payload = if is_hash_hex payload.photo_hash then pass else fail

abbrev finding : IntegrityCheck → IntegrityOutcome → IntegrityFinding
finding check outcome = record { check = check; outcome = outcome }

unfoldable pub overall : List IntegrityFinding → IntegrityOutcome
overall findings =
    if exists (λ f. is_fail f.outcome) findings
    then fail
    else if exists (λ f. is_warn f.outcome) findings
    then warn
    else pass

-- `parse_date` is the instant of `new Date(s)`, if it is valid.
module _ (crypto : NodeCrypto) (parse_date : Text → Option ℤ) where
  unfoldable pub check_clock : WeighInPayload → IntegrityContext → IntegrityOutcome
  unfolding clock
  check_clock payload ctx = elim (parse_date payload.captured_at) [
    | none ↦ fail
    | some captured ↦ clock ctx captured
  ]

  unfoldable pub evaluate_integrity : WeighInPayload → Text → IntegrityContext → IntegrityVerdict
  evaluate_integrity payload signature ctx =
      let findings =
        finding device_enrolled (check_device_enrolled payload ctx)
        ∷ finding signature_valid (check_signature crypto payload signature ctx)
        ∷ finding weight_in_range (check_weight_range payload ctx)
        ∷ finding not_duplicate (check_duplicate ctx)
        ∷ finding clock_plausible (check_clock payload ctx)
        ∷ finding photo_present (check_photo payload)
        ∷ [] in
      record { outcome = overall findings; findings = findings }
