-- ===== src/Integrity/Rules.antt =====
-- The verdict as a condition on the weigh-in.
use proofchain.Prelude.{
  Bool-cases, Option-cases, exists, Text, text_eq_iff, ◌+◌, ◌*◌, ◌≡◌, refl, sym, ◌∙◌, ◌↔◌, inl, inr,
  true, false, Option, none, some, List, arith, ℤ, pos, ◌≤ℤ◌,
}
use proofchain.Canonical.{WeighInPayload}
use proofchain.Signing.{NodeCrypto, verify_weigh_in_signature}
use proofchain.Integrity.{
  CollectorEntity, DeviceEntity, HubEntity, IntegrityContext, check_device_enrolled,
  check_signature, enrolled, is_fail, check_clock, check_weight_range, IntegrityFinding,
  evaluate_integrity, is_warn, overall, check_duplicate, check_photo, clock,
}
use proofchain.Hashing.Hex.{is_hash_hex}

module _ (crypto : NodeCrypto) (parse_date : Text → Option ℤ) (payload : WeighInPayload)
    (signature : Text) (ctx : IntegrityContext) where
  -- The device is enrolled to the collector, not revoked, and it signed; the collector is active.
  pub record BySignedDevice : Type 0 where
    pub device : DeviceEntity
    pub known : ctx.device ≡ some device
    pub not_revoked : device.revoked_at ≡ none
    pub same_collector : device.collector_id ≡ payload.collector_id
    pub collector : CollectorEntity
    pub collector_known : ctx.collector ≡ some collector
    pub active : collector.active ≡ true
    pub signed : verify_weigh_in_signature crypto payload signature device.public_key ≡ true

  pub record InBounds : Type 0 where
    pub hub : HubEntity
    pub known : ctx.hub ≡ some hub
    pub positive : pos 1 ≤ℤ payload.weight
    pub not_below : hub.min_weight ≤ℤ payload.weight
    pub not_above : payload.weight ≤ℤ hub.max_weight

  pub record NotAhead : Type 0 where
    pub captured : ℤ
    pub is_date : parse_date payload.captured_at ≡ some captured
    pub not_ahead : captured ≤ℤ pos (ctx.now + ctx.max_clock_skew_seconds * 1000)

  by_signed_device :
      is_fail (check_device_enrolled payload ctx) ≡ false
      → is_fail (check_signature crypto payload signature ctx) ≡ false
      → BySignedDevice
  unfolding check_device_enrolled check_signature
  by_signed_device enrolled signed = elim (Option-cases ctx.device) [
    | inl none_there ↦ absurd (ground arith)
    | inr (d, known) ↦ elim (Option-cases ctx.collector) [
      | inl nobody ↦ absurd (ground arith)
      | inr (c, c_known) ↦ elim (Option-cases d.revoked_at) [
        | inl kept ↦ record {
          device = d;
          known = known;
          not_revoked = kept;
          same_collector = (text_eq_iff d.collector_id payload.collector_id).0 (ground arith);
          collector = c;
          collector_known = c_known;
          active = ground arith;
          signed = ground arith;
        }
        | inr (t, gone) ↦ absurd (ground arith)
      ]
    ]
  ]

  device_passes : BySignedDevice → is_fail (check_device_enrolled payload ctx) ≡ false
  unfolding check_device_enrolled
  device_passes b =
      rw (b.known, b.not_revoked, (text_eq_iff _ _).1 b.same_collector, b.collector_known, b.active)
        refl

  signature_passes : BySignedDevice → is_fail (check_signature crypto payload signature ctx) ≡ false
  unfolding check_signature
  signature_passes b = rw (b.known, b.signed) refl

  in_bounds : is_fail (check_weight_range payload ctx) ≡ false → InBounds
  unfolding check_weight_range
  in_bounds h = elim (Option-cases ctx.hub) [
    | inl none_there ↦ absurd (ground arith)
    | inr (hub, known) ↦ record {
      hub = hub;
      known = known;
      positive = ground arith;
      not_below = ground arith;
      not_above = ground arith;
    }
  ]

  weight_passes : InBounds → is_fail (check_weight_range payload ctx) ≡ false
  unfolding check_weight_range
  weight_passes b =
      let known = b.known in
      let positive = b.positive in let low = b.not_below in let high = b.not_above in ground arith

  not_ahead : is_fail (check_clock crypto parse_date payload ctx) ≡ false → NotAhead
  unfolding check_clock
  not_ahead h = elim (Option-cases (parse_date payload.captured_at)) [
    | inl none_there ↦ absurd (ground arith)
    | inr (t, e) ↦ record { captured = t; is_date = e; not_ahead = ground arith }
  ]

  clock_passes : NotAhead → is_fail (check_clock crypto parse_date payload ctx) ≡ false
  unfolding check_clock
  clock_passes b = let date = b.is_date in let bound = b.not_ahead in ground arith

  clean_outcome :
      (fs : List IntegrityFinding) → is_fail (overall fs) ≡ exists (λ f. is_fail f.outcome) fs
  unfolding overall
  clean_outcome fs = elim (Bool-cases (exists (λ f. is_fail f.outcome) fs)) [
    | inl some_fail ↦ rw some_fail refl
    | inr no_fail ↦ elim (Bool-cases (exists (λ f. is_warn f.outcome) fs)) [
      | inl some_warn ↦ rw (no_fail, some_warn) refl
      | inr no_warn ↦ rw (no_fail, no_warn) refl
    ]
  ]

  abbrev NoFail : Type 0
  NoFail =
      (is_fail (check_device_enrolled payload ctx) ≡ false)
      × (is_fail (check_signature crypto payload signature ctx) ≡ false)
      × (is_fail (check_weight_range payload ctx) ≡ false)
      × (is_fail (check_duplicate ctx) ≡ false)
      × (is_fail (check_clock crypto parse_date payload ctx) ≡ false)
      × (is_fail (check_photo payload) ≡ false)

  no_fail_iff :
      (is_fail (evaluate_integrity crypto parse_date payload signature ctx).outcome ≡ false)
      ↔ NoFail
  unfolding evaluate_integrity
  no_fail_iff = (
    λ clean.
        let flat = sym (clean_outcome _) ∙ clean in
        (ground arith, ground arith, ground arith, ground arith, ground arith, ground arith),
    λ (device, signed, weight, fresh, clock, photo).
        clean_outcome _ ∙ rw (device, signed, weight, fresh, clock, photo) refl,
  )

  -- The photo's hash is a hash, and this payload is not stored yet.
  abbrev pub IsFresh : Type 0
  IsFresh = (ctx.is_duplicate ≡ false) × (is_hash_hex payload.photo_hash ≡ true)

  -- A weigh-in is not quarantined exactly when an enrolled device that is not revoked signed it for
  -- its own, active collector, its weight is positive and within the hub's bounds, it is dated no
  -- further ahead of the server's clock than the tolerance, its photo hash is a SHA-256 digest, and
  -- it is not a duplicate.
  pub evaluate_integrity_iff :
      (is_fail (evaluate_integrity crypto parse_date payload signature ctx).outcome ≡ false)
      ↔ (BySignedDevice × InBounds × NotAhead × IsFresh)
  unfolding check_duplicate check_photo
  evaluate_integrity_iff = (
    λ clean.
        let (device, signed, weight, fresh, clock, photo) = no_fail_iff.0 clean in
        (
          by_signed_device device signed,
          in_bounds weight,
          not_ahead clock,
          (ground arith, ground arith),
        ),
    λ (device, weight, clock, (fresh, photo)). no_fail_iff.1 (
      device_passes device,
      signature_passes device,
      weight_passes weight,
      ground arith,
      clock_passes clock,
      ground arith,
    ),
  )
