-- ===== src/Canonical/Signed.antt =====
-- What a signed string says of the payload that was captured.
use native.Mathlib.Nat.{div-eq_of_lt-le, div-mul-le_self, lt-div-mul-add}
use proofchain.Prelude.{ℕ, ◌+◌, ◌*◌, ◌/◌, ◌≤◌, ◌<◌, ◌≡◌, sym, ap, ◌∙◌, ◌↔◌, Bool, arith, ℤ}
use proofchain.Canonical.{WeighInPayload, canonical_in_grams}
use proofchain.Canonical.Captured.{
  CapturedPayload, Kilograms, canonical_event_payload, normalised, quantise, with_sign,
}
use proofchain.Canonical.Payload.{IsWellFormed, canonical_in_grams_injective, same_fields}

-- The grams that are nearest to the weight; of two that are as near, those away from zero.
abbrev pub IsNearest : Kilograms → ℕ → Type 0
IsNearest kg m =
    (m * (2 * kg.denominator) ≤ 2000 * kg.numerator + kg.denominator)
    × (2000 * kg.numerator + kg.denominator < (m + 1) * (2 * kg.denominator))

-- The weights round to the same number of grams.
abbrev pub RoundAlike : Kilograms → Kilograms → Type 0
RoundAlike a b =
    (m : ℕ) × (n : ℕ) × IsNearest a m
    × IsNearest b n
    × (with_sign a.negative m ≡ with_sign b.negative n)

abbrev pub SignedAlike : CapturedPayload → CapturedPayload → Type 0
SignedAlike p q =
    (p.schema ≡ q.schema)
    × (p.collector_id ≡ q.collector_id)
    × (p.hub_id ≡ q.hub_id)
    × (p.device_id ≡ q.device_id)
    × (p.material ≡ q.material)
    × (p.captured_at ≡ q.captured_at)
    × (p.photo_hash ≡ q.photo_hash)
    × (p.nonce ≡ q.nonce)
    × RoundAlike p.weight_kg q.weight_kg

abbrev rounded : Kilograms → ℕ
rounded kg = (2000 * kg.numerator + kg.denominator) / (2 * kg.denominator)

rounded-IsNearest : (kg : Kilograms) → 0 < kg.denominator → IsNearest kg (rounded kg)
rounded-IsNearest kg h =
    let above =
      lt-div-mul-add {a = 2000 * kg.numerator + kg.denominator} {b = 2 * kg.denominator}
        (omega arith) in
    (div-mul-le_self (2000 * kg.numerator + kg.denominator) (2 * kg.denominator), grind arith)

IsNearest-rounded : (kg : Kilograms) (m : ℕ) → IsNearest kg m → rounded kg ≡ m
IsNearest-rounded kg m (low, high) = div-eq_of_lt-le (2 * kg.denominator) low high

-- In whole grams nothing is rounded.
quantise-whole :
    (negative : Bool) (grams : ℕ)
    → quantise (record { negative = negative; numerator = grams; denominator = 1000 })
      ≡ with_sign negative grams
unfolding quantise
quantise-whole negative grams = ap (with_sign negative) (omega arith)

-- The string that the payloads of the backend are modelled with is the one of a payload in whole grams.
canonical_event_payload-whole :
    (p : CapturedPayload) (negative : Bool) (grams : ℕ)
    → p.weight_kg ≡ record { negative = negative; numerator = grams; denominator = 1000 }
    → canonical_event_payload p
      ≡ canonical_in_grams (record (normalised p) { weight = with_sign negative grams })
unfolding canonical_event_payload normalised
canonical_event_payload-whole p negative grams e =
    ap (λ (w : ℤ). canonical_in_grams (record (normalised p) { weight = w }))
      (ap quantise e ∙ quantise-whole negative grams)

-- Two payloads of UTF-16 strings, with weights that are numbers, have one signed string exactly when they
-- agree in every string field and the nearest number of grams is the same for both weights: noise below that
-- does not show, and any other change of a field does.
pub canonical_event_payload_iff :
    (p q : CapturedPayload)
    → IsWellFormed (normalised p)
    → IsWellFormed (normalised q)
    → 0 < p.weight_kg.denominator
    → 0 < q.weight_kg.denominator
    → (canonical_event_payload p ≡ canonical_event_payload q) ↔ SignedAlike p q
unfolding canonical_event_payload normalised quantise
canonical_event_payload_iff p q u v hp hq = (
  λ e.
      let same = canonical_in_grams_injective (normalised p) (normalised q) u v e in
      (
        ap (λ (r : WeighInPayload). r.schema) same,
        ap (λ (r : WeighInPayload). r.collector_id) same,
        ap (λ (r : WeighInPayload). r.hub_id) same,
        ap (λ (r : WeighInPayload). r.device_id) same,
        ap (λ (r : WeighInPayload). r.material) same,
        ap (λ (r : WeighInPayload). r.captured_at) same,
        ap (λ (r : WeighInPayload). r.photo_hash) same,
        ap (λ (r : WeighInPayload). r.nonce) same,
        (
          rounded p.weight_kg,
          rounded q.weight_kg,
          rounded-IsNearest p.weight_kg hp,
          rounded-IsNearest q.weight_kg hq,
          ap (λ (r : WeighInPayload). r.weight) same,
        ),
      ),
  λ (a, b, c, d, e, f, g, h, (m, n, near_p, near_q, grams)). ap canonical_in_grams (
      same_fields (normalised p) (normalised q) f b d c e h g a (
        ap (with_sign p.weight_kg.negative) (IsNearest-rounded p.weight_kg m near_p)
        ∙ grams
        ∙ ap (with_sign q.weight_kg.negative) (sym (IsNearest-rounded q.weight_kg n near_q)))),
)
