-- ===== src/Canonical/Weight.antt =====
-- The printed weight determines the weight.
use proofchain.Prelude.{
  ltb, leb, ◌==◌, Bool-cases, every, Text, ℕ, zero, suc, ◌+◌, ◌-◌, ◌*◌, ◌/◌, ◌%◌, ◌<◌, ◌≡◌, refl,
  sym, ap, ◌∙◌, inl, inr, Bool, true, false, ◌&&◌, [], ◌∷◌, ◌++◌, append_assoc, arith, ℤ, pos,
  negsuc,
}
use proofchain.Canonical.{decimals, digits, json_weight, kilograms}

-- The number that a run of digits stands for, behind the digits of `n`.
value : ℕ → Text → ℕ
value n [] = n
value n (c ∷ s) = value (n * 10 + (c - 48)) s

value-digits : (fuel n : ℕ) (acc : Text) → n < fuel → value 0 (digits fuel n acc) ≡ value n acc
unfolding digits value
value-digits zero n acc h = absurd (omega arith)
value-digits (suc fuel) n acc h = ground (arith, value-digits fuel (n / 10) ((48 + n % 10) ∷ acc))

is_digit : ℕ → Bool
is_digit c = leb 48 c && leb c 57

every-digits :
    (fuel n : ℕ) (acc : Text)
    → every is_digit acc ≡ true
    → every is_digit (digits fuel n acc) ≡ true
unfolding digits is_digit
every-digits zero n acc h = h
every-digits (suc fuel) n acc h = ground (arith, every-digits fuel (n / 10) ((48 + n % 10) ∷ acc))

-- What follows the digits.
abbrev Ended : Text → Type 0
Ended [] = Unit
Ended (c ∷ s) = is_digit c ≡ false

digits_split :
    (a b r s : Text)
    → every is_digit a ≡ true
    → every is_digit b ≡ true
    → Ended r
    → Ended s
    → a ++ r ≡ b ++ s
    → (a ≡ b) × (r ≡ s)
digits_split [] [] r s ha hb er es e = (refl, e)
digits_split [] (c ∷ b) [] s ha hb er es e = cc
digits_split [] (c ∷ b) (d ∷ r) s ha hb er es e = absurd (ground arith)
digits_split (c ∷ a) [] r [] ha hb er es e = cc
digits_split (c ∷ a) [] r (d ∷ s) ha hb er es e = absurd (ground arith)
digits_split (c ∷ a) (d ∷ b) r s ha hb er es e =
    let more = digits_split a b r s (ground arith) (ground arith) er es (cc) in
    (cc (more.0), more.1)

decimals_injective :
    (m n : ℕ) → m < 1000 → n < 1000 → decimals m ++ 125 ∷ [] ≡ decimals n ++ 125 ∷ [] → m ≡ n
unfolding decimals
decimals_injective m n h k e = ground arith

decimals-Ended : (m : ℕ) → Ended (decimals m ++ 125 ∷ [])
unfolding decimals is_digit
decimals-Ended m = elim (Bool-cases (m == 0)) [
  | inl none_left ↦ rw none_left refl
  | inr some_left ↦ elim (Bool-cases (m % 100 == 0)) [
    | inl tenths ↦ rw (some_left, tenths) refl
    | inr finer ↦ elim (Bool-cases (m % 10 == 0)) [
      | inl hundredths ↦ rw (some_left, finer, hundredths) refl
      | inr finest ↦ rw (some_left, finer, finest) refl
    ]
  ]
]

digits-cons :
    (fuel n : ℕ) (acc : Text) → n < fuel → (c : ℕ) × (s : Text) × (digits fuel n acc ≡ c ∷ s)
unfolding digits
digits-cons zero n acc h = absurd (omega arith)
digits-cons (suc fuel) n acc h = elim (Bool-cases (ltb n 10)) [
  | inl one ↦ (48 + n, acc, rw one refl)
  | inr more ↦
      let rest = digits-cons fuel (n / 10) ((48 + n % 10) ∷ acc) (ground arith) in
      (rest.0, rest.1, rw more rest.2)
]

kilograms_injective : (a b : ℕ) → kilograms a ++ 125 ∷ [] ≡ kilograms b ++ 125 ∷ [] → a ≡ b
unfolding kilograms value
kilograms_injective a b e =
    let split =
      digits_split (digits (a / 1000 + 1) (a / 1000) []) (digits (b / 1000 + 1) (b / 1000) [])
        (decimals (a % 1000) ++ 125 ∷ []) (decimals (b % 1000) ++ 125 ∷ [])
        (every-digits (a / 1000 + 1) (a / 1000) [] refl)
        (every-digits (b / 1000 + 1) (b / 1000) [] refl) (decimals-Ended (a % 1000))
        (decimals-Ended (b % 1000))
        (sym (append_assoc (digits (a / 1000 + 1) (a / 1000) []) (decimals (a % 1000)) (125 ∷ []))
          ∙ e
          ∙ append_assoc (digits (b / 1000 + 1) (b / 1000) []) (decimals (b % 1000)) (125 ∷ [])) in
    let grams : a % 1000 ≡ b % 1000 =
      decimals_injective (a % 1000) (b % 1000) (omega arith) (omega arith) split.1 in
    let kilos : a / 1000 ≡ b / 1000 =
      sym (value-digits (a / 1000 + 1) (a / 1000) [] (omega arith))
      ∙ ap (value 0) split.0
      ∙ value-digits (b / 1000 + 1) (b / 1000) [] (omega arith) in
    omega arith

-- A number without a sign does not begin with one.
unsigned : (a : ℕ) (s : Text) → kilograms a ++ 125 ∷ [] ≡ 45 ∷ s → ⊥
unfolding kilograms is_digit
unsigned a s e =
    let head_digit = digits-cons (a / 1000 + 1) (a / 1000) [] (omega arith) in
    let all_digits = every-digits (a / 1000 + 1) (a / 1000) [] refl in
    let at_head = rw head_digit.2 at e in let digit = rw head_digit.2 at all_digits in ground arith

-- Two weights that are printed alike, in front of the closing brace, are the same.
pub json_weight_injective :
    (z w : ℤ) → json_weight z ++ 125 ∷ [] ≡ json_weight w ++ 125 ∷ [] → z ≡ w
unfolding json_weight
json_weight_injective (pos a) (pos b) e = ap pos (kilograms_injective a b e)
json_weight_injective (pos a) (negsuc n) e = absurd (unsigned a _ e)
json_weight_injective (negsuc n) (pos b) e = absurd (unsigned b _ (sym e))
json_weight_injective (negsuc n) (negsuc m) e =
    let same = kilograms_injective (n + 1) (m + 1) (cc) in ap negsuc (omega arith)
