-- ===== src/Hashing/Hex.antt =====
-- The test /^[0-9a-f]{64}$/ that merkle.ts, integrity.ts and anchor.ts share, and
-- `Buffer.from(s, "hex")`.
use proofchain.Prelude.{
  ltb, leb, ◌==◌, if◌then◌else◌, ==_iff, &&-true, length, every, Text, ℕ, ◌+◌, ◌-◌, ◌*◌, ◌<◌, ◌≡◌,
  refl, sym, ap, ◌∙◌, Bool, true, ◌&&◌, ◌||◌, Option, none, some, List, [], ◌∷◌, arith,
}

abbrev pub Bytes : Type 0
Bytes = List ℕ

-- [0-9a-f]
unfoldable pub is_hex_unit : ℕ → Bool
is_hex_unit c = (leb 48 c && leb c 57) || (leb 97 c && leb c 102)

unfoldable pub is_hash_hex : Text → Bool
is_hash_hex s = length s == 64 && every is_hex_unit s

-- The value of a hex digit, upper case included.
unfoldable pub hex_value : ℕ → Option ℕ
hex_value c =
    if leb 48 c && leb c 57
    then some (c - 48)
    else if leb 97 c && leb c 102
    then some (c - 87)
    else if leb 65 c && leb c 70
    then some (c - 55)
    else none

push_byte : Option ℕ → Option ℕ → Bytes → Bytes
push_byte (some hi) (some lo) rest = (16 * hi + lo) ∷ rest
push_byte _ _ rest = []

-- Node decodes pairs of digits and stops at the first pair that is none.
unfoldable pub from_hex : Text → Bytes
unfolding hex_value push_byte
from_hex (a ∷ b ∷ s) = push_byte (hex_value a) (hex_value b) (from_hex s)
from_hex _ = []

-- A string of an even number of lower-case digits.
abbrev pub IsHex : Text → Type 0
IsHex [] = Unit
IsHex (a ∷ []) = ⊥
IsHex (a ∷ b ∷ s) = (is_hex_unit a ≡ true) × (is_hex_unit b ≡ true) × IsHex s

digit : ℕ → ℕ
digit c = if ltb c 97 then c - 48 else c - 87

hex_value-digit : (c : ℕ) → is_hex_unit c ≡ true → hex_value c ≡ some (digit c)
unfolding hex_value is_hex_unit digit
hex_value-digit c h = ground arith

digit-lt : (c : ℕ) → is_hex_unit c ≡ true → digit c < 16
unfolding is_hex_unit digit
digit-lt c h = ground arith

digit_injective :
    (c d : ℕ) → is_hex_unit c ≡ true → is_hex_unit d ≡ true → digit c ≡ digit d → c ≡ d
unfolding is_hex_unit digit
digit_injective c d hc hd e = ground arith

from_hex-cons :
    (a b : ℕ) (s : Text)
    → is_hex_unit a ≡ true
    → is_hex_unit b ≡ true
    → from_hex (a ∷ b ∷ s) ≡ (16 * digit a + digit b) ∷ from_hex s
unfolding from_hex
from_hex-cons a b s ha hb = ground (arith, hex_value-digit a, hex_value-digit b)

pub length-from_hex : (s : Text) → IsHex s → 2 * length (from_hex s) ≡ length s
unfolding from_hex
length-from_hex [] h = refl
length-from_hex (a ∷ []) h = absurd h
length-from_hex (a ∷ b ∷ s) h =
    rw (from_hex-cons a b s h.0 h.1) (omega (arith, length-from_hex s h.2))

cons_injective : {a b : ℕ} {s t : List ℕ} → a ∷ s ≡ b ∷ t → (a ≡ b) × (s ≡ t)
cons_injective e = (cc, cc)

split_byte :
    (a b c d : ℕ)
    → is_hex_unit a ≡ true
    → is_hex_unit b ≡ true
    → is_hex_unit c ≡ true
    → is_hex_unit d ≡ true
    → 16 * digit a + digit b ≡ 16 * digit c + digit d
    → (a ≡ c) × (b ≡ d)
split_byte a b c d ha hb hc hd e = (
  digit_injective a c ha hc (omega (arith, digit-lt b hb, digit-lt d hd)),
  digit_injective b d hb hd (omega (arith, digit-lt b hb, digit-lt d hd)),
)

-- Decoding tells strings of lower-case digits apart.
pub from_hex_injective : (s t : Text) → IsHex s → IsHex t → from_hex s ≡ from_hex t → s ≡ t
from_hex_injective [] [] hs ht e = refl
from_hex_injective [] (c ∷ []) hs ht e = absurd ht
from_hex_injective [] (c ∷ d ∷ t) hs ht e =
    absurd (omega (arith, ap length e, length-from_hex [] hs, length-from_hex (c ∷ d ∷ t) ht))
from_hex_injective (a ∷ []) t hs ht e = absurd hs
from_hex_injective (a ∷ b ∷ s) [] hs ht e =
    absurd (omega (arith, ap length e, length-from_hex (a ∷ b ∷ s) hs, length-from_hex [] ht))
from_hex_injective (a ∷ b ∷ s) (c ∷ []) hs ht e = absurd ht
from_hex_injective (a ∷ b ∷ s) (c ∷ d ∷ t) hs ht e =
    let split =
      cons_injective (sym (from_hex-cons a b s hs.0 hs.1) ∙ e ∙ from_hex-cons c d t ht.0 ht.1) in
    let heads = split_byte a b c d hs.0 hs.1 ht.0 ht.1 split.0 in
    let rest = from_hex_injective s t hs.2 ht.2 split.1 in cc

even-IsHex : (n : ℕ) (s : Text) → length s ≡ n + n → every is_hex_unit s ≡ true → IsHex s
even-IsHex n [] l h = tt
even-IsHex n (a ∷ []) l h = omega arith
even-IsHex n (a ∷ b ∷ s) l h =
    let split = &&-true {a = is_hex_unit a} h in
    let split' = &&-true {a = is_hex_unit b} split.1 in
    (split.0, split'.0, even-IsHex (n - 1) s (omega arith) split'.1)

-- What passes the test has 64 digits, and decodes to 32 bytes.
pub is_hash_hex-IsHex : (s : Text) → is_hash_hex s ≡ true → IsHex s
unfolding is_hash_hex
is_hash_hex-IsHex s h =
    let split = &&-true {a = length s == 64} h in
    even-IsHex 32 s ((==_iff (length s) 64).0 split.0) split.1

pub is_hash_hex-length : (s : Text) → is_hash_hex s ≡ true → length s ≡ 64
unfolding is_hash_hex
is_hash_hex-length s h = (==_iff (length s) 64).0 (&&-true {a = length s == 64} h).0

pub length-is_hash_hex : (s : Text) → is_hash_hex s ≡ true → length (from_hex s) ≡ 32
length-is_hash_hex s h =
    omega (arith, length-from_hex s (is_hash_hex-IsHex s h), is_hash_hex-length s h)
