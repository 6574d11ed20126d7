-- ===== src/Hashing/Utf8.antt =====
-- `Buffer.from(s, "utf8")`: UTF-16 code units to bytes, a lone surrogate becoming U+FFFD.
use proofchain.Prelude.{
  ltb, leb, if◌then◌else◌, Text, text, ℕ, ◌+◌, ◌-◌, ◌*◌, ◌/◌, ◌%◌, ◌≡◌, refl, Bool, ◌&&◌, List, [],
  ◌∷◌, ◌++◌,
}

is_high : ℕ → Bool
is_high u = leb 0xd800 u && ltb u 0xdc00

is_low : ℕ → Bool
is_low u = leb 0xdc00 u && ltb u 0xe000

-- The bytes of one code point.
point : ℕ → List ℕ
point c =
    if ltb c 0x80
    then c ∷ []
    else if ltb c 0x800
    then (0xc0 + c / 64) ∷ (0x80 + c % 64) ∷ []
    else if ltb c 0x10000
    then (0xe0 + c / 4096) ∷ (0x80 + c / 64 % 64) ∷ (0x80 + c % 64) ∷ []
    else (0xf0 + c / 262144) ∷ (0x80 + c / 4096 % 64) ∷ (0x80 + c / 64 % 64) ∷ (0x80 + c % 64) ∷ []

-- A unit with no partner.
single : ℕ → List ℕ
single u = if is_high u then point 0xfffd else if is_low u then point 0xfffd else point u

unfoldable pub utf8 : Text → List ℕ
unfolding is_high is_low point single
utf8 [] = []
utf8 (u ∷ []) = single u
utf8 (u ∷ v ∷ s) =
    let pair = point (0x10000 + (u - 0xd800) * 1024 + (v - 0xdc00)) ++ utf8 s in
    let alone = single u ++ utf8 (v ∷ s) in if is_high u && is_low v then pair else alone

utf8_ascii : utf8 (text "a1") ≡ 97 ∷ 49 ∷ []
unfolding utf8
utf8_ascii = refl

utf8_pair : utf8 (0xd83d ∷ 0xde00 ∷ []) ≡ 0xf0 ∷ 0x9f ∷ 0x98 ∷ 0x80 ∷ []
unfolding utf8
utf8_pair = refl
