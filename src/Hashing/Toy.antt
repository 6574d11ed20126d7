-- ===== src/Hashing/Toy.antt =====
-- A computable stand-in for SHA-256, for examples: 63 zeros and one digit that mixes the bytes.
use proofchain.Prelude.{
  ltb, if◌then◌else◌, replicate, every, Text, ℕ, ◌+◌, ◌*◌, ◌%◌, ◌<◌, ◌≡◌, refl, true, [], ◌∷◌,
  arith,
}
use proofchain.Hashing.{Sha256}
use proofchain.Hashing.Hex.{Bytes, is_hash_hex, is_hex_unit}

mix : ℕ → Bytes → ℕ
mix acc [] = acc
mix acc (b ∷ bs) = mix ((acc * 3 + b) % 16) bs

hex_digit : ℕ → ℕ
hex_digit n = if ltb n 10 then 48 + n else 87 + n

unfoldable pub toy_hex : Bytes → Text
unfolding mix hex_digit
toy_hex bytes = hex_digit (mix 0 bytes) ∷ replicate 63 48

mix-lt : (acc : ℕ) (bs : Bytes) → acc < 16 → mix acc bs < 16
unfolding mix
mix-lt acc [] h = h
mix-lt acc (b ∷ bs) h = mix-lt ((acc * 3 + b) % 16) bs (omega arith)

hex_digit-is_hex_unit : (n : ℕ) → n < 16 → is_hex_unit (hex_digit n) ≡ true
unfolding hex_digit is_hex_unit
hex_digit-is_hex_unit n h = ground arith

zeros : every is_hex_unit (replicate 63 48) ≡ true
unfolding is_hex_unit
zeros = refl

pub toy_hex-is_hash_hex : (bytes : Bytes) → is_hash_hex (toy_hex bytes) ≡ true
unfolding is_hash_hex toy_hex
toy_hex-is_hash_hex bytes =
    rw (hex_digit-is_hex_unit (mix 0 bytes) (mix-lt 0 bytes (omega arith))) zeros

abbrev pub toy : Sha256
toy = record { hex = toy_hex; hex-is_hash_hex = toy_hex-is_hash_hex }
