-- ===== src/Hashing.antt =====
-- packages/shared/src/canonical.ts and the byte encodings under it: Node's `createHash("sha256")`
-- is a parameter, of which the program relies on one fact, the shape of a hex digest.
pub mod Hex
pub mod Utf8
pub mod Toy
use proofchain.Prelude.{Text, ℕ, ◌≡◌, true, List}
use Hex.{is_hash_hex}

-- `hex` is `createHash("sha256").update(bytes).digest("hex")`.
pub record Sha256 : Type 0 where
  pub hex : List ℕ → Text
  pub hex-is_hash_hex : (bytes : List ℕ) → is_hash_hex (hex bytes) ≡ true
