-- ===== src/Signing.antt =====
-- packages/shared/src/signing.ts: the check of a device's signature. The base64 decoder and the
-- ed25519 verifier of Node are parameters.
use proofchain.Prelude.{◌==◌, length, Text, Bool, not, ◌&&◌}
use proofchain.Canonical.{WeighInPayload, canonical_in_grams}
use proofchain.Hashing.Utf8.{utf8}
use proofchain.Hashing.Hex.{Bytes}

pub record NodeCrypto : Type 0 where
  pub from_base64 : Text → Bytes
  -- Of a message, a raw public key and a signature.
  pub ed25519_verify : Bytes → Bytes → Bytes → Bool

-- `false` for malformed input: an empty signature, or a signature or key of a wrong length.
unfoldable pub verify_weigh_in_signature : NodeCrypto → WeighInPayload → Text → Text → Bool
verify_weigh_in_signature crypto payload signature public_key =
    let signature_bytes = crypto.from_base64 signature in
    let raw = crypto.from_base64 public_key in
    not (length signature == 0)
    && (length signature_bytes == 64
        && (length raw == 32
            && crypto.ed25519_verify (utf8 (canonical_in_grams payload)) raw signature_bytes))
