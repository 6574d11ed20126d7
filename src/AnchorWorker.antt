-- ===== src/AnchorWorker.antt =====
-- services/anchor-worker/src/anchor.ts: a root written to the Stellar ledger and read back. The SDK
-- is a parameter; a call that rejects returns an error. Buffers are lists of bytes.
pub mod Cycle
pub mod Confirmed
pub mod Accounted
mod Examples
use proofchain.Prelude.{
  ltb, ◌==◌, if◌then◌else◌, length, Result, ◌>>=◌, throw_if, or_throw, ok, err, Text, text, truthy,
  text_eq, ℕ, Bool, true, false, not, ◌&&◌, ◌||◌, Option, none, some, ◌++◌, ◌>>◌,
}
use proofchain.Hashing.Hex.{Bytes, from_hex, is_hash_hex}
use proofchain.Hashing.Utf8.{utf8}
use proofchain.Database.{StellarNetwork, public, testnet}
use proofchain.Merkle.{merkle_root_hex}

pub data WorkerError : Type 0 where
  token_missing : WorkerError
  secret_missing : WorkerError
  entry_key_too_long : Text → WorkerError
  not_a_root : Text → WorkerError
  submission_failed : Text → WorkerError
  timed_out : Text → WorkerError
  unauthorised : ℕ → WorkerError
  refused_by_backend : ℕ → WorkerError
  thrown : Text → WorkerError

pub record AnchorConfig : Type 0 where
  pub horizon_url : Text
  pub network_passphrase : Text
  pub secret : Text

pub record AnchorResult : Type 0 where
  pub stellar_tx_hash : Text
  pub stellar_ledger : ℕ
  pub network : StellarNetwork
  pub data_entry_key : Text
  pub anchored_at : ℕ

pub record LedgerVerification : Type 0 where
  pub tx_found : Bool
  pub memo_matches : Bool
  pub data_entry_matches : Bool
  pub ledger : Option ℕ
  pub verified : Bool

-- What `TransactionBuilder` is given: one `manageData` operation, a `MEMO_HASH` and the time bound.
pub record AnchorTransaction : Type 0 where
  pub network_passphrase : Text
  pub data_name : Text
  pub data_value : Bytes
  pub memo_hash : Bytes
  pub timeout_seconds : ℕ

pub record SubmitResponse : Type 0 where
  pub successful : Bool
  pub hash : Text
  pub ledger : ℕ

pub record LedgerTransaction : Type 0 where
  pub ledger_attr : Option ℕ
  pub memo_type : Text
  pub memo : Option Text

-- `load_account` gives `data_attr`, `submit` signs and submits for the holder of a secret,
-- `base64_to_hex` is `Buffer.from(s, "base64").toString("hex")`.
pub record StellarSdk (W : Type 0) : Type 0 where
  pub public_key : Text → Result WorkerError Text
  pub load_account : Text → W → Result WorkerError (Text → Option Text) × W
  pub submit : Text → AnchorTransaction → W → Result WorkerError SubmitResponse × W
  pub transaction : Text → W → Result WorkerError LedgerTransaction × W
  pub base64_to_hex : Text → Text
  pub public_passphrase : Text
  pub testnet_passphrase : Text
  pub clock : W → ℕ

pub record WorkerEnv : Type 0 where
  pub anchor_worker_token : Text
  pub stellar_secret : Option Text
  pub stellar_horizon_url : Option Text
  pub stellar_network_passphrase : Option Text

-- `??`
abbrev text_or : Option Text → Text → Text
text_or none t = t
text_or (some s) t = s

unfoldable pub data_entry_key_for : Text → Result WorkerError Text
data_entry_key_for batch_id = do
  let key = text "proofchain:batch:" ++ batch_id
  throw_if (ltb 64 (length (utf8 key))) (entry_key_too_long key)
  ok key

unfoldable pub assert_root : Text → Result WorkerError Bytes
assert_root merkle_root_hex = do
  throw_if (not (is_hash_hex merkle_root_hex)) (not_a_root merkle_root_hex)
  ok (from_hex merkle_root_hex)

module _ {W : Type 0} (sdk : StellarSdk W) where
  unfoldable pub load_anchor_config : WorkerEnv → Result WorkerError AnchorConfig
  load_anchor_config env = do
    secret ← or_throw (truthy env.stellar_secret) secret_missing
    ok (record {
      horizon_url = text_or env.stellar_horizon_url (text "https://horizon-testnet.stellar.org");
      network_passphrase = text_or env.stellar_network_passphrase sdk.testnet_passphrase;
      secret = secret;
    })

  unfoldable pub network_name_of : Text → StellarNetwork
  network_name_of passphrase = if text_eq passphrase sdk.public_passphrase then public else testnet

  unfoldable pub anchor_transaction : AnchorConfig → Text → Bytes → AnchorTransaction
  anchor_transaction config key root = record {
    network_passphrase = config.network_passphrase;
    data_name = key;
    data_value = root;
    memo_hash = root;
    timeout_seconds = 90;
  }

  unfoldable pub anchor_result :
      AnchorConfig → Text → SubmitResponse → ℕ → Result WorkerError AnchorResult
  anchor_result config key response now = do
    throw_if (not response.successful) (submission_failed response.hash)
    ok (record {
      stellar_tx_hash = response.hash;
      stellar_ledger = response.ledger;
      network = network_name_of config.network_passphrase;
      data_entry_key = key;
      anchored_at = now;
    })

  -- From the point where the root and the key are known.
  unfoldable pub submit_root :
      AnchorConfig → Text → Bytes → Text → W → Result WorkerError AnchorResult × W
  submit_root config key root account_id w =
      let account = sdk.load_account account_id w in
      elim account.0 [
        | err e ↦ (err e, account.1)
        | ok loaded ↦
            let submitted =
              sdk.submit config.secret (anchor_transaction config key root) account.1 in
            (
              submitted.0
                  >>= (λ response. anchor_result config key response (sdk.clock submitted.1)),
              submitted.1,
            )
      ]

  -- What fails before the first call of the ledger leaves the ledger alone.
  unfoldable pub prepare : Text → Text → AnchorConfig → Result WorkerError (Bytes × Text × Text)
  prepare merkle_root_hex batch_id config = do
    root ← assert_root merkle_root_hex
    key ← data_entry_key_for batch_id
    account_id ← sdk.public_key config.secret
    ok (root, key, account_id)

  unfoldable pub anchor_batch_root :
      Text → Text → AnchorConfig → W → Result WorkerError AnchorResult × W
  anchor_batch_root merkle_root_hex batch_id config w =
      elim (prepare merkle_root_hex batch_id config) [
        | err e ↦ (err e, w)
        | ok (root, key, account_id) ↦ submit_root config key root account_id w
      ]

  unfoldable pub carries_root : Text → Option Text → Bool
  carries_root root none = false
  carries_root root (some value) = text_eq (sdk.base64_to_hex value) root

  unfoldable pub memo_carries : Text → LedgerTransaction → Bool
  memo_carries root tx = text_eq tx.memo_type (text "hash") && carries_root root tx.memo

  unfoldable pub tx_found_in : Result WorkerError LedgerTransaction → Bool
  tx_found_in (ok tx) = true
  tx_found_in (err e) = false

  unfoldable pub memo_matches_in : Text → Result WorkerError LedgerTransaction → Bool
  memo_matches_in root (ok tx) = memo_carries root tx
  memo_matches_in root (err e) = false

  -- `Number(tx.ledger_attr ?? 0) || null`
  unfoldable pub ledger_in : Result WorkerError LedgerTransaction → Option ℕ
  ledger_in (ok tx) = elim tx.ledger_attr [ none ↦ none | some n ↦ if n == 0 then none else some n ]
  ledger_in (err e) = none

  unfoldable pub data_matches_in : Text → Text → Result WorkerError (Text → Option Text) → Bool
  data_matches_in root key (ok data_attr) = carries_root root (data_attr key)
  data_matches_in root key (err e) = false

  unfoldable pub verify_anchor_on_ledger : Text → Text → Text → Text → W → LedgerVerification × W
  verify_anchor_on_ledger tx_hash expected_root account_id key w =
      let tx = sdk.transaction tx_hash w in
      let account = sdk.load_account account_id tx.1 in
      let memo = memo_matches_in expected_root tx.0 in
      let entry = data_matches_in expected_root key account.0 in
      (
        record {
          tx_found = tx_found_in tx.0;
          memo_matches = memo;
          data_entry_matches = entry;
          ledger = ledger_in tx.0;
          verified = tx_found_in tx.0 && (memo || entry);
        },
        account.1,
      )
