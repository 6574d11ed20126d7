-- ===== src/AnchorWorker/Examples.antt =====
-- The theorems on the anchor worker, at a queue of two batches of which one has no proper root.
use proofchain.Prelude.{
  replicate, All, ok, Text, text, text_eq, ℕ, ◌+◌, ◌≡◌, refl, true, false, none, some, List, [],
  ◌∷◌, map, pos,
}
use proofchain.AnchorWorker.{
  AnchorConfig, StellarSdk, WorkerEnv, anchor_batch_root, anchor_result, assert_root, carries_root,
  data_entry_key_for, data_matches_in, load_anchor_config, memo_carries, memo_matches_in, prepare,
  submit_root, tx_found_in, verify_anchor_on_ledger,
}
use proofchain.AnchorWorker.Cycle.{
  WorkerDeps, Cycle, anchor_all, anchor_once, anchor_one, anchor_pending, check_status, close_batch,
  judge, read_back, report_error, report_failure, take_result, take_verification, with_timeout,
  worker_keys, write_back,
}
use proofchain.Batches.Anchoring.{PendingAnchorBatch}
use proofchain.Hashing.Hex.{is_hash_hex, is_hex_unit}
use proofchain.Hashing.Utf8.{utf8}
use proofchain.AnchorWorker.Accounted.{accepted_count, anchor_once-accounted, settled_ids}
use proofchain.AnchorWorker.Confirmed.{IsConfirmed, anchor_once-IsConfirmed}

abbrev good_root : Text
good_root = replicate 64 48

abbrev waiting_batch : Text → Text → PendingAnchorBatch
waiting_batch id root = record {
  id = id;
  merkle_root = root;
  total_weight = pos 1500;
  event_count = 1;
  failed_attempts = 0;
  last_failure_detail = none;
}

abbrev two_batches : List PendingAnchorBatch
two_batches = waiting_batch (text "b1") (text "no root") ∷ waiting_batch (text "b2") good_root ∷ []

-- The ledger gives back the root as the memo of each transaction; an account has no entries.
abbrev ledger_stub : StellarSdk ℕ
ledger_stub = record {
  public_key = λ secret. ok (text "G");
  load_account = λ id n. (ok (λ key. none), n + 1);
  submit = λ secret tx n. (ok (record { successful = true; hash = text "tx"; ledger = 7 }), n + 1);
  transaction = λ hash n.
      (ok (record { ledger_attr = some 7; memo_type = text "hash"; memo = some good_root }), n + 1);
  base64_to_hex = λ t. t;
  public_passphrase = text "public";
  testnet_passphrase = text "testnet";
  clock = λ n. n;
}

abbrev backend_stub : WorkerDeps ℕ
backend_stub = record {
  fetch_pending = λ n. (ok two_batches, n + 1);
  post_anchor = λ id body n. (ok 201, n + 1);
  post_failure = λ id body n. n + 1;
  expires = λ ms n. false;
  message = λ e. [];
  unconfirmed = λ v. [];
}

abbrev worker_env : WorkerEnv
worker_env = record {
  anchor_worker_token = text "token";
  stellar_secret = some (text "S");
  stellar_horizon_url = none;
  stellar_network_passphrase = none;
}

abbrev testnet_config : AnchorConfig
testnet_config = record {
  horizon_url = text "https://horizon-testnet.stellar.org";
  network_passphrase = text "testnet";
  secret = text "S";
}

keys_loaded : worker_keys ledger_stub backend_stub worker_env ≡ ok (testnet_config, text "G")
unfolding worker_keys load_anchor_config
keys_loaded = refl

anchor_once-accounted_example :
    (c : Cycle ℕ) × (anchor_once ledger_stub backend_stub worker_env 0 ≡ ok c)
    × (settled_ids c.sent ≡ map (λ b. b.id) two_batches)
    × (c.anchored ≡ accepted_count c.sent)
anchor_once-accounted_example =
    anchor_once-accounted ledger_stub backend_stub worker_env 0 testnet_config (text "G")
      two_batches keys_loaded refl

abbrev cycle_done : Cycle ℕ
cycle_done =
    anchor_all ledger_stub backend_stub testnet_config (text "G")
      (record { world = 1; anchored = 0; sent = [] }) two_batches

cycle_runs : anchor_once ledger_stub backend_stub worker_env 0 ≡ ok cycle_done
unfolding anchor_once anchor_pending worker_keys load_anchor_config
cycle_runs = refl

anchor_once-IsConfirmed_example : All (IsConfirmed ledger_stub (text "G")) cycle_done.sent
anchor_once-IsConfirmed_example =
    anchor_once-IsConfirmed ledger_stub backend_stub worker_env 0 cycle_done testnet_config
      (text "G") keys_loaded cycle_runs

one_anchored : cycle_done.anchored ≡ 1
unfolding anchor_all anchor_one take_result take_verification read_back with_timeout judge
    write_back close_batch report_error report_failure check_status anchor_batch_root prepare
    submit_root anchor_result assert_root data_entry_key_for utf8 is_hash_hex is_hex_unit
    verify_anchor_on_ledger tx_found_in memo_matches_in memo_carries carries_root data_matches_in
    text_eq
one_anchored = refl
