-- ===== src/AnchorWorker/Cycle.antt =====
-- services/anchor-worker/src/index.ts: one cycle of the worker over the queue of the backend.
use proofchain.Prelude.{
  ltb, leb, ◌==◌, if◌then◌else◌, is_empty, take, Result, ◌>>=◌, throw_if, ok, err, Text, text, ℕ,
  ◌+◌, Bool, true, false, ◌||◌, Option, none, some, List, [], ◌∷◌, ◌++◌, ◌>>◌,
}
use proofchain.AnchorWorker.{
  AnchorConfig, StellarSdk, AnchorResult, LedgerVerification, WorkerEnv, WorkerError,
  anchor_batch_root, load_anchor_config, refused_by_backend, timed_out, token_missing, unauthorised,
  verify_anchor_on_ledger,
}
use proofchain.Attempts.{RecordedAttempt}
use proofchain.Batches.Anchoring.{AnchorInput, PendingAnchorBatch}
use proofchain.Database.{failed, unverified, AnchorAttemptOutcome}

-- `expires` says whether the timer of a call has run out by the time the call settles, `post_anchor`
-- gives the status of the answer, `message` the text of an exception.
pub record WorkerDeps (W : Type 0) : Type 0 where
  pub fetch_pending : W → Result WorkerError (List PendingAnchorBatch) × W
  pub post_anchor : Text → AnchorInput → W → Result WorkerError ℕ × W
  pub post_failure : Text → RecordedAttempt → W → W
  pub expires : ℕ → W → Bool
  pub message : WorkerError → Text
  pub unconfirmed : LedgerVerification → Text

-- A request that the worker made of the backend, and whether the backend accepted the write-back.
pub data Sent : Type 0 where
  wrote_back : PendingAnchorBatch → AnchorInput → Bool → Sent
  reported : PendingAnchorBatch → RecordedAttempt → Sent

-- `sent` is a record of the requests, in their order, and no state of the program.
pub record Cycle (W : Type 0) : Type 0 where
  pub world : W
  pub anchored : ℕ
  pub sent : List Sent

abbrev anchor_timeout_ms : ℕ
anchor_timeout_ms = 60000

-- The detail is cut to what the backend takes.
unfoldable pub failure_body : AnchorAttemptOutcome → Text → Option Text → RecordedAttempt
failure_body outcome detail tx = record {
  outcome = outcome;
  detail = some (take 2000 detail);
  stellar_tx_hash = tx;
}

unfoldable pub anchor_body : PendingAnchorBatch → AnchorResult → LedgerVerification → AnchorInput
anchor_body batch result verification = record {
  merkle_root = batch.merkle_root;
  stellar_tx_hash = result.stellar_tx_hash;
  stellar_ledger = elim verification.ledger [ none ↦ result.stellar_ledger | some n ↦ n ];
  network = result.network;
  data_entry_key = result.data_entry_key;
  anchored_at = result.anchored_at;
}

-- The tests of `recordAnchor` on the answer.
unfoldable pub check_status : ℕ → Result WorkerError (Unit {0})
check_status status = do
  throw_if (status == 401 || status == 403) (unauthorised status)
  throw_if (ltb status 200 || leb 300 status) (refused_by_backend status)

abbrev pub is_ok : Result WorkerError (Unit {0}) → Bool
is_ok (ok u) = true
is_ok (err e) = false

module _ {W : Type 0} (sdk : StellarSdk W) (deps : WorkerDeps W) where
  unfoldable pub with_timeout :
      {A : Type 0} → Result WorkerError A × W → Text → Result WorkerError A × W
  with_timeout run label =
      if deps.expires anchor_timeout_ms run.1 then (err (timed_out label), run.1) else run

  unfoldable pub report_failure :
      PendingAnchorBatch → AnchorAttemptOutcome → Text → Option Text → Cycle W → Cycle W
  report_failure batch outcome detail tx c =
      let body = failure_body outcome detail tx in
      record c {
        world = deps.post_failure batch.id body c.world;
        sent = c.sent ++ reported batch body ∷ [];
      }

  unfoldable pub report_error : PendingAnchorBatch → WorkerError → Cycle W → Cycle W
  report_error batch e c = report_failure batch failed (deps.message e) none c

  -- After the write-back: counted, or reported like any other exception.
  unfoldable pub close_batch :
      PendingAnchorBatch → Result WorkerError (Unit {0}) → Cycle W → Cycle W
  close_batch batch (ok u) c = record c { anchored = c.anchored + 1 }
  close_batch batch (err e) c = report_error batch e c

  unfoldable pub write_back :
      PendingAnchorBatch → AnchorResult → LedgerVerification → Cycle W → Cycle W
  write_back batch result verification c =
      let body = anchor_body batch result verification in
      let posted = deps.post_anchor batch.id body c.world in
      let answer = posted.0 >>= check_status in
      close_batch batch answer
        (record c { world = posted.1; sent = c.sent ++ wrote_back batch body (is_ok answer) ∷ [] })

  unfoldable pub judge : PendingAnchorBatch → AnchorResult → LedgerVerification → Cycle W → Cycle W
  judge batch result verification c =
      if verification.verified
      then write_back batch result verification c
      else report_failure batch unverified (deps.unconfirmed verification)
          (some result.stellar_tx_hash) c

  unfoldable pub read_back :
      Text → PendingAnchorBatch → AnchorResult → W → Result WorkerError LedgerVerification × W
  read_back account_id batch result w =
      let seen =
        verify_anchor_on_ledger sdk result.stellar_tx_hash batch.merkle_root account_id
          result.data_entry_key w in
      with_timeout (ok seen.0, seen.1) (text "verifying")

  unfoldable pub take_verification :
      PendingAnchorBatch → AnchorResult → Result WorkerError LedgerVerification → Cycle W → Cycle W
  take_verification batch result (err e) c = report_error batch e c
  take_verification batch result (ok verification) c = judge batch result verification c

  unfoldable pub take_result :
      Text → PendingAnchorBatch → Result WorkerError AnchorResult → Cycle W → Cycle W
  take_result account_id batch (err e) c = report_error batch e c
  take_result account_id batch (ok result) c =
      let seen = read_back account_id batch result c.world in
      take_verification batch result seen.0 (record c { world = seen.1 })

  unfoldable pub anchor_one : AnchorConfig → Text → Cycle W → PendingAnchorBatch → Cycle W
  anchor_one config account_id c batch =
      let tried =
        with_timeout (anchor_batch_root sdk batch.merkle_root batch.id config c.world)
          (text "anchoring") in
      take_result account_id batch tried.0 (record c { world = tried.1 })

  unfoldable pub anchor_all : AnchorConfig → Text → Cycle W → List PendingAnchorBatch → Cycle W
  anchor_all config account_id c [] = c
  anchor_all config account_id c (batch ∷ rest) =
      anchor_all config account_id (anchor_one config account_id c batch) rest

  -- What `anchorOnce` needs before it asks for the queue.
  unfoldable pub worker_keys : WorkerEnv → Result WorkerError (AnchorConfig × Text)
  worker_keys env = do
    throw_if (is_empty env.anchor_worker_token) token_missing
    config ← load_anchor_config sdk env
    account_id ← sdk.public_key config.secret
    ok (config, account_id)

  unfoldable pub anchor_pending :
      AnchorConfig
      → Text
      → Result WorkerError (List PendingAnchorBatch) × W
      → Result WorkerError (Cycle W)
  anchor_pending config account_id (pending, w) = do
    batches ← pending
    ok (anchor_all config account_id (record { world = w; anchored = 0; sent = [] }) batches)

  unfoldable pub anchor_once : WorkerEnv → W → Result WorkerError (Cycle W)
  anchor_once env w = do keys ← worker_keys env; anchor_pending keys.0 keys.1 (deps.fetch_pending w)
