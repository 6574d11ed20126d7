-- ===== src/AnchorWorker/Confirmed.antt =====
-- The worker writes back no anchor that it has not read off the ledger.
use proofchain.Prelude.{
  &&-true, Bool-cases, All, All-snoc, Result, ◌>>=◌, ok_injective, ok, err, Text, text, text_eq→eq,
  ◌≡◌, refl, subst, ◌⊎◌, inl, inr, true, ◌&&◌, ◌||◌, Option, none, some, List, [], ◌∷◌,
}
use proofchain.AnchorWorker.{
  StellarSdk, LedgerTransaction, WorkerError, carries_root, data_matches_in, memo_carries,
  memo_matches_in, tx_found_in, verify_anchor_on_ledger, AnchorConfig, AnchorResult,
  LedgerVerification, WorkerEnv,
}
use proofchain.Database.{AnchorAttemptOutcome}
use proofchain.AnchorWorker.Cycle.{
  Cycle, Sent, WorkerDeps, anchor_all, anchor_body, anchor_one, close_batch, judge, read_back,
  report_error, report_failure, reported, with_timeout, write_back, wrote_back, anchor_once,
  anchor_pending, take_result, take_verification, worker_keys,
}
use proofchain.Batches.Anchoring.{PendingAnchorBatch}

module _ {W : Type 0} (sdk : StellarSdk W) (account_id : Text) where
  -- A value in base64 that is there and stands for the root.
  pub Carries : Text → Option Text → Type 0
  Carries root o = (value : Text) × (o ≡ some value) × (sdk.base64_to_hex value ≡ root)

  -- The ledger, asked at some moment, has the transaction, and its memo or the entry of the account
  -- is the root.
  pub OnLedger : Text → Text → Text → Type 0
  OnLedger tx_hash root key =
      (w : W) × (tx : LedgerTransaction) × ((sdk.transaction tx_hash w).0 ≡ ok tx)
      × (((tx.memo_type ≡ text "hash") × Carries root tx.memo)
          ⊎ ((data_attr : Text → Option Text) × ((sdk.load_account account_id
                  (sdk.transaction tx_hash w).1).0
                ≡ ok data_attr)
              × Carries root (data_attr key)))

  carries_root-Carries :
      (root : Text) (o : Option Text) → carries_root sdk root o ≡ true → Carries root o
  unfolding carries_root Carries
  carries_root-Carries root none h = cc
  carries_root-Carries root (some value) h = (value, refl, text_eq→eq _ root h)

  memo_carries-Carries :
      (root : Text) (tx : LedgerTransaction)
      → memo_carries sdk root tx ≡ true
      → (tx.memo_type ≡ text "hash") × Carries root tx.memo
  unfolding memo_carries
  memo_carries-Carries root tx h =
      let both = &&-true h in
      (text_eq→eq tx.memo_type (text "hash") both.0, carries_root-Carries root tx.memo both.1)

  data_matches :
      (root key : Text) (account : Result WorkerError (Text → Option Text))
      → data_matches_in sdk root key account ≡ true
      → (data_attr : Text → Option Text) × (account ≡ ok data_attr) × Carries root (data_attr key)
  unfolding data_matches_in
  data_matches root key (ok data_attr) h = (data_attr, refl, carries_root-Carries root _ h)
  data_matches root key (err e) h = cc

  -- What the two answers of the ledger have to be for the verdict.
  verdict :
      (root key : Text) (answer : Result WorkerError LedgerTransaction)
      (account : Result WorkerError (Text → Option Text))
      → (tx_found_in sdk answer
          && (memo_matches_in sdk root answer || data_matches_in sdk root key account))
        ≡ true
      → (tx : LedgerTransaction) × (answer ≡ ok tx)
        × (((tx.memo_type ≡ text "hash") × Carries root tx.memo)
            ⊎ ((data_attr : Text → Option Text) × (account ≡ ok data_attr)
                × Carries root (data_attr key)))
  unfolding tx_found_in memo_matches_in
  verdict root key (err e) account h = cc
  verdict root key (ok tx) account h = elim (Bool-cases (memo_carries sdk root tx)) [
    | inl memo ↦ (tx, refl, inl (memo_carries-Carries root tx memo))
    | inr other ↦ (
      tx,
      refl,
      inr (
          data_matches root key account
            (subst (λ b. (b || data_matches_in sdk root key account) ≡ true) other h)),
    )
  ]

  verify_anchor_on_ledger-OnLedger :
      (tx_hash root key : Text) (w : W)
      → (verify_anchor_on_ledger sdk tx_hash root account_id key w).0.verified ≡ true
      → OnLedger tx_hash root key
  unfolding verify_anchor_on_ledger OnLedger
  verify_anchor_on_ledger-OnLedger tx_hash root key w h =
      let seen =
        verdict root key (sdk.transaction tx_hash w).0
          (sdk.load_account account_id (sdk.transaction tx_hash w).1).0 h in
      (w, seen.0, seen.1, seen.2)

  -- A write-back is of the batch's own root, for a transaction that the ledger shows to carry it.
  pub IsConfirmed : Sent → Type 0
  IsConfirmed (wrote_back batch input accepted) =
      (input.merkle_root ≡ batch.merkle_root)
      × OnLedger input.stellar_tx_hash batch.merkle_root input.data_entry_key
  IsConfirmed (reported batch failure) = Unit

  module _ (deps : WorkerDeps W) where
    AllConfirmed : Cycle W → Type 0
    AllConfirmed c = All IsConfirmed c.sent

    report_failure-AllConfirmed :
        (batch : PendingAnchorBatch) (outcome : AnchorAttemptOutcome) (detail : Text)
        (tx : Option Text) (c : Cycle W)
        → AllConfirmed c
        → AllConfirmed (report_failure sdk deps batch outcome detail tx c)
    unfolding AllConfirmed IsConfirmed report_failure
    report_failure-AllConfirmed batch outcome detail tx c h = All-snoc IsConfirmed c.sent _ h tt

    report_error-AllConfirmed :
        (batch : PendingAnchorBatch) (e : WorkerError) (c : Cycle W)
        → AllConfirmed c
        → AllConfirmed (report_error sdk deps batch e c)
    unfolding report_error
    report_error-AllConfirmed batch e c h = report_failure-AllConfirmed batch _ _ _ c h

    close_batch-AllConfirmed :
        (batch : PendingAnchorBatch) (answer : Result WorkerError (Unit {0})) (c : Cycle W)
        → AllConfirmed c
        → AllConfirmed (close_batch sdk deps batch answer c)
    unfolding close_batch AllConfirmed
    close_batch-AllConfirmed batch (ok u) c h = h
    close_batch-AllConfirmed batch (err e) c h = report_error-AllConfirmed batch e c h

    judge-AllConfirmed :
        (batch : PendingAnchorBatch) (result : AnchorResult) (v : LedgerVerification) (c : Cycle W)
        → (v.verified ≡ true
            → OnLedger result.stellar_tx_hash batch.merkle_root result.data_entry_key)
        → AllConfirmed c
        → AllConfirmed (judge sdk deps batch result v c)
    unfolding judge write_back anchor_body AllConfirmed IsConfirmed
    judge-AllConfirmed batch result v c seen h = elim (Bool-cases v.verified) [
      | inl sure ↦
          rw sure
            (close_batch-AllConfirmed batch _ _ (All-snoc IsConfirmed c.sent _ h (refl, seen sure)))
      | inr unsure ↦ rw unsure (report_failure-AllConfirmed batch _ _ _ c h)
    ]

    take_result-AllConfirmed :
        (batch : PendingAnchorBatch) (answer : Result WorkerError AnchorResult) (c : Cycle W)
        → AllConfirmed c
        → AllConfirmed (take_result sdk deps account_id batch answer c)
    unfolding take_result take_verification read_back with_timeout AllConfirmed
    take_result-AllConfirmed batch (err e) c h = report_error-AllConfirmed batch e c h
    take_result-AllConfirmed batch (ok result) c h =
        let seen =
          verify_anchor_on_ledger sdk result.stellar_tx_hash batch.merkle_root account_id
            result.data_entry_key c.world in
        elim (Bool-cases (deps.expires 60000 seen.1)) [
          | inl late ↦ rw late (report_error-AllConfirmed batch _ _ h)
          | inr timely ↦ rw timely (
              judge-AllConfirmed batch result seen.0 _
                (verify_anchor_on_ledger-OnLedger result.stellar_tx_hash batch.merkle_root
                  result.data_entry_key c.world)
                h)
        ]

    anchor_one-AllConfirmed :
        (config : AnchorConfig) (c : Cycle W) (batch : PendingAnchorBatch)
        → AllConfirmed c
        → AllConfirmed (anchor_one sdk deps config account_id c batch)
    unfolding anchor_one AllConfirmed
    anchor_one-AllConfirmed config c batch h = take_result-AllConfirmed batch _ _ h

    anchor_all-AllConfirmed :
        (config : AnchorConfig) (batches : List PendingAnchorBatch) (c : Cycle W)
        → AllConfirmed c
        → AllConfirmed (anchor_all sdk deps config account_id c batches)
    unfolding anchor_all
    anchor_all-AllConfirmed config [] c h = h
    anchor_all-AllConfirmed config (b ∷ bs) c h =
        anchor_all-AllConfirmed config bs _ (anchor_one-AllConfirmed config c b h)

module _ {W : Type 0} (sdk : StellarSdk W) (deps : WorkerDeps W) where
  anchor_pending-IsConfirmed :
      (config : AnchorConfig) (account_id : Text)
      (pending : Result WorkerError (List PendingAnchorBatch)) (w : W) (c : Cycle W)
      → anchor_pending sdk deps config account_id (pending, w) ≡ ok c
      → All (IsConfirmed sdk account_id) c.sent
  unfolding anchor_pending AllConfirmed
  anchor_pending-IsConfirmed config account_id (err e) w c h = cc
  anchor_pending-IsConfirmed config account_id (ok batches) w c h =
      let start : Cycle W = record { world = w; anchored = 0; sent = [] } in
      subst (λ d. All (IsConfirmed sdk account_id) d.sent) (ok_injective h)
        (anchor_all-AllConfirmed sdk account_id deps config batches start tt)

  -- Whatever the ledger, the backend and the timers do: each anchor that a cycle writes back has the
  -- root of its batch, and the ledger, when read back, had the transaction, and its memo, or the entry of the
  -- worker's own account, was that root.
  pub anchor_once-IsConfirmed :
      (env : WorkerEnv) (w : W) (c : Cycle W) (config : AnchorConfig) (account_id : Text)
      → worker_keys sdk deps env ≡ ok (config, account_id)
      → anchor_once sdk deps env w ≡ ok c
      → All (IsConfirmed sdk account_id) c.sent
  unfolding anchor_once
  anchor_once-IsConfirmed env w c config account_id keys h =
      anchor_pending-IsConfirmed config account_id (deps.fetch_pending w).0 (deps.fetch_pending w).1
        c
        (subst (λ k. (k >>= λ ks. anchor_pending sdk deps ks.0 ks.1 (deps.fetch_pending w)) ≡ ok c)
          keys h)
