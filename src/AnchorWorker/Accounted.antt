-- ===== src/AnchorWorker/Accounted.antt =====
-- Each batch of the queue is dealt with, whatever happens to the others.
use proofchain.Prelude.{
  Bool-cases, Result, ◌>>=◌, Result-cases, ok, err, Text, ℕ, ◌+◌, ◌≡◌, refl, sym, ap, ◌∙◌, inl, inr,
  true, false, Option, List, [], ◌∷◌, ◌++◌, map, append_assoc, append-nil, arith,
}
use proofchain.AnchorWorker.{
  StellarSdk, AnchorResult, LedgerVerification, AnchorConfig, WorkerEnv, WorkerError,
}
use proofchain.AnchorWorker.Cycle.{
  WorkerDeps, Cycle, Sent, anchor_body, check_status, close_batch, failure_body, report_failure,
  reported, write_back, wrote_back, anchor_all, anchor_once, anchor_one, anchor_pending, judge,
  report_error, take_result, take_verification, worker_keys,
}
use proofchain.Batches.Anchoring.{PendingAnchorBatch, AnchorInput}
use proofchain.Database.{AnchorAttemptOutcome}

-- The batches whose turn ends with a request: a write-back that is accepted, or a report.
unfoldable pub settled_ids : List Sent → List Text
settled_ids [] = []
settled_ids (wrote_back batch input true ∷ s) = batch.id ∷ settled_ids s
settled_ids (wrote_back batch input false ∷ s) = settled_ids s
settled_ids (reported batch failure ∷ s) = batch.id ∷ settled_ids s

unfoldable pub accepted_count : List Sent → ℕ
accepted_count [] = 0
accepted_count (wrote_back batch input true ∷ s) = accepted_count s + 1
accepted_count (wrote_back batch input false ∷ s) = accepted_count s
accepted_count (reported batch failure ∷ s) = accepted_count s

settled_ids-append : (s t : List Sent) → settled_ids (s ++ t) ≡ settled_ids s ++ settled_ids t
unfolding settled_ids
settled_ids-append [] t = refl
settled_ids-append (wrote_back batch input true ∷ s) t =
    ap (λ r. batch.id ∷ r) (settled_ids-append s t)
settled_ids-append (wrote_back batch input false ∷ s) t = settled_ids-append s t
settled_ids-append (reported batch failure ∷ s) t = ap (λ r. batch.id ∷ r) (settled_ids-append s t)

accepted_count-append :
    (s t : List Sent) → accepted_count (s ++ t) ≡ accepted_count s + accepted_count t
unfolding accepted_count
accepted_count-append [] t = omega arith
accepted_count-append (wrote_back batch input true ∷ s) t = omega (arith, accepted_count-append s t)
accepted_count-append (wrote_back batch input false ∷ s) t = accepted_count-append s t
accepted_count-append (reported batch failure ∷ s) t = accepted_count-append s t

module _ {W : Type 0} (sdk : StellarSdk W) (deps : WorkerDeps W) where
  -- After the batches with these ids.
  abbrev IsAccounted : Cycle W → List Text → Type 0
  IsAccounted c ids = (settled_ids c.sent ≡ ids) × (c.anchored ≡ accepted_count c.sent)

  report_failure-IsAccounted :
      (batch : PendingAnchorBatch) (outcome : AnchorAttemptOutcome) (detail : Text)
      (tx : Option Text) (c : Cycle W) (ids : List Text)
      → IsAccounted c ids
      → IsAccounted (report_failure sdk deps batch outcome detail tx c) (ids ++ batch.id ∷ [])
  unfolding report_failure
  report_failure-IsAccounted batch outcome detail tx c ids h =
      let body = failure_body outcome detail tx in
      (
        settled_ids-append c.sent _ ∙ unfold settled_ids in ap (λ r. r ++ batch.id ∷ []) h.0,
        h.1
            ∙ sym (
                accepted_count-append c.sent (reported batch body ∷ [])
                ∙ unfold accepted_count in omega arith),
      )

  -- A write-back that is refused ends no turn.
  refused-IsAccounted :
      (batch : PendingAnchorBatch) (body : AnchorInput) (c : Cycle W) (ids : List Text) (w : W)
      → IsAccounted c ids
      → IsAccounted (record c { world = w; sent = c.sent ++ wrote_back batch body false ∷ [] }) ids
  refused-IsAccounted batch body c ids w h = (
    settled_ids-append c.sent _ ∙ (unfold settled_ids in append-nil (settled_ids c.sent) ∙ h.0),
    h.1
        ∙ sym (
            accepted_count-append c.sent (wrote_back batch body false ∷ [])
            ∙ unfold accepted_count in omega arith),
  )

  accepted-IsAccounted :
      (batch : PendingAnchorBatch) (body : AnchorInput) (c : Cycle W) (ids : List Text) (w : W)
      → IsAccounted c ids
      → IsAccounted
          (record {
            world = w;
            anchored = c.anchored + 1;
            sent = c.sent ++ wrote_back batch body true ∷ [];
          })
          (ids ++ batch.id ∷ [])
  accepted-IsAccounted batch body c ids w h = (
    settled_ids-append c.sent _ ∙ unfold settled_ids in ap (λ r. r ++ batch.id ∷ []) h.0,
    ap (λ n. n + 1) h.1
        ∙ sym (
            accepted_count-append c.sent (wrote_back batch body true ∷ [])
            ∙ unfold accepted_count in omega arith),
  )

  report_error-IsAccounted :
      (batch : PendingAnchorBatch) (e : WorkerError) (c : Cycle W) (ids : List Text)
      → IsAccounted c ids
      → IsAccounted (report_error sdk deps batch e c) (ids ++ batch.id ∷ [])
  unfolding report_error
  report_error-IsAccounted batch e c ids h = report_failure-IsAccounted batch _ _ _ c ids h

  write_back-IsAccounted :
      (batch : PendingAnchorBatch) (result : AnchorResult) (v : LedgerVerification) (c : Cycle W)
      (ids : List Text)
      → IsAccounted c ids
      → IsAccounted (write_back sdk deps batch result v c) (ids ++ batch.id ∷ [])
  unfolding write_back close_batch
  write_back-IsAccounted batch result v c ids h =
      let body = anchor_body batch result v in
      let moved = (deps.post_anchor batch.id body c.world).1 in
      elim (Result-cases ((deps.post_anchor batch.id body c.world).0 >>= check_status)) [
        | inl (u, good) ↦ rw good (accepted-IsAccounted batch body c ids moved h)
        | inr (e, bad) ↦ rw bad (
            report_error-IsAccounted batch e
              (record c { world = moved; sent = c.sent ++ wrote_back batch body false ∷ [] }) ids
              (refused-IsAccounted batch body c ids moved h))
      ]

  judge-IsAccounted :
      (batch : PendingAnchorBatch) (result : AnchorResult) (v : LedgerVerification) (c : Cycle W)
      (ids : List Text)
      → IsAccounted c ids
      → IsAccounted (judge sdk deps batch result v c) (ids ++ batch.id ∷ [])
  unfolding judge
  judge-IsAccounted batch result v c ids h = elim (Bool-cases v.verified) [
    | inl sure ↦ simp sure (write_back-IsAccounted batch result v c ids h)
    | inr unsure ↦ simp unsure (report_failure-IsAccounted batch _ _ _ c ids h)
  ]

  take_verification-IsAccounted :
      (batch : PendingAnchorBatch) (result : AnchorResult)
      (answer : Result WorkerError LedgerVerification) (c : Cycle W) (ids : List Text)
      → IsAccounted c ids
      → IsAccounted (take_verification sdk deps batch result answer c) (ids ++ batch.id ∷ [])
  unfolding take_verification
  take_verification-IsAccounted batch result (err e) c ids h =
      report_error-IsAccounted batch e c ids h
  take_verification-IsAccounted batch result (ok v) c ids h =
      judge-IsAccounted batch result v c ids h

  take_result-IsAccounted :
      (account_id : Text) (batch : PendingAnchorBatch) (answer : Result WorkerError AnchorResult)
      (c : Cycle W) (ids : List Text)
      → IsAccounted c ids
      → IsAccounted (take_result sdk deps account_id batch answer c) (ids ++ batch.id ∷ [])
  unfolding take_result
  take_result-IsAccounted account_id batch (err e) c ids h =
      report_error-IsAccounted batch e c ids h
  take_result-IsAccounted account_id batch (ok result) c ids h =
      take_verification-IsAccounted batch result _ _ ids h

  anchor_all-IsAccounted :
      (config : AnchorConfig) (account_id : Text) (batches : List PendingAnchorBatch) (c : Cycle W)
      (ids : List Text)
      → IsAccounted c ids
      → IsAccounted
          (anchor_all sdk deps config account_id c batches)
          (ids ++ map (λ b. b.id) batches)
  unfolding anchor_all anchor_one
  anchor_all-IsAccounted config account_id [] c ids h = (h.0 ∙ sym (append-nil ids), h.1)
  anchor_all-IsAccounted config account_id (b ∷ bs) c ids h =
      let rest =
        anchor_all-IsAccounted config account_id bs _ (ids ++ b.id ∷ [])
          (take_result-IsAccounted account_id b _ _ ids h) in
      (rest.0 ∙ append_assoc ids (b.id ∷ []) (map (λ x. x.id) bs), rest.1)

  -- With a token, a secret and an answer of the backend, a cycle comes to its end whatever fails on the way,
  -- and each batch of the queue, in the order of the queue, ends its turn with one request: a
  -- write-back that the backend accepts or a report of failure. The number returned is that of the
  -- write-backs accepted.
  pub anchor_once-accounted :
      (env : WorkerEnv) (w : W) (config : AnchorConfig) (account_id : Text)
      (batches : List PendingAnchorBatch)
      → worker_keys sdk deps env ≡ ok (config, account_id)
      → (deps.fetch_pending w).0 ≡ ok batches
      → (c : Cycle W) × (anchor_once sdk deps env w ≡ ok c)
        × (settled_ids c.sent ≡ map (λ b. b.id) batches)
        × (c.anchored ≡ accepted_count c.sent)
  unfolding anchor_once anchor_pending
  anchor_once-accounted env w config account_id batches keys fetched =
      let start : Cycle W = record { world = (deps.fetch_pending w).1; anchored = 0; sent = [] } in
      let done =
        anchor_all-IsAccounted config account_id batches start []
          (unfold settled_ids in refl, unfold accepted_count in refl) in
      (anchor_all sdk deps config account_id start batches, rw (keys, fetched) refl, done.0, done.1)
