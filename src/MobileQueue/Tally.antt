-- ===== src/MobileQueue/Tally.antt =====
-- The counts that a pass returns.
use proofchain.Prelude.{
  Bool-cases, length, keep, Result, ok, err, Text, truthy, ℕ, suc, ◌+◌, ◌≡◌, refl, ap, ◌∙◌, inl,
  inr, Bool, true, false, not, ◌&&◌, List, [], ◌∷◌, arith,
}
use proofchain.MobileQueue.{
  QueuedWeighIn, insert_by_age, oldest_first, Saved, is_open, pending, read_all, pending_photos,
}
use proofchain.MobileQueue.Sync.{
  SyncDeps, Pass, SyncOutcome, give_back, patch_record, record_photo, refuse, settle, sync_one,
  take_answer, IngestResponse, drain, known_id, send_again, send_photos, sync_pending, sync_records,
  try_photo, no_outcome,
}
use proofchain.MobileQueue.Posts.{forget, noting, sync_pending-noting}

length-insert_by_age :
    (r : QueuedWeighIn) (rs : List QueuedWeighIn) → length (insert_by_age r rs) ≡ suc (length rs)
unfolding insert_by_age
length-insert_by_age r [] = refl
length-insert_by_age r (x ∷ rs) = ground (arith, length-insert_by_age r rs)

length-oldest_first : (rs : List QueuedWeighIn) → length (oldest_first rs) ≡ length rs
unfolding oldest_first
length-oldest_first [] = refl
length-oldest_first (r ∷ rs) =
    length-insert_by_age r (oldest_first rs) ∙ ap suc (length-oldest_first rs)

count_on : (a b n : ℕ) → a ≡ b + 1 → a + n ≡ b + suc n
count_on a b n h = omega arith

-- Each record that was tried has one of three ends.
abbrev pub IsTallied : SyncOutcome → Type 0
IsTallied o = o.attempted ≡ o.synced_records + o.rejected_records + o.failed_records

module _ {W : Type 0} (deps : SyncDeps W) (backend_url : Text) where
  record_photo_tally :
      (b : Bool) (o : SyncOutcome)
      → IsTallied o
      → IsTallied (record_photo deps backend_url b o)
        × ((record_photo deps backend_url b o).attempted ≡ o.attempted)
  unfolding record_photo
  record_photo_tally true o t = (t, refl)
  record_photo_tally false o t = (t, refl)

  take_answer_tally :
      (r : QueuedWeighIn) (answer : Result Text IngestResponse) (p : Pass W)
      → p.outcome.attempted
        ≡ suc (p.outcome.synced_records + p.outcome.rejected_records + p.outcome.failed_records)
      → IsTallied (take_answer deps backend_url r answer p).outcome
        × ((take_answer deps backend_url r answer p).outcome.attempted ≡ p.outcome.attempted)
  unfolding take_answer settle refuse give_back patch_record
  take_answer_tally r (err message) p t = (omega arith, refl)
  take_answer_tally r (ok response) p t =
      elim (Bool-cases (response.quarantined && not response.duplicate)) [
        | inl refused ↦ rw refused (omega arith, refl)
        | inr fine ↦ rw fine (record_photo_tally _ _ (omega arith))
      ]

  sync_records_tally :
      (rs : List QueuedWeighIn) (p : Pass W)
      → IsTallied p.outcome
      → IsTallied (sync_records deps backend_url p rs).outcome
        × ((sync_records deps backend_url p rs).outcome.attempted ≡ p.outcome.attempted + length rs)
  unfolding sync_records sync_one patch_record
  sync_records_tally [] p t = (t, omega arith)
  sync_records_tally (r ∷ rs) p t =
      let one = take_answer_tally r (deps.post backend_url r p.world).0 _ (omega arith) in
      let more = sync_records_tally rs _ one.0 in (more.0, more.1 ∙ count_on _ _ (length rs) one.1)

  send_again_tally :
      (r : QueuedWeighIn) (p : Pass W)
      → IsTallied p.outcome
      → IsTallied (send_again deps backend_url p r).outcome
        × ((send_again deps backend_url p r).outcome.attempted ≡ p.outcome.attempted)
  unfolding send_again patch_record
  send_again_tally r p t =
      elim (Bool-cases
        (try_photo deps backend_url (truthy r.photo_uri)
          (known_id deps backend_url r.server_event_id) p.world).0) [
            | inl sent ↦ rw sent (record_photo_tally true p.outcome t)
            | inr lost ↦ rw lost (record_photo_tally false p.outcome t)
          ]

  send_photos_tally :
      (rs : List QueuedWeighIn) (p : Pass W)
      → IsTallied p.outcome
      → IsTallied (send_photos deps backend_url p rs).outcome
        × ((send_photos deps backend_url p rs).outcome.attempted ≡ p.outcome.attempted)
  unfolding send_photos
  send_photos_tally [] p t = (t, refl)
  send_photos_tally (r ∷ rs) p t =
      let one = send_again_tally r p t in
      let more = send_photos_tally rs _ one.0 in (more.0, more.1 ∙ one.1)

  -- With a connection a pass posts every record that is queued or was on its way, once each, the oldest
  -- first, and no other record: noting the posts changes nothing of the pass, and what is noted are these
  -- records. Each of them ends as synced, rejected or failed in the counts.
  pub sync_pending-outcome :
      (saved : Saved) (w : W)
      → (deps.is_online w).0 ≡ true
      → IsTallied (sync_pending deps backend_url saved w).outcome
        × ((sync_pending deps backend_url saved w).outcome.attempted
            ≡ length (keep (λ r. is_open r.status) (read_all saved)))
        × (forget (sync_pending (noting deps) backend_url saved (w, []))
            ≡ sync_pending deps backend_url saved w)
        × ((sync_pending (noting deps) backend_url saved (w, [])).world.1
            ≡ oldest_first (keep (λ r. is_open r.status) (read_all saved)))
  unfolding sync_pending drain pending
  sync_pending-outcome saved w online =
      let tried : no_outcome.attempted + length (pending saved)
          ≡ length (keep (λ r. is_open r.status) (read_all saved)) =
        unfold no_outcome in
        unfold pending in
        omega (arith, length-oldest_first (keep (λ r. is_open r.status) (read_all saved))) in
      let start : Pass W = record {
        store = saved;
        world = (deps.is_online w).1;
        outcome = no_outcome;
      } in
      let went = sync_records_tally (pending saved) start (unfold no_outcome in refl) in
      let photos =
        send_photos_tally
          (pending_photos (sync_records deps backend_url start (pending saved)).store) _ went.0 in
      let posts = sync_pending-noting deps backend_url saved w online in
      (rw online photos.0, rw online (photos.1 ∙ (went.1 ∙ tried)), posts.0, posts.1)
