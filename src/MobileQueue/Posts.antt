-- ===== src/MobileQueue/Posts.antt =====
-- What a pass posts.
use proofchain.Prelude.{
  Bool-cases, Result, ok, err, Text, truthy, ◌≡◌, refl, sym, ap, ◌∙◌, inl, inr, Bool, true, false,
  not, ◌&&◌, Option, none, some, List, [], ◌∷◌, ◌++◌, append_assoc, append-nil,
}
use proofchain.MobileQueue.{QueuedWeighIn, Saved, pending, pending_photos}
use proofchain.MobileQueue.Sync.{
  IngestResponse, Pass, SyncDeps, SyncOutcome, drain, give_back, known_id, no_outcome, patch_record,
  record_photo, refuse, send_again, send_photos, settle, sync_one, sync_pending, sync_records,
  take_answer, try_photo,
}

-- The same network, which notes each weigh-in that is posted.
unfoldable pub noting : {W : Type 0} → SyncDeps W → SyncDeps (W × List QueuedWeighIn)
noting deps = record {
  is_online = λ w. ((deps.is_online w.0).0, ((deps.is_online w.0).1, w.1));
  post = λ url r w. ((deps.post url r w.0).0, ((deps.post url r w.0).1, w.1 ++ r ∷ []));
  send_photo = λ url event_id uri w.
      ((deps.send_photo url event_id uri w.0).0, ((deps.send_photo url event_id uri w.0).1, w.1));
  clock = λ w. deps.clock w.0;
}

-- A pass without the notes.
abbrev pub forget : {W : Type 0} → Pass (W × List QueuedWeighIn) → Pass W
forget p = record { store = p.store; world = p.world.0; outcome = p.outcome }

module _ {W : Type 0} (deps : SyncDeps W) (url : Text) where
  try_photo-noting :
      (uri : Option Text) (event_id : Text) (w : W × List QueuedWeighIn)
      → try_photo (noting deps) url uri event_id w
        ≡ ((try_photo deps url uri event_id w.0).0, ((try_photo deps url uri event_id w.0).1, w.1))
  unfolding try_photo noting
  try_photo-noting none event_id w = refl
  try_photo-noting (some uri) event_id w = refl

  record_photo-noting :
      (b : Bool) (o : SyncOutcome) → record_photo (noting deps) url b o ≡ record_photo deps url b o
  unfolding record_photo
  record_photo-noting true o = refl
  record_photo-noting false o = refl

  settle-noting :
      (r : QueuedWeighIn) (response : IngestResponse) (p : Pass (W × List QueuedWeighIn))
      → (forget (settle (noting deps) url r response p) ≡ settle deps url r response (forget p))
        × ((settle (noting deps) url r response p).world.1 ≡ p.world.1)
  unfolding settle patch_record noting
  settle-noting r response p =
      rw (try_photo-noting (truthy r.photo_uri) response.event_id p.world)
        (rw (record_photo-noting _ _) refl, refl)

  take_answer-noting :
      (r : QueuedWeighIn) (answer : Result Text IngestResponse) (p : Pass (W × List QueuedWeighIn))
      → (forget (take_answer (noting deps) url r answer p)
          ≡ take_answer deps url r answer (forget p))
        × ((take_answer (noting deps) url r answer p).world.1 ≡ p.world.1)
  unfolding take_answer refuse give_back patch_record noting
  take_answer-noting r (err message) p = (refl, refl)
  take_answer-noting r (ok response) p =
      elim (Bool-cases (response.quarantined && not response.duplicate)) [
        | inl refused ↦ rw refused (refl, refl)
        | inr fine ↦ rw fine (settle-noting r response p)
      ]

  sync_records-noting :
      (rs : List QueuedWeighIn) (p : Pass (W × List QueuedWeighIn))
      → (forget (sync_records (noting deps) url p rs) ≡ sync_records deps url (forget p) rs)
        × ((sync_records (noting deps) url p rs).world.1 ≡ p.world.1 ++ rs)
  unfolding sync_records sync_one patch_record noting
  sync_records-noting [] p = (refl, sym (append-nil p.world.1))
  sync_records-noting (r ∷ rs) p =
      let one = take_answer-noting r (deps.post url r p.world.0).0 _ in
      let more = sync_records-noting rs _ in
      (
        more.0 ∙ ap (λ q. sync_records deps url q rs) one.0,
        more.1 ∙ ap (λ t. t ++ rs) one.1 ∙ append_assoc p.world.1 (r ∷ []) rs,
      )

  send_again-noting :
      (r : QueuedWeighIn) (p : Pass (W × List QueuedWeighIn))
      → (forget (send_again (noting deps) url p r) ≡ send_again deps url (forget p) r)
        × ((send_again (noting deps) url p r).world.1 ≡ p.world.1)
  unfolding send_again patch_record noting known_id
  send_again-noting r p =
      let id = known_id deps url r.server_event_id in
      elim (Bool-cases (try_photo deps url (truthy r.photo_uri) id p.world.0).0) [
        | inl sent ↦
            rw (try_photo-noting (truthy r.photo_uri) id p.world, sent)
              (rw (record_photo-noting true p.outcome) refl, refl)
        | inr lost ↦
            rw (try_photo-noting (truthy r.photo_uri) id p.world, lost)
              (rw (record_photo-noting false p.outcome) refl, refl)
      ]

  send_photos-noting :
      (rs : List QueuedWeighIn) (p : Pass (W × List QueuedWeighIn))
      → (forget (send_photos (noting deps) url p rs) ≡ send_photos deps url (forget p) rs)
        × ((send_photos (noting deps) url p rs).world.1 ≡ p.world.1)
  unfolding send_photos
  send_photos-noting [] p = (refl, refl)
  send_photos-noting (r ∷ rs) p =
      let one = send_again-noting r p in
      let more = send_photos-noting rs (send_again (noting deps) url p r) in
      (more.0 ∙ ap (λ q. send_photos deps url q rs) one.0, more.1 ∙ one.1)

  -- Noting the posts changes nothing else, and the posts of a pass with a connection are the records that
  -- are pending, in their order.
  pub sync_pending-noting :
      (saved : Saved) (w : W)
      → (deps.is_online w).0 ≡ true
      → (forget (sync_pending (noting deps) url saved (w, [])) ≡ sync_pending deps url saved w)
        × ((sync_pending (noting deps) url saved (w, [])).world.1 ≡ pending saved)
  unfolding sync_pending drain noting
  sync_pending-noting saved w online =
      let start : Pass (W × List QueuedWeighIn) = record {
        store = saved;
        world = ((deps.is_online w).1, []);
        outcome = no_outcome;
      } in
      let went = sync_records-noting (pending saved) start in
      let drained = sync_records (noting deps) url start (pending saved) in
      let photos = send_photos-noting (pending_photos drained.store) drained in
      rw online (
        photos.0 ∙ ap (λ (q : Pass W). send_photos deps url q (pending_photos q.store)) went.0,
        photos.1 ∙ went.1,
      )
