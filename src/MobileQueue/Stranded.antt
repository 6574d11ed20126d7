-- ===== src/MobileQueue/Stranded.antt =====
-- A pass with a connection leaves no record on its way.
use proofchain.Prelude.{
  Bool-cases, keep, exists, All, All-map, All-mapped, Result, ok, err, Text, text_eq_refl, truthy,
  text_eq, ℕ, ◌≡◌, refl, sym, ap, subst, ◌∙◌, inl, inr, Bool, true, false, not, ◌&&◌, ◌||◌, List,
  [], ◌∷◌, arith,
}
use proofchain.MobileQueue.{
  QueuedWeighIn, Saved, is_syncing, patched, read_all, update, insert_by_age, is_open, oldest_first,
  pending,
}
use proofchain.MobileQueue.Sync.{
  SyncDeps, IngestResponse, Pass, give_back, mark_queued, mark_rejected, mark_synced, mark_syncing,
  patch_record, refuse, settle, sync_one, sync_records, take_answer, drain, known_id, mark_photo,
  send_again, send_photos, sync_pending, try_photo,
}

module _ (id : Text) (patch : QueuedWeighIn → QueuedWeighIn) (r : QueuedWeighIn) where
  patched_own : text_eq r.id id ≡ true → patched id patch r ≡ record (patch r) { id = r.id }
  unfolding patched
  patched_own own = rw own refl

  patched_other : text_eq r.id id ≡ false → patched id patch r ≡ r
  unfolding patched
  patched_other other = rw other refl

abbrev among : List QueuedWeighIn → Text → Bool
among rs id = exists (λ (r : QueuedWeighIn). text_eq id r.id) rs

-- A record on its way is one of those still to come.
abbrev IsDue : List QueuedWeighIn → QueuedWeighIn → Type 0
IsDue rs x = is_syncing x.status ≡ true → among rs x.id ≡ true

begin-IsDue :
    (r : QueuedWeighIn) (rs : List QueuedWeighIn) (x : QueuedWeighIn)
    → IsDue (r ∷ rs) x
    → IsDue (r ∷ rs) (patched r.id mark_syncing x)
begin-IsDue r rs x d = elim (Bool-cases (text_eq x.id r.id)) [
  | inl own ↦ subst (IsDue (r ∷ rs)) (sym (patched_own r.id mark_syncing x own)) (λ s. rw own refl)
  | inr other ↦ subst (IsDue (r ∷ rs)) (sym (patched_other r.id mark_syncing x other)) d
]

abbrev Ends : (QueuedWeighIn → QueuedWeighIn) → Type 0
Ends patch = (y : QueuedWeighIn) → is_syncing (patch y).status ≡ false

mark_queued-Ends : (attempts : ℕ) (message : Text) → Ends (mark_queued attempts message)
unfolding mark_queued
mark_queued-Ends attempts message y = refl

mark_rejected-Ends : (response : IngestResponse) (now : ℕ) → Ends (mark_rejected response now)
unfolding mark_rejected
mark_rejected-Ends response now y = refl

mark_synced-Ends :
    (response : IngestResponse) (now : ℕ) (photo : Bool) → Ends (mark_synced response now photo)
unfolding mark_synced
mark_synced-Ends response now photo y = refl

end-IsDue :
    (r : QueuedWeighIn) (rs : List QueuedWeighIn) (patch : QueuedWeighIn → QueuedWeighIn)
    (x : QueuedWeighIn)
    → Ends patch
    → IsDue (r ∷ rs) x
    → IsDue rs (patched r.id patch x)
end-IsDue r rs patch x ended d = elim (Bool-cases (text_eq x.id r.id)) [
  | inl own ↦ rw (patched_own r.id patch x own) (λ s. let e = ended x in cc)
  | inr other ↦
      rw (patched_other r.id patch x other)
        (λ s. let found = d s in subst (λ b. (b || among rs x.id) ≡ true) other found)
]

photo-IsDue :
    (id : Text) (now : ℕ) (x : QueuedWeighIn)
    → IsDue [] x
    → IsDue [] (patched id (mark_photo now) x)
unfolding patched mark_photo
photo-IsDue id now x d = elim (Bool-cases (text_eq x.id id)) [
  | inl own ↦ rw own d
  | inr other ↦ rw other d
]

undue : (x : QueuedWeighIn) → IsDue [] x → is_syncing x.status ≡ false
undue x d = elim (Bool-cases (is_syncing x.status)) [
  | inl on ↦ let lost = d on in cc
  | inr off ↦ off
]

among-insert_by_age :
    (r : QueuedWeighIn) (rs : List QueuedWeighIn) (id : Text)
    → among (insert_by_age r rs) id ≡ among (r ∷ rs) id
unfolding insert_by_age
among-insert_by_age r [] id = refl
among-insert_by_age r (x ∷ rs) id = ground (arith, among-insert_by_age r rs id)

among-oldest_first :
    (rs : List QueuedWeighIn) (id : Text) → among (oldest_first rs) id ≡ among rs id
unfolding oldest_first
among-oldest_first [] id = refl
among-oldest_first (r ∷ rs) id =
    among-insert_by_age r (oldest_first rs) id
    ∙ ap (λ b. text_eq id r.id || b) (among-oldest_first rs id)

due_here :
    (r : QueuedWeighIn) (rs : List QueuedWeighIn)
    → is_syncing r.status ≡ true
    → among (keep (λ x. is_open x.status) (r ∷ rs)) r.id ≡ true
due_here r rs s = ground (arith, text_eq_refl r.id)

due_later :
    (r : QueuedWeighIn) (rs : List QueuedWeighIn) (id : Text)
    → among (keep (λ x. is_open x.status) rs) id ≡ true
    → among (keep (λ x. is_open x.status) (r ∷ rs)) id ≡ true
due_later r rs id s = ground arith

open_records :
    (rs : List QueuedWeighIn)
    → All (λ x. is_syncing x.status ≡ true → among (keep (λ r. is_open r.status) rs) x.id ≡ true) rs
open_records [] = tt
open_records (r ∷ rs) =
    (due_here r rs, All-map (λ x d s. due_later r rs x.id (d s)) rs (open_records rs))

pending-IsDue : (saved : Saved) → All (IsDue (pending saved)) (read_all saved)
unfolding pending
pending-IsDue saved =
    All-map (λ x d s. among-oldest_first _ x.id ∙ d s) (read_all saved)
      (open_records (read_all saved))

update-All :
    (P Q : QueuedWeighIn → Type 0) (saved : Saved) (id : Text)
    (patch : QueuedWeighIn → QueuedWeighIn)
    → ((x : QueuedWeighIn) → P x → Q (patched id patch x))
    → All P (read_all saved)
    → All Q (read_all (update saved id patch))
unfolding update read_all
update-All P Q saved id patch f h =
    All-mapped Q (patched id patch) (read_all saved) (All-map f (read_all saved) h)

module _ {W : Type 0} (deps : SyncDeps W) (backend_url : Text) where
  -- An answer ends in one mark, which is none on its way.
  take_answer-Ends :
      (r : QueuedWeighIn) (answer : Result Text IngestResponse) (p : Pass W)
      → (patch : QueuedWeighIn → QueuedWeighIn) × Ends patch
        × ((take_answer deps backend_url r answer p).store ≡ update p.store r.id patch)
  unfolding take_answer settle refuse give_back patch_record
  take_answer-Ends r (err message) p = (_, (mark_queued-Ends _ message), refl)
  take_answer-Ends r (ok response) p =
      elim (Bool-cases (response.quarantined && not response.duplicate)) [
        | inl refused ↦ rw refused (_, (mark_rejected-Ends response _), refl)
        | inr fine ↦ rw fine (_, (mark_synced-Ends response _ _), refl)
      ]

  sync_records-IsDue :
      (rs : List QueuedWeighIn) (p : Pass W)
      → All (IsDue rs) (read_all p.store)
      → All (IsDue []) (read_all (sync_records deps backend_url p rs).store)
  unfolding sync_records sync_one patch_record
  sync_records-IsDue [] p d = d
  sync_records-IsDue (r ∷ rs) p d =
      let answered = take_answer-Ends r (deps.post backend_url r p.world).0 _ in
      sync_records-IsDue rs _ (
        subst (λ s. All (IsDue rs) (read_all s)) (sym answered.2)
          (update-All (IsDue (r ∷ rs)) (IsDue rs) _ r.id answered.0
            (λ x. end-IsDue r rs answered.0 x answered.1)
            (update-All (IsDue (r ∷ rs)) (IsDue (r ∷ rs)) p.store r.id mark_syncing
              (begin-IsDue r rs) d)))

  send_again-IsDue :
      (r : QueuedWeighIn) (p : Pass W)
      → All (IsDue []) (read_all p.store)
      → All (IsDue []) (read_all (send_again deps backend_url p r).store)
  unfolding send_again patch_record
  send_again-IsDue r p d =
      elim (Bool-cases
        (try_photo deps backend_url (truthy r.photo_uri)
          (known_id deps backend_url r.server_event_id) p.world).0) [
            | inl sent ↦
                rw sent
                  (update-All (IsDue []) (IsDue []) p.store r.id _ (λ x. photo-IsDue r.id _ x) d)
            | inr lost ↦ rw lost d
          ]

  send_photos-IsDue :
      (rs : List QueuedWeighIn) (p : Pass W)
      → All (IsDue []) (read_all p.store)
      → All (IsDue []) (read_all (send_photos deps backend_url p rs).store)
  unfolding send_photos
  send_photos-IsDue [] p d = d
  send_photos-IsDue (r ∷ rs) p d = send_photos-IsDue rs _ (send_again-IsDue r p d)

  -- With a connection a pass leaves no record on its way: each one that was queued, or that an earlier pass
  -- left on its way, is queued again or settled, whatever the network answers.
  pub sync_pending-settles :
      (saved : Saved) (w : W)
      → (deps.is_online w).0 ≡ true
      → All
          (λ r. is_syncing r.status ≡ false)
          (read_all (sync_pending deps backend_url saved w).store)
  unfolding sync_pending drain
  sync_pending-settles saved w online = rw online (
      All-map (λ r d. undue r d) _
        (send_photos-IsDue _ _ (sync_records-IsDue (pending saved) _ (pending-IsDue saved))))
