-- ===== src/MobileQueue/Signed.antt =====
-- What a collector signed stays in the queue as it is while the queue is synced.
use proofchain.Prelude.{
  Bool-cases, Text, text_eq, ℕ, ◌≡◌, refl, ap, ap₂, ◌∙◌, inl, inr, Option, List, [], ◌∷◌, map,
}
use proofchain.MobileQueue.{QueuedWeighIn, Saved, patched, read_all, update}
use proofchain.MobileQueue.Sync.{
  SyncDeps, mark_photo, mark_queued, mark_rejected, mark_synced, mark_syncing, sync_pending,
}
use proofchain.Canonical.{WeighInPayload}
use proofchain.Database.{before}
use proofchain.MobileQueue.Marks.{
  IsMark, Marked, begins, refuses, returns, settles, sync_pending-Marked, then_marked, unmarked,
  uploads,
}

-- What was signed, and the photo and the instant that go with it.
pub record SignedPart : Type 0 where
  pub id : Text
  pub payload : WeighInPayload
  pub signature : Text
  pub photo_uri : Option Text
  pub created_at : ℕ

unfoldable pub signed_part : QueuedWeighIn → SignedPart
signed_part r = record {
  id = r.id;
  payload = r.payload;
  signature = r.signature;
  photo_uri = r.photo_uri;
  created_at = r.created_at;
}

abbrev pub signed_parts : Saved → List SignedPart
signed_parts store = map signed_part (read_all store)

mark_signed :
    (patch : QueuedWeighIn → QueuedWeighIn) (r : QueuedWeighIn)
    → IsMark patch
    → signed_part (patch r) ≡ signed_part r
unfolding signed_part mark_syncing mark_rejected mark_synced mark_queued mark_photo
mark_signed patch r begins = refl
mark_signed patch r (refuses response now) = refl
mark_signed patch r (settles response now photo) = refl
mark_signed patch r (returns attempts message) = refl
mark_signed patch r (uploads now) = refl

map-patched :
    (id : Text) (patch : QueuedWeighIn → QueuedWeighIn) (rs : List QueuedWeighIn)
    → IsMark patch
    → map signed_part (map (patched id patch) rs) ≡ map signed_part rs
unfolding patched
map-patched id patch [] k = refl
map-patched id patch (r ∷ rs) k =
    let rest = map-patched id patch rs k in
    elim (Bool-cases (text_eq r.id id)) [
      | inl own ↦ rw own (
          ap₂ (λ x y. x ∷ y)
            (unfold signed_part in
              ap (λ (s : SignedPart). record s { id = r.id }) (mark_signed patch r k))
            rest)
      | inr other ↦ rw other (ap (λ y. signed_part r ∷ y) rest)
    ]

Marked-signed_parts :
    (store store' : Saved) → Marked store store' → signed_parts store' ≡ signed_parts store
unfolding update read_all
Marked-signed_parts store store' unmarked = refl
Marked-signed_parts store store' (then_marked before id patch m k) =
    map-patched id patch (read_all before) k ∙ Marked-signed_parts store before m

-- However the server and the network answer, the pass drops no weigh-in, adds none and reorders none, and leaves
-- every payload, signature, photo and instant of capture as it was.
pub sync_pending-signed_parts :
    {W : Type 0} (deps : SyncDeps W) (backend_url : Text) (store : Saved) (w : W)
    → signed_parts (sync_pending deps backend_url store w).store ≡ signed_parts store
sync_pending-signed_parts deps backend_url store w =
    Marked-signed_parts store _ (sync_pending-Marked deps backend_url store w)
