-- ===== src/Batches/Members.antt =====
-- The rows of each batch after `addEvents` and `removeEvent` have rewritten the table of events.
use proofchain.Prelude.{
  Bool-cases, Option-cases, keep, All, All-keep-cons, All-keep-head, All-keep-tail, Text,
  text_eq_iff, text_eq, ◌≡◌, refl, ◌≢◌, inl, inr, Bool, true, false, ◌&&◌, none, List, [], ◌∷◌, map,
  arith,
}
use proofchain.Database.{BatchEntity, CollectionEventEntity, in_batch}
use proofchain.Batches.{assign, unassign}
use proofchain.Batches.Invariant.{UniqueIds, Fits}
use proofchain.Attempts.{contains}

abbrev Rows : Type 0
Rows = List CollectionEventEntity

All-ids-map :
    (f : CollectionEventEntity → CollectionEventEntity) (id : Text) (es : Rows)
    → ((e : CollectionEventEntity) → (f e).id ≡ e.id)
    → All (λ e'. e'.id ≢ id) es
    → All (λ e'. e'.id ≢ id) (map f es)
All-ids-map f id [] keeps h = tt
All-ids-map f id (e ∷ es) keeps h = (rw (keeps e) h.0, All-ids-map f id es keeps h.1)

pub UniqueIds-map :
    (f : CollectionEventEntity → CollectionEventEntity) (es : Rows)
    → ((e : CollectionEventEntity) → (f e).id ≡ e.id)
    → UniqueIds es
    → UniqueIds (map f es)
UniqueIds-map f [] keeps u = tt
UniqueIds-map f (e ∷ es) keeps u =
    (rw (keeps e) (All-ids-map f e.id es keeps u.0), UniqueIds-map f es keeps u.1)

abbrev pub ids_of : (CollectionEventEntity → Bool) → Rows → List Text
ids_of p es = map (λ c. c.id) (keep p es)

-- An id that no row has is not among the ids of selected rows.
not_selected :
    (p : CollectionEventEntity → Bool) (id : Text) (es : Rows)
    → All (λ e'. e'.id ≢ id) es
    → contains (ids_of p es) id ≡ false
unfolding contains
not_selected p id [] h = refl
not_selected p id (e ∷ es) h = ground (arith, not_selected p id es h.1, text_eq_iff e.id id, h.0)

-- With unique ids, a row whose id is that of a selected row is selected itself.
selected-cons :
    (p : CollectionEventEntity → Bool) (e : CollectionEventEntity) (es rest : Rows)
    → All (λ e'. e'.id ≢ e.id) rest
    → All (λ e'. contains (ids_of p es) e'.id ≡ true → p e' ≡ true) rest
    → All (λ e'. contains (ids_of p (e ∷ es)) e'.id ≡ true → p e' ≡ true) rest
unfolding contains
selected-cons p e es [] d h = tt
selected-cons p e es (x ∷ rest) d h =
    (λ c. ground (arith, text_eq_iff e.id x.id, d.0, h.0), selected-cons p e es rest d.1 h.1)

pub selected :
    (p : CollectionEventEntity → Bool) (es : Rows)
    → UniqueIds es
    → All (λ e. contains (ids_of p es) e.id ≡ true → p e ≡ true) es
unfolding contains
selected p [] u = tt
selected p (e ∷ es) u = (
  λ c. ground (arith, not_selected p e.id es u.0),
  selected-cons p e es es u.0 (selected p es u.1),
)

pub kept_none :
    (p q : CollectionEventEntity → Bool) (es : Rows)
    → keep q (keep p es) ≡ []
    → All (λ e. p e ≡ true → q e ≡ false) es
kept_none p q [] h = tt
kept_none p q (e ∷ es) h = (λ c. ground arith, kept_none p q es (ground arith))

module _ (id : Text) (found : List Text) where
  abbrev pub WereFree : Rows → Type 0
  WereFree = All (λ e. contains found e.id ≡ true → e.batch_id ≡ none)

  pub assign_others :
      (j : Text) (es : Rows)
      → text_eq id j ≡ false
      → WereFree es
      → keep (in_batch j) (map (assign found id) es) ≡ keep (in_batch j) es
  unfolding in_batch assign
  assign_others j [] d h = refl
  assign_others j (e ∷ es) d h = ground (arith, h.0, assign_others j es d h.1)

  pub assign_members :
      (b : BatchEntity) (es : Rows)
      → All (Fits b) (keep (in_batch id) es)
      → All (λ e. contains found e.id ≡ true → Fits b e) es
      → All (Fits b) (keep (in_batch id) (map (assign found id) es))
  unfolding assign
  assign_members b [] m h = tt
  assign_members b (e ∷ es) m h =
      All-keep-cons (Fits b) (in_batch id) (assign found id e) (map (assign found id) es) member
        (assign_members b es (All-keep-tail (Fits b) (in_batch id) e es m) h.1)
    where
      member : in_batch id (assign found id e) ≡ true → Fits b (assign found id e)
      member c = elim (Bool-cases (contains found e.id)) [
        | inl asked ↦
            let fits = h.0 asked in
            rw (asked, assign)
              (record {
                clean = fits.clean;
                same_hub = fits.same_hub;
                same_material = fits.same_material;
              })
        | inr other ↦
            rw (other, assign)
              (All-keep-head (Fits b) (in_batch id) e es m (rw (other, assign) at c))
      ]

-- An event stands in one batch at most.
in_batch_apart :
    (id j : Text) (e : CollectionEventEntity)
    → text_eq id j ≡ false
    → in_batch id e ≡ true
    → in_batch j e ≡ false
unfolding in_batch
in_batch_apart id j e d h = elim (Option-cases e.batch_id) [
  | inl free ↦ rw free
  | inr (x, held) ↦ ground (arith, text_eq_iff x id, text_eq_iff x j, text_eq_iff id j)
]

module _ (id event_id : Text) where
  pub unassign_others :
      (j : Text) (es : Rows)
      → text_eq id j ≡ false
      → keep (in_batch j) (map (unassign event_id id) es) ≡ keep (in_batch j) es
  unfolding in_batch unassign
  unassign_others j [] d = refl
  unassign_others j (e ∷ es) d = ground (arith, in_batch_apart id j e d, unassign_others j es d)

  pub unassign_members :
      (b : BatchEntity) (es : Rows)
      → All (Fits b) (keep (in_batch id) es)
      → All (Fits b) (keep (in_batch id) (map (unassign event_id id) es))
  unfolding unassign in_batch
  unassign_members b [] m = tt
  unassign_members b (e ∷ es) m =
      All-keep-cons (Fits b) (in_batch id) (unassign event_id id e) (map (unassign event_id id) es)
        member (unassign_members b es (All-keep-tail (Fits b) (in_batch id) e es m))
    where
      member : in_batch id (unassign event_id id e) ≡ true → Fits b (unassign event_id id e)
      member c = elim (Bool-cases (text_eq e.id event_id && in_batch id e)) [
        | inl gone ↦ absurd (ground arith)
        | inr stays ↦
            rw (stays, unassign)
              (All-keep-head (Fits b) (in_batch id) e es m (rw (stays, unassign) at c))
      ]
