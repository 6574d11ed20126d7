-- ===== src/Batches/Totals.antt =====
-- The canonical order changes neither the number of the events nor their weight.
use proofchain.Prelude.{
  Bool-cases, length, suc, ◌≡◌, refl, ap, ◌∙◌, inl, inr, List, [], ◌∷◌, arith, ℤ, int_laws, ◌+ℤ◌,
}
use proofchain.Database.{CollectionEventEntity, insert_event, order_events, before}
use proofchain.Batches.{sum_weights}
use proofchain.Merkle.{first}

sum_weights-swap :
    (a : ℤ) (x y : CollectionEventEntity) (es : List CollectionEventEntity)
    → sum_weights (a +ℤ x.weight +ℤ y.weight) es ≡ sum_weights (a +ℤ y.weight +ℤ x.weight) es
sum_weights-swap a x y es = ap (λ s. sum_weights s es) (omega int_laws)

sum_weights-insert :
    (a : ℤ) (e : CollectionEventEntity) (es : List CollectionEventEntity)
    → sum_weights a (insert_event e es) ≡ sum_weights (a +ℤ e.weight) es
unfolding sum_weights insert_event
sum_weights-insert a e [] = refl
sum_weights-insert a e (x ∷ es) = elim (Bool-cases (before e x)) [
  | inl first ↦ rw (first, insert_event)
  | inr later ↦
      rw (later, insert_event) (sum_weights-insert (a +ℤ x.weight) e es ∙ sum_weights-swap a x e es)
]

pub sum_weights-order_events :
    (a : ℤ) (es : List CollectionEventEntity) → sum_weights a (order_events es) ≡ sum_weights a es
unfolding sum_weights order_events
sum_weights-order_events a [] = refl
sum_weights-order_events a (e ∷ es) =
    sum_weights-insert a e (order_events es) ∙ sum_weights-order_events (a +ℤ e.weight) es

length-insert_event :
    (e : CollectionEventEntity) (es : List CollectionEventEntity)
    → length (insert_event e es) ≡ suc (length es)
unfolding insert_event
length-insert_event e [] = refl
length-insert_event e (x ∷ es) = ground (arith, length-insert_event e es)

pub length-order_events : (es : List CollectionEventEntity) → length (order_events es) ≡ length es
unfolding order_events
length-order_events [] = refl
length-order_events (e ∷ es) =
    length-insert_event e (order_events es) ∙ ap suc (length-order_events es)
