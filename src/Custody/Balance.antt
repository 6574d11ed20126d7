-- ===== src/Custody/Balance.antt =====
-- The weights of a recorded hand-over.
use proofchain.Prelude.{
  Option-cases, is_none, ok, Text, truthy, ℕ, zero, suc, ◌≡◌, refl, ◌⊎◌, inl, inr, true, false, not,
  ◌&&◌, Option, none, some, List, [], ◌∷◌, ◌++◌, arith, ℤ, pos, negsuc, ◌≤ℤ◌, ltb_ℤ, int_laws, ◌+ℤ◌,
  ◌-ℤ◌,
}
use proofchain.Database.{BatchEntity, Database, find_batch}
use proofchain.Custody.{
  CreateCustodyTransfer, CustodyTransferEntity, hand_over, stated_reason, is_zero, transfer_row,
}

explained :
    (variance : ℤ) (reason : Option Text)
    → (not (is_zero variance) && is_none (truthy reason)) ≡ false
    → (variance ≡ pos 0) ⊎ ((c : ℕ) × (s : Text) × (truthy reason ≡ some (c ∷ s)))
explained (pos zero) reason h = inl refl
explained (pos (suc n)) none h = absurd (ground arith)
explained (pos (suc n)) (some []) h = absurd (ground arith)
explained (pos (suc n)) (some (c ∷ s)) h = inr (c, s, refl)
explained (negsuc n) none h = cc
explained (negsuc n) (some []) h = cc
explained (negsuc n) (some (c ∷ s)) h = inr (c, s, refl)

no_reason : (variance : ℤ) → (not (is_zero variance) && true) ≡ false → variance ≡ pos 0
no_reason (pos zero) h = refl
no_reason (pos (suc n)) h = absurd (ground arith)
no_reason (negsuc n) h = cc

stated :
    (trim : Text → Text) (variance : ℤ) (reason : Option Text)
    → (not (is_zero variance) && is_none (stated_reason trim reason)) ≡ false
    → (variance ≡ pos 0) ⊎ ((c : ℕ) × (s : Text) × (stated_reason trim reason ≡ some (c ∷ s)))
unfolding stated_reason
stated trim variance none h = inl (no_reason variance h)
stated trim variance (some reason) h = explained variance (some (trim reason)) h

balance : (a b : ℤ) → ltb_ℤ a b ≡ false → (b ≤ℤ a) × (b +ℤ (a -ℤ b) ≡ a)
balance a b h = (ground arith, omega int_laws)

-- The row says what was submitted for the batch; a reason that is blank is left out.
pub record Submitted (trim : Text → Text) (batch_id : Text) (dto : CreateCustodyTransfer)
    (t : CustodyTransferEntity) : Type 0 where
  pub same_batch : t.batch_id ≡ batch_id
  pub same_from : t.from_party ≡ dto.from_party
  pub same_to : t.to_party ≡ dto.to_party
  pub same_in : t.weight_in ≡ dto.weight_in
  pub same_out : t.weight_out ≡ dto.weight_out
  pub same_reason : t.reason ≡ stated_reason trim dto.reason
  pub same_instant : t.transferred_at ≡ dto.transferred_at

-- A recorded hand-over is of the batch that was named, which exists, and has the parties, the
-- weights and the instant that were submitted; nothing weighs more after it than before, the variance
-- is what is missing, and a variance other than zero carries a reason that is not empty. The row
-- stands at the end of the table.
pub hand_over_lem :
    (trim : Text → Text) (db : Database) (transfers : List CustodyTransferEntity) (batch_id : Text)
    (dto : CreateCustodyTransfer) (transfers' : List CustodyTransferEntity)
    (t : CustodyTransferEntity)
    → hand_over trim db transfers batch_id dto ≡ ok (transfers', t)
    → ((b : BatchEntity) × (find_batch db batch_id ≡ some b))
      × (transfers' ≡ transfers ++ t ∷ [])
      × Submitted trim batch_id dto t
      × (t.weight_out ≤ℤ t.weight_in)
      × (t.weight_out +ℤ t.variance ≡ t.weight_in)
      × ((t.variance ≡ pos 0) ⊎ ((c : ℕ) × (s : Text) × (t.reason ≡ some (c ∷ s))))
unfolding hand_over transfer_row
hand_over_lem trim db transfers batch_id dto transfers' t h =
    elim (Option-cases (find_batch db batch_id)) [
      | inl missing ↦ absurd (ground arith)
      | inr (b, found) ↦
          let grows : ltb_ℤ dto.weight_in dto.weight_out ≡ false = ground arith in
          let row : t ≡ transfer_row batch_id dto (stated_reason trim dto.reason) = ground arith in
          let weights = balance dto.weight_in dto.weight_out grows in
          let why = stated trim (dto.weight_in -ℤ dto.weight_out) dto.reason (ground arith) in
          (
            (b, found),
            ground arith,
            rw row (record {
              same_batch = refl;
              same_from = refl;
              same_to = refl;
              same_in = refl;
              same_out = refl;
              same_reason = refl;
              same_instant = refl;
            }),
            rw row weights.0,
            rw row weights.1,
            rw row why,
          )
    ]
