-- ===== src/Custody.antt =====
-- apps/backend/src/custody/custody.service.ts: the hand-over of a batch, with the weight that it
-- loses. Weights are in grams; the source rounds the difference of two doubles to them.
pub mod Balance
mod Examples
use proofchain.Prelude.{
  ◌==◌, is_none, throw_if, or_throw, ok, Text, truthy, Bool, false, not, ◌&&◌, Option, none, some,
  List, [], ◌∷◌, ◌++◌, ℤ, pos, negsuc, ltb_ℤ, ◌-ℤ◌, ◌>>=◌, ◌>>◌,
}
use proofchain.Errors.{
  Outcome, bad_request, batch_missing, not_found, unexplained_variance, weight_appears,
}
use proofchain.Database.{Database, find_batch}

pub record CreateCustodyTransfer : Type 0 where
  pub from_party : Text
  pub to_party : Text
  pub weight_in : ℤ
  pub weight_out : ℤ
  pub reason : Option Text
  pub transferred_at : ℤ

pub record CustodyTransferEntity : Type 0 where
  pub batch_id : Text
  pub from_party : Text
  pub to_party : Text
  pub weight_in : ℤ
  pub weight_out : ℤ
  pub variance : ℤ
  pub reason : Option Text
  pub transferred_at : ℤ

abbrev pub is_zero : ℤ → Bool
is_zero (pos n) = n == 0
is_zero (negsuc n) = false

-- `reason?.trim() || null`; `trim` is that of the language.
unfoldable pub stated_reason : (Text → Text) → Option Text → Option Text
stated_reason trim none = none
stated_reason trim (some reason) = truthy (some (trim reason))

unfoldable pub transfer_row : Text → CreateCustodyTransfer → Option Text → CustodyTransferEntity
transfer_row batch_id dto reason = record {
  batch_id = batch_id;
  from_party = dto.from_party;
  to_party = dto.to_party;
  weight_in = dto.weight_in;
  weight_out = dto.weight_out;
  variance = dto.weight_in -ℤ dto.weight_out;
  reason = reason;
  transferred_at = dto.transferred_at;
}

-- The table of transfers is returned with the new row at its end.
unfoldable pub hand_over :
    (Text → Text)
    → Database
    → List CustodyTransferEntity
    → Text
    → CreateCustodyTransfer
    → Outcome (List CustodyTransferEntity × CustodyTransferEntity)
hand_over trim db transfers batch_id dto = do
  batch ← or_throw (find_batch db batch_id) (not_found batch_missing)
  throw_if (ltb_ℤ dto.weight_in dto.weight_out) (bad_request weight_appears)
  throw_if
      (not (is_zero (dto.weight_in -ℤ dto.weight_out)) && is_none (stated_reason trim dto.reason))
      (bad_request (unexplained_variance (dto.weight_in -ℤ dto.weight_out)))
  let row = transfer_row batch_id dto (stated_reason trim dto.reason)
  ok (transfers ++ row ∷ [], row)
