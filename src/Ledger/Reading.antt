-- ===== src/Ledger/Reading.antt =====
-- `readFromLedger` of ledger-verification.service.ts: when the ledger confirms a root.
use proofchain.Prelude.{
  ◌==◌, if◌then◌else◌, ok, err, Text, text, truthy, text_eq, ℕ, Bool, true, false, ◌&&◌, ◌||◌,
  Option, none, some,
}
use proofchain.Ledger.{LedgerConfirmation}
use proofchain.Ledger.Horizon.{HorizonResult, HorizonTransaction, unavailable, unknown_document}

pub record AnchorToVerify : Type 0 where
  pub stellar_tx_hash : Text
  pub merkle_root : Text
  pub data_entry_key : Text

-- What Horizon answers while one anchor is read.
pub record HorizonView : Type 0 where
  pub transaction_of : Text → HorizonResult HorizonTransaction
  pub account_data_of : Text → HorizonResult (Text → Option Text)

unfoldable pub unchecked : LedgerConfirmation
unchecked = record {
  checked = false;
  root_matches_ledger = none;
  memo_matches = false;
  data_entry_matches = false;
  ledger = none;
}

-- `value || null`
unfoldable pub nonzero : ℕ → Option ℕ
nonzero n = if n == 0 then none else some n

-- The answer for a transaction that Horizon has, from its success, its memo, the entry and its ledger.
unfoldable pub confirmation_of : Bool → Bool → Bool → Option ℕ → LedgerConfirmation
confirmation_of true memo entry ledger = record {
  checked = true;
  root_matches_ledger = some (memo || entry);
  memo_matches = memo;
  data_entry_matches = entry;
  ledger = ledger;
}
confirmation_of false memo entry ledger = record unchecked {
  checked = true;
  root_matches_ledger = some false;
  ledger = ledger;
}

-- `base64_to_hex` is `Buffer.from(value, "base64").toString("hex")`.
module _ (base64_to_hex : Text → Text) where
  unfoldable pub stands_for : Text → Option Text → Bool
  stands_for root none = false
  stands_for root (some value) = text_eq (base64_to_hex value) root

  unfoldable pub entry_in : Text → Text → HorizonResult (Text → Option Text) → Bool
  entry_in root key (err e) = false
  entry_in root key (ok entries) = stands_for root (entries key)

  -- The account is tested for its truth first.
  unfoldable pub data_entry_carries_root : HorizonView → Option Text → Text → Text → Bool
  data_entry_carries_root view none key root = false
  data_entry_carries_root view (some account) key root =
      entry_in root key (view.account_data_of account)

  unfoldable pub memo_stands : HorizonTransaction → Text → Bool
  memo_stands tx root = text_eq tx.memo_type (text "hash") && stands_for root tx.memo

  unfoldable pub judge_transaction :
      HorizonView → AnchorToVerify → HorizonTransaction → LedgerConfirmation
  judge_transaction view anchor tx =
      confirmation_of tx.successful (memo_stands tx anchor.merkle_root)
        (data_entry_carries_root view (truthy tx.source_account) anchor.data_entry_key
          anchor.merkle_root)
        (nonzero tx.ledger)

  unfoldable pub judge_answer :
      HorizonView → AnchorToVerify → HorizonResult HorizonTransaction → LedgerConfirmation
  judge_answer view anchor (err unknown_document) = record unchecked {
    checked = true;
    root_matches_ledger = some false;
  }
  judge_answer view anchor (err unavailable) = unchecked
  judge_answer view anchor (ok tx) = judge_transaction view anchor tx

  unfoldable pub read_from_ledger : HorizonView → AnchorToVerify → LedgerConfirmation
  read_from_ledger view anchor =
      judge_answer view anchor (view.transaction_of anchor.stellar_tx_hash)
