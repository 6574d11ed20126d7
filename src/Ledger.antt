-- ===== src/Ledger.antt =====
-- apps/backend/src/ledger/ledger-verification.service.ts: the anchor read back off the ledger.
pub mod Horizon
pub mod Reading
pub mod Service
pub mod Verdict
pub mod Served
mod Examples
use proofchain.Prelude.{ℕ, Bool, Option}

-- `root_matches_ledger` is `none` when the ledger was not consulted. The time of the check and the
-- text that explains the verdict are left out.
pub record LedgerConfirmation : Type 0 where
  pub checked : Bool
  pub root_matches_ledger : Option Bool
  pub memo_matches : Bool
  pub data_entry_matches : Bool
  pub ledger : Option ℕ
