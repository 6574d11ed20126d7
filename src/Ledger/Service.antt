-- ===== src/Ledger/Service.antt =====
-- `LedgerVerificationService.verify`: answers from the cache, from a read in flight, or from a read
-- of their own. The state changes when a caller asks and when a read ends, in any order.
use proofchain.Prelude.{
  Text, text, ℕ, Bool, true, false, Option, none, some, List, [], ◌∷◌, ◌++◌, map,
}
use proofchain.Ledger.{LedgerConfirmation}
use proofchain.Ledger.Reading.{AnchorToVerify}
use proofchain.Table.{get, put, delete}

pub record Asked : Type 0 where
  pub caller : ℕ
  pub anchor : AnchorToVerify

pub record Cached : Type 0 where
  pub key : Text
  pub confirmation : LedgerConfirmation

-- A promise that has not settled: the anchor that is read, and who waits for it.
pub record Flight : Type 0 where
  pub key : Text
  pub anchor : AnchorToVerify
  pub callers : List Asked

pub record Answer : Type 0 where
  pub asked : Asked
  pub confirmation : LedgerConfirmation

pub record LedgerService : Type 0 where
  pub confirmed : List Cached
  pub in_flight : List Flight
  pub answers : List Answer

unfoldable pub cache_key : AnchorToVerify → Text
cache_key anchor = anchor.stellar_tx_hash ++ (text ":" ++ anchor.merkle_root)

abbrev pub cached_key : Cached → Text
cached_key c = c.key

abbrev pub flight_key : Flight → Text
flight_key f = f.key

unfoldable pub answer_to : LedgerConfirmation → Asked → Answer
answer_to c a = record { asked = a; confirmation = c }

-- Where the cache has no answer.
unfoldable pub join_or_read : Option Flight → LedgerService → Asked → LedgerService
join_or_read (some f) s a = record s {
  in_flight = put flight_key s.in_flight (record f { callers = f.callers ++ a ∷ [] });
}
join_or_read none s a = record s {
  in_flight =
      put flight_key s.in_flight
        (record { key = cache_key a.anchor; anchor = a.anchor; callers = a ∷ [] });
}

unfoldable pub answer_or_wait : Option Cached → LedgerService → Asked → LedgerService
answer_or_wait (some c) s a = record s { answers = s.answers ++ answer_to c.confirmation a ∷ [] }
answer_or_wait none s a = join_or_read (get flight_key s.in_flight (cache_key a.anchor)) s a

-- `verify`, up to its first `await`.
unfoldable pub verify : LedgerService → Asked → LedgerService
verify s a = answer_or_wait (get cached_key s.confirmed (cache_key a.anchor)) s a

-- Only positives are cached.
unfoldable pub remember : Option Bool → Text → LedgerConfirmation → List Cached → List Cached
remember (some true) key c confirmed =
    put cached_key confirmed (record { key = key; confirmation = c })
remember (some false) key c confirmed = confirmed
remember none key c confirmed = confirmed

unfoldable pub end_flight :
    Option Flight → Text → (AnchorToVerify → LedgerConfirmation) → LedgerService → LedgerService
end_flight none key read s = s
end_flight (some f) key read s =
    let c = read f.anchor in
    record {
      confirmed = remember c.root_matches_ledger key c s.confirmed;
      in_flight = delete flight_key s.in_flight key;
      answers = s.answers ++ map (answer_to c) f.callers;
    }

-- The read for a key ends, where `read` is what it finds of an anchor.
unfoldable pub settle_read :
    Text → (AnchorToVerify → LedgerConfirmation) → LedgerService → LedgerService
settle_read key read s = end_flight (get flight_key s.in_flight key) key read s

abbrev pub empty_service : LedgerService
empty_service = record { confirmed = []; in_flight = []; answers = [] }
