-- ===== src/Ledger/Examples.antt =====
-- The theorems on ledger-verification.service.ts: two callers share a read, a third gets its answer
-- from the cache.
use proofchain.Prelude.{
  replicate, All, Any, ok, err, Text, text, text_eq, ℕ, ◌≡◌, refl, ◌↔◌, true, none, some, List, [],
  ◌∷◌, map,
}
use proofchain.Ledger.Horizon.{unavailable}
use proofchain.Ledger.Reading.{
  AnchorToVerify, HorizonView, read_from_ledger, confirmation_of, data_entry_carries_root,
  judge_answer, judge_transaction, memo_stands, stands_for,
}
use proofchain.Ledger.Service.{
  LedgerService, Asked, answer_or_wait, answer_to, cache_key, empty_service, end_flight,
  join_or_read, remember, settle_read, verify, Flight, flight_key,
}
use proofchain.Hashing.Hex.{is_hash_hex, is_hex_unit}
use proofchain.Table.{get, put, delete}
use proofchain.Ledger.Verdict.{CarriesRoot, read_from_ledger_iff}
use proofchain.Ledger.Served.{
  Answers, LedgerRead, ServiceReach, asks, ends, first_start, verify-IsRead,
}

abbrev decoded : Text → Text
decoded t = t

abbrev anchor : AnchorToVerify
anchor = record {
  stellar_tx_hash = text "tx";
  merkle_root = replicate 64 48;
  data_entry_key = text "proofchain:batch:b";
}

abbrev view : HorizonView
view = record {
  transaction_of = λ hash. ok (record {
    hash = hash;
    ledger = 7;
    successful = true;
    memo_type = text "hash";
    memo = some (replicate 64 48);
    source_account = none;
  });
  account_data_of = λ account. err unavailable;
}

abbrev asked_by : ℕ → Asked
asked_by n = record { caller = n; anchor = anchor }

root_is_hash : is_hash_hex anchor.merkle_root ≡ true
unfolding is_hash_hex is_hex_unit
root_is_hash = refl

abbrev after_read : LedgerService
after_read =
    settle_read (cache_key anchor) (read_from_ledger decoded view)
      (verify (verify empty_service (asked_by 1)) (asked_by 2))

abbrev three_served : LedgerService
three_served = verify after_read (asked_by 3)

-- The read that the first two wait for.
abbrev shared_flight : Flight
shared_flight = record {
  key = cache_key anchor;
  anchor = anchor;
  callers = asked_by 1 ∷ asked_by 2 ∷ [];
}

two_wait :
    get flight_key
      (verify (verify empty_service (asked_by 1)) (asked_by 2)).in_flight
      (cache_key anchor)
    ≡ some shared_flight
unfolding verify answer_or_wait join_or_read cache_key text_eq get put
two_wait = refl

abbrev one_read : List LedgerRead
one_read = record { anchor = anchor; view = view } ∷ []

three_served-reached : ServiceReach decoded three_served one_read
three_served-reached =
    asks after_read one_read (asked_by 3)
      (ends (verify (verify empty_service (asked_by 1)) (asked_by 2)) [] (cache_key anchor) view
        shared_flight
        (asks (verify empty_service (asked_by 1)) [] (asked_by 2)
          (asks empty_service [] (asked_by 1) first_start root_is_hash) root_is_hash)
        two_wait)
      root_is_hash

verify-IsRead_example :
    All (λ a. Any (Answers decoded a) one_read) three_served.answers
    × All (λ c. c.confirmation.root_matches_ledger ≡ some true) three_served.confirmed
verify-IsRead_example = verify-IsRead decoded three_served one_read three_served-reached

callers_served : map (λ a. a.asked.caller) three_served.answers ≡ 1 ∷ 2 ∷ 3 ∷ []
unfolding verify answer_or_wait join_or_read settle_read end_flight remember cache_key
    read_from_ledger judge_answer judge_transaction confirmation_of memo_stands stands_for
    data_entry_carries_root text_eq answer_to get put delete
callers_served = refl

read_from_ledger_iff_example :
    (((read_from_ledger decoded view anchor).root_matches_ledger ≡ some true)
      ↔ CarriesRoot decoded view anchor)
    × (((read_from_ledger decoded view anchor).root_matches_ledger ≡ none)
        ↔ (view.transaction_of anchor.stellar_tx_hash ≡ err unavailable))
read_from_ledger_iff_example = read_from_ledger_iff decoded view anchor
