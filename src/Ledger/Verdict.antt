-- ===== src/Ledger/Verdict.antt =====
-- When the service says that the ledger confirms a root, and when it says that it does not know.
use proofchain.Prelude.{
  &&-true, some_injective, ok, err, Text, text, text_eq_iff, text_eq→eq, truthy, ℕ, ◌≡◌, refl, ap,
  ◌∙◌, ◌≢◌, ◌↔◌, ◌⊎◌, inl, inr, Bool, true, false, Option, none, some,
}
use proofchain.Ledger.Horizon.{HorizonResult, HorizonTransaction, unavailable, unknown_document}
use proofchain.Ledger.Reading.{
  AnchorToVerify, HorizonView, data_entry_carries_root, entry_in, judge_answer, judge_transaction,
  memo_stands, read_from_ledger, stands_for, unchecked, confirmation_of,
}

module _ (base64_to_hex : Text → Text) where
  -- A value in base64 that is there and stands for the root.
  pub StandsFor : Text → Option Text → Type 0
  StandsFor root o = (value : Text) × (o ≡ some value) × (base64_to_hex value ≡ root)

  -- The ledger has the transaction, which succeeded, and its memo is the root, or the entry of its source
  -- account is.
  pub CarriesRoot : HorizonView → AnchorToVerify → Type 0
  CarriesRoot view anchor =
      (tx : HorizonTransaction) × (view.transaction_of anchor.stellar_tx_hash ≡ ok tx)
      × (tx.successful ≡ true)
      × (((tx.memo_type ≡ text "hash") × StandsFor anchor.merkle_root tx.memo)
          ⊎ ((account : Text) × (entries : Text → Option Text) × (truthy tx.source_account
                ≡ some account)
              × (view.account_data_of account ≡ ok entries)
              × StandsFor anchor.merkle_root (entries anchor.data_entry_key)))

  stands_for_iff :
      (root : Text) (o : Option Text) → (stands_for base64_to_hex root o ≡ true) ↔ StandsFor root o
  unfolding stands_for StandsFor
  stands_for_iff root none = ((λ h. cc), (λ (value, e, same). cc))
  stands_for_iff root (some value) = (
    (λ h. (value, refl, text_eq→eq _ root h)),
    (λ (v, e, same). (text_eq_iff _ root).1 (ap base64_to_hex (some_injective e) ∙ same)),
  )

  memo_stands_iff :
      (tx : HorizonTransaction) (root : Text)
      → (memo_stands base64_to_hex tx root ≡ true)
        ↔ ((tx.memo_type ≡ text "hash") × StandsFor root tx.memo)
  unfolding memo_stands
  memo_stands_iff tx root = (
    (λ h. (
      text_eq→eq tx.memo_type (text "hash") (&&-true h).0,
      (stands_for_iff root tx.memo).0 (&&-true h).1,
    )),
    (λ (kind, stands).
        rw ((text_eq_iff tx.memo_type (text "hash")).1 kind, (stands_for_iff root tx.memo).1 stands)
          refl),
  )

  -- The entry of an account, where the account and its entries can be read.
  EntryStands : HorizonView → Option Text → Text → Text → Type 0
  EntryStands view source key root =
      (account : Text) × (entries : Text → Option Text) × (source ≡ some account)
      × (view.account_data_of account ≡ ok entries)
      × StandsFor root (entries key)

  entry_in-stands :
      (root key : Text) (answer : HorizonResult (Text → Option Text))
      → entry_in base64_to_hex root key answer ≡ true
      → (entries : Text → Option Text) × (answer ≡ ok entries) × StandsFor root (entries key)
  unfolding entry_in
  entry_in-stands root key (err e) h = cc
  entry_in-stands root key (ok entries) h = (entries, refl, (stands_for_iff root (entries key)).0 h)

  data_entry_iff :
      (view : HorizonView) (source : Option Text) (key root : Text)
      → (data_entry_carries_root base64_to_hex view source key root ≡ true)
        ↔ EntryStands view source key root
  unfolding data_entry_carries_root EntryStands
  data_entry_iff view none key root = ((λ h. cc), (λ (account, entries, e, answer, stands). cc))
  data_entry_iff view (some account) key root = (
    (λ h.
        let (entries, answer, stands) = entry_in-stands root key _ h in
        (account, entries, refl, answer, stands)),
    (λ (a, entries, e, answer, stands).
        let same = ap view.account_data_of (some_injective e) ∙ answer in
        rw same (unfold entry_in in (stands_for_iff root (entries key)).1 stands)),
  )

  confirmation_of_iff :
      (successful memo entry : Bool) (ledger : Option ℕ)
      → ((confirmation_of successful memo entry ledger).root_matches_ledger ≡ some true)
        ↔ ((successful ≡ true) × ((memo ≡ true) ⊎ (entry ≡ true)))
  unfolding confirmation_of
  confirmation_of_iff false memo entry ledger = ((λ h. cc), (λ (done, how). cc))
  confirmation_of_iff true true entry ledger = ((λ h. (refl, inl refl)), (λ how. refl))
  confirmation_of_iff true false true ledger = ((λ h. (refl, inr refl)), (λ how. refl))
  confirmation_of_iff true false false ledger =
      ((λ h. cc), (λ (done, how). elim how [ inl m ↦ cc | inr e ↦ cc ]))

  answered_by :
      (view : HorizonView) (anchor : AnchorToVerify) (answer : HorizonResult HorizonTransaction)
      → (judge_answer base64_to_hex view anchor answer).root_matches_ledger ≡ some true
      → (tx : HorizonTransaction) × (answer ≡ ok tx)
        × ((judge_transaction base64_to_hex view anchor tx).root_matches_ledger ≡ some true)
  unfolding judge_answer
  answered_by view anchor (err unknown_document) h = cc
  answered_by view anchor (err unavailable) h = unfold unchecked in cc
  answered_by view anchor (ok tx) h = (tx, refl, h)

  confirms :
      (view : HorizonView) (anchor : AnchorToVerify)
      → (read_from_ledger base64_to_hex view anchor).root_matches_ledger ≡ some true
      → CarriesRoot view anchor
  unfolding read_from_ledger CarriesRoot EntryStands judge_transaction
  confirms view anchor h =
      let (tx, found, sure) =
        answered_by view anchor (view.transaction_of anchor.stellar_tx_hash) h in
      let (done, how) = (confirmation_of_iff _ _ _ _).0 sure in
      (
        tx,
        found,
        done,
        elim how [
          | inl memo ↦ inl ((memo_stands_iff tx anchor.merkle_root).0 memo)
          | inr entry ↦ inr (
              (data_entry_iff view (truthy tx.source_account) anchor.data_entry_key
                  anchor.merkle_root).0
                entry)
        ],
      )

  carries :
      (view : HorizonView) (anchor : AnchorToVerify)
      → CarriesRoot view anchor
      → (read_from_ledger base64_to_hex view anchor).root_matches_ledger ≡ some true
  unfolding read_from_ledger judge_answer judge_transaction CarriesRoot EntryStands
  carries view anchor (tx, found, done, how) = rw found (
      (confirmation_of_iff _ _ _ _).1 (
        done,
        elim how [
          | inl memo ↦ inl ((memo_stands_iff tx anchor.merkle_root).1 memo)
          | inr entry ↦ inr (
              (data_entry_iff view (truthy tx.source_account) anchor.data_entry_key
                  anchor.merkle_root).1
                entry)
        ],
      ))

  never_open :
      (successful memo entry : Bool) (ledger : Option ℕ)
      → (confirmation_of successful memo entry ledger).root_matches_ledger ≢ none
  unfolding confirmation_of
  never_open true memo entry ledger h = cc
  never_open false memo entry ledger h = cc

  no_answer :
      (view : HorizonView) (anchor : AnchorToVerify) (answer : HorizonResult HorizonTransaction)
      → ((judge_answer base64_to_hex view anchor answer).root_matches_ledger ≡ none)
        ↔ (answer ≡ err unavailable)
  unfolding judge_answer judge_transaction unchecked
  no_answer view anchor (err unknown_document) = ((λ h. cc), (λ h. cc))
  no_answer view anchor (err unavailable) = ((λ h. refl), (λ h. refl))
  no_answer view anchor (ok tx) = ((λ h. absurd (never_open _ _ _ _ h)), (λ h. cc))

  -- A read says that the ledger has the root exactly when the transaction is there and succeeded and its memo, or the
  -- entry of its source account, is the root; it leaves the question open exactly when Horizon gives no answer
  -- about the transaction, and in all other cases it says that the ledger does not have it.
  pub read_from_ledger_iff :
      (view : HorizonView) (anchor : AnchorToVerify)
      → (((read_from_ledger base64_to_hex view anchor).root_matches_ledger ≡ some true)
          ↔ CarriesRoot view anchor)
        × (((read_from_ledger base64_to_hex view anchor).root_matches_ledger ≡ none)
            ↔ (view.transaction_of anchor.stellar_tx_hash ≡ err unavailable))
  read_from_ledger_iff view anchor = (
    (confirms view anchor, carries view anchor),
    unfold read_from_ledger in no_answer view anchor _,
  )
