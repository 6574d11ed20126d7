-- ===== src/Ledger/Served.antt =====
-- What a caller of the ledger service is told is what a read of the ledger has found.
use proofchain.Prelude.{
  Option-cases, length, All, length-append, append_split, Any, Any-map, All-map, All-snoc,
  All-append, All-mapped, Text, ◌≡◌, refl, sym, ap, subst, ◌∙◌, inl, inr, Bool, true, false, Option,
  none, some, List, [], ◌∷◌, arith,
}
use proofchain.Ledger.{LedgerConfirmation}
use proofchain.Ledger.Reading.{AnchorToVerify, HorizonView, read_from_ledger}
use proofchain.Ledger.Service.{
  LedgerService, Answer, Asked, Cached, Flight, cache_key, empty_service, settle_read, verify,
  answer_or_wait, answer_to, cached_key, end_flight, flight_key, join_or_read, remember,
}
use proofchain.Hashing.Hex.{is_hash_hex, is_hash_hex-length}
use proofchain.Table.{All-delete, All-get, All-put, get, get-key}

-- A read of the ledger that ended: the anchor that was read, and what Horizon had for it.
pub record LedgerRead : Type 0 where
  pub anchor : AnchorToVerify
  pub view : HorizonView

module _ (base64_to_hex : Text → Text) where
  -- The states that calls and reads lead to, with the reads that have ended, the last in front.
  pub data ServiceReach : LedgerService → List LedgerRead → Type 0 where
    first_start : ServiceReach empty_service []
    asks :
        (s : LedgerService) (reads : List LedgerRead) (a : Asked)
        → ServiceReach s reads
        → is_hash_hex a.anchor.merkle_root ≡ true
        → ServiceReach (verify s a) reads
    ends :
        (s : LedgerService) (reads : List LedgerRead) (key : Text) (view : HorizonView) (f : Flight)
        → ServiceReach s reads
        → get flight_key s.in_flight key ≡ some f
        → ServiceReach
            (settle_read key (read_from_ledger base64_to_hex view) s)
            (record { anchor = f.anchor; view = view } ∷ reads)

  -- The read is of an anchor with this key, and has found it.
  abbrev HasFound : Text → LedgerConfirmation → LedgerRead → Type 0
  HasFound key c r =
      (cache_key r.anchor ≡ key)
      × (is_hash_hex r.anchor.merkle_root ≡ true)
      × (c ≡ read_from_ledger base64_to_hex r.view r.anchor)

  -- One of the reads has found it.
  pub FoundFor : List LedgerRead → Text → LedgerConfirmation → Type 0
  FoundFor reads key c = Any (HasFound key c) reads

  IsKeyed : Text → Asked → Type 0
  IsKeyed key a = (cache_key a.anchor ≡ key) × (is_hash_hex a.anchor.merkle_root ≡ true)

  CachedIsFound : List LedgerRead → Cached → Type 0
  CachedIsFound reads c =
      (c.confirmation.root_matches_ledger ≡ some true) × FoundFor reads c.key c.confirmation

  FlightIsKeyed : Flight → Type 0
  FlightIsKeyed f =
      (cache_key f.anchor ≡ f.key)
      × (is_hash_hex f.anchor.merkle_root ≡ true)
      × All (IsKeyed f.key) f.callers

  AnswerIsFound : List LedgerRead → Answer → Type 0
  AnswerIsFound reads a =
      FoundFor reads (cache_key a.asked.anchor) a.confirmation
      × (is_hash_hex a.asked.anchor.merkle_root ≡ true)

  record IsServed (reads : List LedgerRead) (s : LedgerService) : Type 0 where
    cached : All (CachedIsFound reads) s.confirmed
    flights : All FlightIsKeyed s.in_flight
    answered : All (AnswerIsFound reads) s.answers

  join_or_read-IsServed :
      (reads : List LedgerRead) (s : LedgerService) (a : Asked)
      → is_hash_hex a.anchor.merkle_root ≡ true
      → IsServed reads s
      → IsServed reads (join_or_read (get flight_key s.in_flight (cache_key a.anchor)) s a)
  unfolding join_or_read FlightIsKeyed IsKeyed
  join_or_read-IsServed reads s a hex v =
      elim (Option-cases (get flight_key s.in_flight (cache_key a.anchor))) [
        | inl alone ↦ rw alone (record {
          cached = v.cached;
          flights =
              All-put flight_key FlightIsKeyed s.in_flight _ (refl, hex, ((refl, hex), tt))
                v.flights;
          answered = v.answered;
        })
        | inr (f, joined) ↦
            let keyed = All-get flight_key FlightIsKeyed s.in_flight _ f v.flights joined in
            let same = get-key flight_key s.in_flight (cache_key a.anchor) f joined in
            rw joined (record {
              cached = v.cached;
              flights =
                  All-put flight_key FlightIsKeyed s.in_flight _
                    (keyed.0, keyed.1, All-snoc (IsKeyed f.key) f.callers a keyed.2 (sym same, hex))
                    v.flights;
              answered = v.answered;
            })
      ]

  verify-IsServed :
      (reads : List LedgerRead) (s : LedgerService) (a : Asked)
      → is_hash_hex a.anchor.merkle_root ≡ true
      → IsServed reads s
      → IsServed reads (verify s a)
  unfolding verify answer_or_wait answer_to CachedIsFound AnswerIsFound
  verify-IsServed reads s a hex v =
      elim (Option-cases (get cached_key s.confirmed (cache_key a.anchor))) [
        | inl unknown ↦ rw unknown (join_or_read-IsServed reads s a hex v)
        | inr (c, hit) ↦
            let known = All-get cached_key (CachedIsFound reads) s.confirmed _ c v.cached hit in
            let same = get-key cached_key s.confirmed (cache_key a.anchor) c hit in
            rw hit (record {
              cached = v.cached;
              flights = v.flights;
              answered =
                  All-snoc (AnswerIsFound reads) s.answers _ v.answered
                    (subst (λ k. FoundFor reads k c.confirmation) same known.1, hex);
            })
      ]

  remember-CachedIsFound :
      (reads : List LedgerRead) (o : Option Bool) (key : Text) (c : LedgerConfirmation)
      (m : List Cached)
      → o ≡ c.root_matches_ledger
      → FoundFor reads key c
      → All (CachedIsFound reads) m
      → All (CachedIsFound reads) (remember o key c m)
  unfolding remember CachedIsFound
  remember-CachedIsFound reads (some true) key c m e found h =
      All-put cached_key (CachedIsFound reads) m _ (sym e, found) h
  remember-CachedIsFound reads (some false) key c m e found h = h
  remember-CachedIsFound reads none key c m e found h = h

  -- A read that ends takes nothing back.
  another-IsServed :
      (reads : List LedgerRead) (r : LedgerRead) (s : LedgerService)
      → IsServed reads s
      → IsServed (r ∷ reads) s
  unfolding CachedIsFound AnswerIsFound FoundFor
  another-IsServed reads r s v = record {
    cached = All-map (λ c (sure, found). (sure, inr found)) s.confirmed v.cached;
    flights = v.flights;
    answered = All-map (λ a (found, hex). (inr found, hex)) s.answers v.answered;
  }

  settle_read-IsServed :
      (reads : List LedgerRead) (s : LedgerService) (key : Text) (view : HorizonView) (f : Flight)
      → get flight_key s.in_flight key ≡ some f
      → IsServed reads s
      → IsServed
          (record { anchor = f.anchor; view = view } ∷ reads)
          (settle_read key (read_from_ledger base64_to_hex view) s)
  unfolding settle_read end_flight answer_to FlightIsKeyed IsKeyed AnswerIsFound FoundFor
  settle_read-IsServed reads s key view f flies w =
      let more : List LedgerRead = record { anchor = f.anchor; view = view } ∷ reads in
      let v = another-IsServed reads (record { anchor = f.anchor; view = view }) s w in
      let keyed = All-get flight_key FlightIsKeyed s.in_flight key f v.flights flies in
      let same = get-key flight_key s.in_flight key f flies in
      let c = read_from_ledger base64_to_hex view f.anchor in
      rw flies (record {
        cached =
            remember-CachedIsFound more _ key c s.confirmed refl
              (inl (keyed.0 ∙ same, keyed.1, refl)) v.cached;
        flights = All-delete flight_key FlightIsKeyed s.in_flight key v.flights;
        answered = All-append (AnswerIsFound more) s.answers _ v.answered (
            All-mapped (AnswerIsFound more) (answer_to c) f.callers (
              All-map (λ a own. (inl (keyed.0 ∙ sym own.0, keyed.1, refl), own.1)) f.callers
                keyed.2));
      })

  ServiceReach-IsServed :
      (s : LedgerService) (reads : List LedgerRead) → ServiceReach s reads → IsServed reads s
  ServiceReach-IsServed _ _ first_start = record { cached = tt; flights = tt; answered = tt }
  ServiceReach-IsServed _ _ (asks s reads a r hex) =
      verify-IsServed reads s a hex (ServiceReach-IsServed s reads r)
  ServiceReach-IsServed _ _ (ends s reads key view f r flies) =
      settle_read-IsServed reads s key view f flies (ServiceReach-IsServed s reads r)

  cache_key_injective :
      (a b : AnchorToVerify)
      → is_hash_hex a.merkle_root ≡ true
      → is_hash_hex b.merkle_root ≡ true
      → cache_key a ≡ cache_key b
      → (a.stellar_tx_hash ≡ b.stellar_tx_hash) × (a.merkle_root ≡ b.merkle_root)
  unfolding cache_key
  cache_key_injective a b ha hb e =
      let la = is_hash_hex-length a.merkle_root ha in
      let lb = is_hash_hex-length b.merkle_root hb in
      let whole = ap length e in
      let pa = length-append a.stellar_tx_hash (58 ∷ a.merkle_root) in
      let pb = length-append b.stellar_tx_hash (58 ∷ b.merkle_root) in
      let split =
        append_split a.stellar_tx_hash (58 ∷ a.merkle_root) b.stellar_tx_hash (58 ∷ b.merkle_root)
          (omega arith) e in
      (split.0, cc (split.1))

  -- The read is of the transaction and the root that were asked for, and has found the answer.
  abbrev pub Answers : Answer → LedgerRead → Type 0
  Answers a r =
      (r.anchor.stellar_tx_hash ≡ a.asked.anchor.stellar_tx_hash)
      × (r.anchor.merkle_root ≡ a.asked.anchor.merkle_root)
      × (a.confirmation ≡ read_from_ledger base64_to_hex r.view r.anchor)

  -- In every order of calls and of reads that end, each answer, out of the cache, out of a read in flight or
  -- out of a read of its own, is what one of the reads that have ended found, and that read was of the very
  -- transaction and root that the caller asked for; the cache holds confirmations only.
  pub verify-IsRead :
      (s : LedgerService) (reads : List LedgerRead)
      → ServiceReach s reads
      → All (λ a. Any (Answers a) reads) s.answers
        × All (λ c. c.confirmation.root_matches_ledger ≡ some true) s.confirmed
  unfolding AnswerIsFound FoundFor CachedIsFound
  verify-IsRead s reads reach =
      let v = ServiceReach-IsServed s reads reach in
      (
        All-map
            (λ a (found, own).
              Any-map
                (λ r (keyed, hex, c).
                  let same = cache_key_injective r.anchor a.asked.anchor hex own keyed in
                  (same.0, same.1, c))
                reads found)
            s.answers v.answered,
        All-map (λ c known. known.0) s.confirmed v.cached,
      )
