-- ===== src/Batches/WriteBack.antt =====
-- What the write-backs of the anchor worker change, and that they keep `IsValid`.
use proofchain.Prelude.{
  if◌then◌else◌, Bool-cases, Option-cases, some_injective, first_some, find-append, ok, Text,
  text_eq_iff, text_eq→eq, text_eq, ℕ, ◌≡◌, sym, ap, ◌∙◌, ◌⊎◌, inl, inr, none, some, [], ◌∷◌, ◌++◌,
  arith,
}
use proofchain.Hashing.{Sha256}
use proofchain.Database.{
  Database, BatchEntity, AnchorRecordEntity, events_in, find_anchor, find_batch,
}
use proofchain.Batches.Anchoring.{
  AnchorInput, anchor_row, record_anchor, record_anchor_failure, save_anchor, sealed_root,
  write_anchor,
}
use proofchain.Batches.Invariant.{IsValid}
use proofchain.Attempts.{RecordedAttempt, record_attempt}
use proofchain.Batches.{find_one}
use proofchain.Batches.Preservation.{BatchIsValid-events}

-- A write-back adds one row, for a batch that has that root and had no anchor.
pub record Anchoring (db : Database) (id : Text) (input : AnchorInput) (db' : Database)
    : Type 0 where
  pub batch : BatchEntity
  pub found : find_batch db id ≡ some batch
  pub rooted : batch.merkle_root ≡ some input.merkle_root
  pub was_free : find_anchor db id ≡ none
  pub same_batches : db'.batches ≡ db.batches
  pub same_events : db'.events ≡ db.events
  pub after : db'.anchors ≡ db.anchors ++ anchor_row id input ∷ []

-- A write-back that succeeds repeats the anchor that is there, or adds one.
abbrev pub WriteBack : Database → Text → AnchorInput → Database → AnchorRecordEntity → Type 0
WriteBack db id input db' a =
    ((db' ≡ db) × (find_anchor db id ≡ some a) × (a.stellar_tx_hash ≡ input.stellar_tx_hash))
    ⊎ Anchoring db id input db'

pub record_anchor-WriteBack :
    (anchored_in : ℕ → Text) (db : Database) (id : Text) (input : AnchorInput) (now : ℕ)
    {db' : Database} {a : AnchorRecordEntity}
    → record_anchor anchored_in db id input now ≡ ok (db', a)
    → WriteBack db id input db' a
unfolding record_anchor find_one sealed_root record_attempt save_anchor write_anchor
record_anchor-WriteBack anchored_in db id input now h = elim (Option-cases (find_batch db id)) [
  | inl missing ↦ absurd (ground arith)
  | inr (batch, found) ↦ elim (Option-cases batch.merkle_root) [
    | inl rootless ↦ absurd (ground arith)
    | inr (root, rooted) ↦ elim (Option-cases (find_anchor db id)) [
      | inl free ↦ inr (record {
        batch = batch;
        found = found;
        rooted = ground (arith, text_eq_iff root input.merkle_root);
        was_free = free;
        same_batches = ground arith;
        same_events = ground arith;
        after = ground arith;
      })
      | inr (existing, held) ↦ inl (
        ground arith,
        ground arith,
        ground (arith, text_eq_iff existing.stellar_tx_hash input.stellar_tx_hash),
      )
    ]
  ]
]

-- A reported failure touches neither batches, nor events, nor anchors.
pub record_anchor_failure-same :
    (db : Database) (id : Text) (input : RecordedAttempt) (now : ℕ) {db' : Database}
    → record_anchor_failure db id input now ≡ ok db'
    → (db'.batches ≡ db.batches)
      × (db'.events ≡ db.events)
      × (db'.anchors ≡ db.anchors)
      × (find_anchor db id ≡ none)
unfolding record_anchor_failure find_one sealed_root record_attempt
record_anchor_failure-same db id input now h =
    (ground arith, ground arith, ground arith, ground arith)

pub find_anchor-after :
    (db db' : Database) (id : Text) (input : AnchorInput)
    → Anchoring db id input db'
    → (j : Text)
    → find_anchor db' j
      ≡ first_some (find_anchor db j) (if text_eq id j then some (anchor_row id input) else none)
unfolding find_anchor anchor_row
find_anchor-after db db' id input w j =
    rw w.after (find-append (λ a. text_eq a.batch_id j) db.anchors (anchor_row id input ∷ []))

module _ (sha : Sha256) where
  -- The validity of a database rests on its batches, events and anchors.
  pub same-IsValid :
      (db db' : Database)
      → db'.batches ≡ db.batches
      → db'.events ≡ db.events
      → ((id : Text) (a : AnchorRecordEntity)
          → find_anchor db' id ≡ some a
          → (b : BatchEntity) × (find_batch db id ≡ some b) × (b.merkle_root ≡ some a.merkle_root))
      → IsValid sha db
      → IsValid sha db'
  unfolding find_batch events_in
  same-IsValid db db' batches events anchors v = record {
    batch_valid = λ id b e.
        BatchIsValid-events sha db db' b (rw events) (v.batch_valid id b (rw batches at e));
    no_orphans = λ id e. rw events (v.no_orphans id (rw batches at e));
    unique_ids = rw events v.unique_ids;
    anchored = λ id a e. rw batches (anchors id a e);
  }

  pub record_anchor_failure-IsValid :
      (db : Database) (id : Text) (input : RecordedAttempt) (now : ℕ) {db' : Database}
      → IsValid sha db
      → record_anchor_failure db id input now ≡ ok db'
      → IsValid sha db'
  unfolding find_anchor
  record_anchor_failure-IsValid db id input now {db'} v h =
      let same = record_anchor_failure-same db id input now h in
      same-IsValid db db' same.0 same.1 (λ j a e. v.anchored j a (rw same.2 at e)) v

  anchored-after :
      (db db' : Database) (id : Text) (input : AnchorInput)
      → IsValid sha db
      → Anchoring db id input db'
      → (j : Text) (a : AnchorRecordEntity) → find_anchor db' j ≡ some a
      → (b : BatchEntity) × (find_batch db j ≡ some b) × (b.merkle_root ≡ some a.merkle_root)
  unfolding anchor_row
  anchored-after db db' id input v w j a e = elim (Option-cases (find_anchor db j)) [
    | inr (old, held) ↦
        let same : old ≡ a =
          some_injective (sym (rw held at (find_anchor-after db db' id input w j)) ∙ e) in
        rw (← same) (v.anchored j old held)
    | inl free ↦
        let now = sym (rw free at (find_anchor-after db db' id input w j)) ∙ e in
        elim (Bool-cases (text_eq id j)) [
          | inl same ↦
              let row = some_injective (rw same at now) in
              (
                w.batch,
                rw (← text_eq→eq id j same) w.found,
                w.rooted ∙ ap (λ x. some x.merkle_root) row,
              )
          | inr other ↦ absurd (none≢row (rw other at now))
        ]
  ]
    where
      none≢row : {x : AnchorRecordEntity} → none ≡ some x → ⊥
      none≢row p = cc

  pub record_anchor-IsValid :
      (anchored_in : ℕ → Text) (db : Database) (id : Text) (input : AnchorInput) (now : ℕ)
      {db' : Database} {a : AnchorRecordEntity}
      → IsValid sha db
      → record_anchor anchored_in db id input now ≡ ok (db', a)
      → IsValid sha db'
  record_anchor-IsValid anchored_in db id input now {db'} v h =
      elim (record_anchor-WriteBack anchored_in db id input now h) [
        | inl (same, _, _) ↦ rw same v
        | inr w ↦
            same-IsValid db db' w.same_batches w.same_events (anchored-after db db' id input v w) v
      ]
