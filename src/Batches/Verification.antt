-- ===== src/Batches/Verification.antt =====
-- `verifyEvent` on the databases that can come about.
use native.Mathlib.Nat.{sub-zero}
use proofchain.Prelude.{
  Bool-cases, get_elem?, get_elem?-map, Result, ok, Text, text_eq_iff, truthy, text_eq, ℕ, suc, ◌+◌,
  ◌-◌, ◌≤◌, ◌≡◌, refl, sym, ap, subst, ◌∙◌, ◌≢◌, inl, inr, true, Option, none, some, List, [], ◌∷◌,
  arith,
}
use proofchain.Hashing.{Sha256}
use proofchain.Database.{
  Database, BatchEntity, CollectionEventEntity, AnchorRecordEntity, BatchStatus, find_batch, opened,
  processed, sealed, sold, find_anchor,
}
use proofchain.Batches.Anchoring.{
  EventVerification, describe, verify_event, index_of, on_chain_of, leaf_at, proof_at,
}
use proofchain.Batches.Invariant.{IsValid, Frozen, RootFits}
use proofchain.Ledger.{LedgerConfirmation}
use proofchain.Batches.{find_one, leaves_of, ordered_events}
use proofchain.Merkle.{
  hash_leaf, merkle_root_hex, MerkleError, MerkleProofStep, merkle_proof, verify_merkle_proof,
}
use proofchain.Merkle.Level.{AllHashes}
use proofchain.Hashing.Utf8.{utf8}
use proofchain.Merkle.Completeness.{merkle_proof-verifies}
use proofchain.Batches.Preservation.{find_batch-id}
use proofchain.Hashing.Hex.{is_hash_hex}

-- The event that `findIndex` stops at.
index_of-elem :
    (k : ℕ) (event_id : Text) (es : List CollectionEventEntity) (i : ℕ)
    → index_of k event_id es ≡ some i
    → (e : CollectionEventEntity) × (k ≤ i) × (get_elem? es (i - k) ≡ some e) × (e.id ≡ event_id)
unfolding index_of
index_of-elem k event_id [] i h = cc
index_of-elem k event_id (x ∷ es) i h = elim (Bool-cases (text_eq x.id event_id)) [
  | inl hit ↦
      let at : k ≡ i = ground arith in
      let zero_off : i - k ≡ 0 = omega arith in
      (x, omega arith, rw zero_off, (text_eq_iff x.id event_id).0 hit)
  | inr miss ↦
      let rest = index_of-elem (k + 1) event_id es i (rw miss at h) in
      let off : i - k ≡ suc (i - (k + 1)) = omega (arith, rest.1) in
      (rest.0, omega (arith, rest.1), rw off rest.2, rest.3)
]

module _ (sha : Sha256) (ledger : AnchorRecordEntity → LedgerConfirmation) where
  leaves-AllHashes : (es : List CollectionEventEntity) → AllHashes sha (leaves_of sha es)
  unfolding leaves_of hash_leaf
  leaves-AllHashes [] = tt
  leaves-AllHashes (e ∷ es) = (sha.hex-is_hash_hex _, leaves-AllHashes es)

  closed_root :
      (db : Database) (id : Text) (s : BatchStatus) (root : Option Text)
      → s ≢ opened
      → RootFits sha db id s root
      → Frozen sha db id root
  closed_root db id opened root d f = absurd (d refl)
  closed_root db id sealed root d f = f
  closed_root db id processed root d f = f
  closed_root db id sold root d f = f

  truthy_hash : (r : Text) → is_hash_hex r ≡ true → truthy (some r) ≡ some r
  unfolding is_hash_hex
  truthy_hash [] h = cc
  truthy_hash (c ∷ r) h = refl

  hash_injective : {a b : Text} → ◌≡◌ {A = Result MerkleError Text} (ok a) (ok b) → a ≡ b
  hash_injective e = cc

  -- The root of a sealed batch, as the row has it.
  sealed_root-row :
      (db : Database) (id : Text) (b : BatchEntity) {root : Text}
      → IsValid sha db
      → find_batch db id ≡ some b
      → b.status ≢ opened
      → merkle_root_hex sha (leaves_of sha (ordered_events db id)) ≡ ok root
      → b.merkle_root ≡ some root
  sealed_root-row db id b v found frozen e =
      let fr =
        closed_root db b.id b.status b.merkle_root frozen (v.batch_valid id b found).rooted in
      let at_id =
        subst (λ j. merkle_root_hex sha (leaves_of sha (ordered_events db j)) ≡ ok fr.0)
          (find_batch-id db id b found) fr.2 in
      fr.1 ∙ ap some (hash_injective (sym at_id ∙ e))

  leaf_at_index :
      (es : List CollectionEventEntity) (i : ℕ) (e : CollectionEventEntity)
      → get_elem? es i ≡ some e
      → get_elem? (leaves_of sha es) i ≡ some (hash_leaf sha (utf8 e.payload_hash))
  unfolding leaves_of
  leaf_at_index es i e h = get_elem?-map (λ x. hash_leaf sha (utf8 x.payload_hash)) es i h

  -- What the call returns when nothing throws.
  abbrev verification :
      Database → Text → Text → Text → List MerkleProofStep → Text → EventVerification
  verification db id event_id leaf_hex proof root = record {
    event_id = event_id;
    batch_id = id;
    leaf = leaf_hex;
    proof = proof;
    merkle_root = root;
    proof_valid = verify_merkle_proof sha leaf_hex proof root;
    on_chain = elim (find_anchor db id) [ none ↦ none | some a ↦ some (on_chain_of (ledger a) a) ];
  }

  describes :
      (db : Database) (id event_id : Text) (leaves : List Text) (i : ℕ) (leaf_hex : Text)
      (proof : List MerkleProofStep) (root : Text)
      → get_elem? leaves i ≡ some leaf_hex
      → merkle_proof sha leaves i ≡ ok proof
      → describe sha ledger db id event_id leaves root i
        ≡ ok (verification db id event_id leaf_hex proof root)
  unfolding describe on_chain_of leaf_at proof_at
  describes db id event_id leaves i leaf_hex proof root leaf proved = ground arith

  runs :
      (db : Database) (id event_id : Text) (b : BatchEntity) (i : ℕ) (leaf_hex : Text)
      (proof : List MerkleProofStep) (root : Text)
      → find_batch db id ≡ some b
      → b.merkle_root ≡ some root
      → is_hash_hex root ≡ true
      → index_of 0 event_id (ordered_events db id) ≡ some i
      → get_elem? (leaves_of sha (ordered_events db id)) i ≡ some leaf_hex
      → merkle_proof sha (leaves_of sha (ordered_events db id)) i ≡ ok proof
      → verify_event sha ledger db id event_id
        ≡ ok (verification db id event_id leaf_hex proof root)
  unfolding verify_event find_one
  runs db id event_id b i leaf_hex proof root found has_root hash at leaf proved =
      rw (found, has_root, truthy_hash root hash, at)
        (describes db id event_id (leaves_of sha (ordered_events db id)) i leaf_hex proof root leaf
          proved)

  verified-root :
      (l r : Text) (p : List MerkleProofStep)
      → verify_merkle_proof sha l p r ≡ true
      → is_hash_hex r ≡ true
  unfolding verify_merkle_proof
  verified-root l r p h = ground arith

  -- In a valid database verifyEvent returns, for an event of a batch that is no longer open, the ids
  -- that it was asked for, the leaf of the event, that batch's root, and the proof of that leaf: the one that
  -- merkleProof gives for the place of the event, which verifies against the root, as `proofValid` says.
  pub verify_event-proof_valid :
      (db : Database) (id event_id : Text) (b : BatchEntity) (i : ℕ)
      → IsValid sha db
      → find_batch db id ≡ some b
      → b.status ≢ opened
      → index_of 0 event_id (ordered_events db id) ≡ some i
      → (r : EventVerification) × (e : CollectionEventEntity) × (verify_event sha ledger db id
            event_id
          ≡ ok r)
        × (r.event_id ≡ event_id)
        × (r.batch_id ≡ id)
        × (merkle_proof sha (leaves_of sha (ordered_events db id)) i ≡ ok r.proof)
        × (verify_merkle_proof sha r.leaf r.proof r.merkle_root ≡ true)
        × (r.proof_valid ≡ true)
        × (b.merkle_root ≡ some r.merkle_root)
        × (get_elem? (ordered_events db id) i ≡ some e)
        × (e.id ≡ event_id)
        × (r.leaf ≡ hash_leaf sha (utf8 e.payload_hash))
  verify_event-proof_valid db id event_id b i v found frozen at =
      let es = ordered_events db id in
      let elem = index_of-elem 0 event_id es i at in
      let event = elem.0 in
      let here : get_elem? es i ≡ some event = rw sub-zero at elem.2 in
      let leaf = leaf_at_index es i event here in
      let m =
        merkle_proof-verifies sha (leaves_of sha es) i (hash_leaf sha (utf8 event.payload_hash))
          (leaves-AllHashes es) leaf in
      let has_root = sealed_root-row db id b v found frozen m.3 in
      (
        verification db id event_id (hash_leaf sha (utf8 event.payload_hash)) m.0 m.1,
        event,
        runs db id event_id b i _ m.0 m.1 found has_root (verified-root _ m.1 m.0 m.4) at leaf m.2,
        refl,
        refl,
        m.2,
        m.4,
        m.4,
        has_root,
        here,
        elem.3,
        refl,
      )
