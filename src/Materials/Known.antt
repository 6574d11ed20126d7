-- ===== src/Materials/Known.antt =====
-- No change of the catalogue takes away a code that a signed record carries.
use proofchain.Prelude.{
  Option-cases, is_none, keep, find, All, All-map, All-zip, exists-none, ok, Text, text_eq_iff,
  text_eq, ◌≡◌, sym, subst, inl, inr, false, not, List, [], ◌∷◌, ◌++◌, arith,
}
use proofchain.Database.{Database, MaterialEntity, find_material}
use proofchain.Materials.Vocabulary.{Casing, trim}
use proofchain.Materials.Catalogue.{
  CreateMaterial, UpdateMaterial, create_material, is_used, refuse_existing, remove_material,
  save_material, update_material, require_material,
}
use proofchain.Table.{get, delete, get-delete}

abbrev pub IsKnown : List MaterialEntity → Text → Type 0
IsKnown ms code = is_none (find (λ m. text_eq m.code code) ms) ≡ false

-- Each material that an event or a batch carries is in the catalogue.
abbrev pub UsedAreKnown : Database → Type 0
UsedAreKnown db =
    All (λ e. IsKnown db.materials e.material) db.events
    × All (λ b. IsKnown db.materials b.material) db.batches

-- A change of the catalogue that succeeds.
pub data CatalogueStep (casing : Casing) (db db' : Database) : Type 0 where
  creates :
      (dto : CreateMaterial) (m : MaterialEntity)
      → create_material casing db dto ≡ ok (db', m)
      → CatalogueStep casing db db'
  updates :
      (code : Text) (dto : UpdateMaterial) (m : MaterialEntity)
      → update_material casing db code dto ≡ ok (db', m)
      → CatalogueStep casing db db'
  removes : (code : Text) → remove_material casing db code ≡ ok db' → CatalogueStep casing db db'

IsKnown-append :
    (ms : List MaterialEntity) (m : MaterialEntity) (code : Text)
    → IsKnown ms code
    → IsKnown (ms ++ m ∷ []) code
IsKnown-append [] m code k = cc
IsKnown-append (x ∷ ms) m code k = ground (arith, IsKnown-append ms m code)

IsKnown-save_material :
    (m : MaterialEntity) (ms : List MaterialEntity) (code : Text)
    → IsKnown ms code
    → IsKnown (save_material m ms) code
unfolding save_material
IsKnown-save_material m [] code k = k
IsKnown-save_material m (x ∷ ms) code k = ground (
  arith,
  text_eq_iff x.code m.code,
  text_eq_iff x.code code,
  text_eq_iff m.code code,
  IsKnown-save_material m ms code,
)

IsKnown-delete :
    (gone : Text) (ms : List MaterialEntity) (code : Text)
    → text_eq gone code ≡ false
    → IsKnown ms code
    → IsKnown (keep (λ m. not (text_eq m.code gone)) ms) code
IsKnown-delete gone ms code other k =
    let same = get-delete (λ (m : MaterialEntity). m.code) ms gone code in
    unfold get in unfold delete in rw (same, other) k

differs : (s t : Text) → text_eq s t ≡ false → text_eq t s ≡ false
differs s t h = ground (arith, text_eq_iff s t, text_eq_iff t s)

unused_parts :
    (db : Database) (gone : Text)
    → is_used db gone ≡ false
    → All (λ e. text_eq gone e.material ≡ false) db.events
      × All (λ b. text_eq gone b.material ≡ false) db.batches
unfolding is_used
unused_parts db gone h = (
  All-map (λ e other. differs e.material gone other) db.events
      (exists-none (λ e. text_eq e.material gone) db.events (ground arith)),
  All-map (λ b other. differs b.material gone other) db.batches
      (exists-none (λ b. text_eq b.material gone) db.batches (ground arith)),
)

module _ (casing : Casing) where
  create_material_lem :
      (db db' : Database) (dto : CreateMaterial) (m : MaterialEntity)
      → create_material casing db dto ≡ ok (db', m)
      → db' ≡ record db { materials = db.materials ++ m ∷ [] }
  unfolding create_material refuse_existing
  create_material_lem db db' dto m h =
      elim (Option-cases (find_material db (casing.to_upper (trim dto.code)))) [
        | inl free ↦ ground arith
        | inr (old, taken) ↦ absurd (ground arith)
      ]

  update_material_lem :
      (db db' : Database) (code : Text) (dto : UpdateMaterial) (m : MaterialEntity)
      → update_material casing db code dto ≡ ok (db', m)
      → db' ≡ record db { materials = save_material m db.materials }
  unfolding update_material require_material
  update_material_lem db db' code dto m h =
      elim (Option-cases (find_material db (casing.to_upper (trim code)))) [
        | inl missing ↦ absurd (ground arith)
        | inr (old, found) ↦ ground arith
      ]

  remove_material_lem :
      (db db' : Database) (code : Text)
      → remove_material casing db code ≡ ok db'
      → (gone : Text) × (is_used db gone ≡ false)
        × (db' ≡ record db { materials = keep (λ m. not (text_eq m.code gone)) db.materials })
  unfolding remove_material require_material
  remove_material_lem db db' code h =
      elim (Option-cases (find_material db (casing.to_upper (trim code)))) [
        | inl missing ↦ absurd (ground arith)
        | inr (old, found) ↦ (old.code, ground arith, ground arith)
      ]

  -- Whoever creates, edits, retires or removes materials: each material that an event or a batch carries is in
  -- the catalogue afterwards, if it was before.
  pub CatalogueStep-UsedAreKnown :
      (db db' : Database) → CatalogueStep casing db db' → UsedAreKnown db → UsedAreKnown db'
  CatalogueStep-UsedAreKnown db db' (creates dto m h) (events, batches) =
      subst UsedAreKnown (sym (create_material_lem db db' dto m h)) (
        All-map (λ e k. IsKnown-append db.materials m e.material k) db.events events,
        All-map (λ b k. IsKnown-append db.materials m b.material k) db.batches batches,
      )
  CatalogueStep-UsedAreKnown db db' (updates code dto m h) (events, batches) =
      subst UsedAreKnown (sym (update_material_lem db db' code dto m h)) (
        All-map (λ e k. IsKnown-save_material m db.materials e.material k) db.events events,
        All-map (λ b k. IsKnown-save_material m db.materials b.material k) db.batches batches,
      )
  CatalogueStep-UsedAreKnown db db' (removes code h) (events, batches) =
      let (gone, unused, after) = remove_material_lem db db' code h in
      let (no_event, no_batch) = unused_parts db gone unused in
      subst UsedAreKnown (sym after) (
        All-zip (λ e other k. IsKnown-delete gone db.materials e.material (other) k) db.events
            no_event events,
        All-zip (λ b other k. IsKnown-delete gone db.materials b.material (other) k) db.batches
            no_batch batches,
      )
