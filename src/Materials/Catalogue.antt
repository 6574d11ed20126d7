-- ===== src/Materials/Catalogue.antt =====
-- The changes of the catalogue in materials.service.ts.
use proofchain.Prelude.{
  if◌then◌else◌, keep, exists, throw_if, or_throw, ok, err, Text, truthy, text_eq, Bool, true, not,
  ◌||◌, Option, none, some, List, [], ◌∷◌, ◌++◌, map, ℤ, pos, ◌>>=◌, ◌>>◌,
}
use proofchain.Database.{Database, MaterialEntity, find_material}
use proofchain.Errors.{
  Outcome, bad_request, conflict, not_found, bad_material_code, material_exists, material_in_use,
  material_missing, material_retired,
}
use proofchain.Materials.Vocabulary.{Casing, is_material_code, normalise_examples, trim}

pub record CreateMaterial : Type 0 where
  pub code : Text
  pub name : Text
  pub description : Option Text
  pub examples : List Text
  pub active : Option Bool
  pub sort_order : Option ℤ

-- A field that is not given stays as it is.
pub record UpdateMaterial : Type 0 where
  pub name : Option Text
  pub description : Option Text
  pub examples : Option (List Text)
  pub active : Option Bool
  pub sort_order : Option ℤ

-- `??` and the guards on `undefined`.
abbrev pub given_or {ℓ} : {A : Type ℓ} → Option A → A → A
given_or none a = a
given_or (some b) a = b

unfoldable pub blank_to_null : Option Text → Option Text
blank_to_null none = none
blank_to_null (some value) = truthy (some (trim value))

unfoldable pub described : Option Text → Option Text → Option Text
described none old = old
described (some value) old = blank_to_null (some value)

abbrev pub trimmed_or : Option Text → Text → Text
trimmed_or none t = t
trimmed_or (some s) t = trim s

-- `save` writes the row with the code of the material.
unfoldable pub save_material : MaterialEntity → List MaterialEntity → List MaterialEntity
save_material m materials = map (λ x. if text_eq x.code m.code then m else x) materials

-- Whether an event or a batch carries the code.
unfoldable pub is_used : Database → Text → Bool
is_used db code =
    exists (λ e. text_eq e.material code) db.events
    || exists (λ b. text_eq b.material code) db.batches

module _ (casing : Casing) where
  abbrev pub normal_or : Option (List Text) → List Text → List Text
  normal_or none old = old
  normal_or (some entries) old = normalise_examples casing (some (map some entries))

  unfoldable pub new_material : Text → CreateMaterial → MaterialEntity
  new_material code dto = record {
    code = code;
    name = trim dto.name;
    description = blank_to_null dto.description;
    examples = normalise_examples casing (some (map some dto.examples));
    active = given_or dto.active true;
    sort_order = given_or dto.sort_order (pos 100);
  }

  unfoldable pub refuse_existing : Option MaterialEntity → Outcome (Unit {0})
  refuse_existing none = ok tt
  refuse_existing (some m) = err (conflict (if m.active then material_exists else material_retired))

  unfoldable pub create_material : Database → CreateMaterial → Outcome (Database × MaterialEntity)
  create_material db dto = do
    let code = casing.to_upper (trim dto.code)
    throw_if (not (is_material_code code)) (bad_request bad_material_code)
    refuse_existing (find_material db code)
    ok (record db { materials = db.materials ++ new_material code dto ∷ [] }, new_material code dto)

  -- `require`
  unfoldable pub require_material : Database → Text → Outcome MaterialEntity
  require_material db code =
      or_throw (find_material db (casing.to_upper (trim code))) (not_found material_missing)

  unfoldable pub edited : UpdateMaterial → MaterialEntity → MaterialEntity
  edited dto m = record m {
    name = trimmed_or dto.name m.name;
    description = described dto.description m.description;
    examples = normal_or dto.examples m.examples;
    active = given_or dto.active m.active;
    sort_order = given_or dto.sort_order m.sort_order;
  }

  unfoldable pub update_material :
      Database → Text → UpdateMaterial → Outcome (Database × MaterialEntity)
  update_material db code dto = do
    material ← require_material db code
    ok (
      record db { materials = save_material (edited dto material) db.materials },
      edited dto material,
    )

  unfoldable pub remove_material : Database → Text → Outcome Database
  remove_material db code = do
    material ← require_material db code
    throw_if (is_used db material.code) (conflict material_in_use)
    ok (record db { materials = keep (λ m. not (text_eq m.code material.code)) db.materials })
