-- ===== src/Materials/Examples.antt =====
-- The theorems on the catalogue, where the letters have one case.
use proofchain.Prelude.{
  leb, if◌then◌else◌, length, All, ok, Text, text, text_eq, ◌+◌, ◌-◌, ◌≤◌, ◌≡◌, refl, false, ◌&&◌,
  Option, none, some, List, [], ◌∷◌, ◌++◌, map, pos,
}
use proofchain.Database.{Database, CollectionEventEntity, pass, find_material}
use proofchain.Materials.Vocabulary.{
  Casing, add_example, add_examples, clean_example, collapse, is_code_start, is_material_code,
  is_space, normalise_examples, trim, trim_end, trim_start, add_entry,
}
use proofchain.Materials.Catalogue.{CreateMaterial, create_material, new_material, refuse_existing}
use proofchain.Materials.Listed.{Distinct, IsShort, normalise_examples-bounds}
use proofchain.Materials.Known.{CatalogueStep-UsedAreKnown, UsedAreKnown, creates}

-- Of the letters, those of ASCII.
abbrev ascii : Casing
ascii = record {
  to_upper = map (λ c. if leb 97 c && leb c 122 then c - 32 else c);
  to_lower = map (λ c. if leb 65 c && leb c 90 then c + 32 else c);
}

abbrev caps : CreateMaterial
caps = record {
  code = text " pp ";
  name = text "PP";
  description = some (text " ");
  examples = text "Bottle  caps" ∷ text "bottle caps" ∷ text "" ∷ [];
  active = none;
  sort_order = none;
}

abbrev no_materials : Database
no_materials = record { batches = []; events = []; anchors = []; attempts = []; materials = [] }

abbrev with_caps : Database
with_caps = record no_materials { materials = new_material ascii (text "PP") caps ∷ [] }

caps_created :
    create_material ascii no_materials caps ≡ ok (with_caps, new_material ascii (text "PP") caps)
unfolding create_material refuse_existing find_material is_material_code is_code_start trim
    trim_start trim_end is_space
caps_created = refl

abbrev collected : CollectionEventEntity
collected = record {
  id = text "e";
  collector_id = [];
  hub_id = [];
  device_id = [];
  batch_id = none;
  weight = pos 1500;
  material = text "PP";
  captured_at = pos 7;
  received_at = 8;
  photo_hash = [];
  photo_uri = none;
  nonce = [];
  signature = [];
  payload_hash = [];
  integrity = pass;
  quarantined = false;
}

-- The material is in use when another is created.
abbrev in_use : Database
in_use = record with_caps { events = collected ∷ [] }

abbrev film : CreateMaterial
film = record caps { code = text "ldpe" }

abbrev two_materials : Database
two_materials = record in_use {
  materials = in_use.materials ++ new_material ascii (text "LDPE") film ∷ [];
}

film_created :
    create_material ascii in_use film ≡ ok (two_materials, new_material ascii (text "LDPE") film)
unfolding create_material refuse_existing find_material is_material_code is_code_start trim
    trim_start trim_end is_space text_eq new_material
film_created = refl

caps_known : UsedAreKnown in_use
unfolding text_eq new_material
caps_known = ((refl, tt), tt)

CatalogueStep-UsedAreKnown_example : UsedAreKnown two_materials
CatalogueStep-UsedAreKnown_example =
    CatalogueStep-UsedAreKnown ascii in_use two_materials
      (creates film (new_material ascii (text "LDPE") film) film_created) caps_known

-- An entry among them is not a string.
abbrev entered : Option (List (Option Text))
entered = some (none ∷ map some caps.examples)

normalise_examples-bounds_example :
    (length (normalise_examples ascii entered) ≤ 8)
    × All IsShort (normalise_examples ascii entered)
    × Distinct (map ascii.to_lower (normalise_examples ascii entered))
normalise_examples-bounds_example = normalise_examples-bounds ascii entered

one_listed : normalise_examples ascii entered ≡ text "Bottle caps" ∷ []
unfolding normalise_examples add_examples add_entry add_example clean_example collapse trim
    trim_start trim_end is_space text_eq
one_listed = refl
