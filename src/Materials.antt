-- ===== src/Materials.antt =====
-- apps/backend/src/materials/materials.service.ts: the gates that ingest and batch creation pass.
pub mod Vocabulary
pub mod Catalogue
pub mod Known
pub mod Listed
mod Examples
use proofchain.Prelude.{throw_if, or_throw, ok, err, Text, not, none, some, ◌>>=◌}
use proofchain.Database.{Database, find_material}
use proofchain.Errors.{Outcome, bad_request, unknown_material, retired_material}

unfoldable pub assert_known : Database → Text → Outcome (Unit {0})
assert_known db code = elim (find_material db code) [
  | none ↦ err (bad_request (unknown_material code))
  | some material ↦ ok tt
]

unfoldable pub assert_openable : Database → Text → Outcome (Unit {0})
assert_openable db code = do
  material ← or_throw (find_material db code) (bad_request (unknown_material code))
  throw_if (not material.active) (bad_request (retired_material code))
