-- ===== src/Errors.antt =====
-- The HTTP exceptions that the backend's services throw; the message is modelled by what it names.
use proofchain.Prelude.{Result, Text, List, ℤ}
use proofchain.Database.{BatchStatus}

pub data Reason : Type 0 where
  batch_missing event_missing event_not_in_batch empty_batch sealed_by_status not_sealed : Reason
  no_root unsupported_schema unknown_parties row_missing unique_violation invalid_date : Reason
  not_open : BatchStatus → Reason
  not_eligible material_mismatch holds_quarantined : List Text → Reason
  illegal_transition : BatchStatus → BatchStatus → Reason
  root_differs : Text → Text → Reason
  already_anchored unknown_material retired_material : Text → Reason
  merkle_failure weight_appears : Reason
  bad_material_code material_exists material_retired material_missing material_in_use : Reason
  collector_missing device_missing invalid_public_key key_enrolled : Reason
  photo_empty photo_too_large photo_not_image photo_differs : Reason
  unexplained_variance : ℤ → Reason

-- NotFoundException, BadRequestException, ConflictException, PayloadTooLargeException; `internal` is any other throw.
pub data ServiceError : Type 0 where
  not_found bad_request conflict payload_too_large internal : Reason → ServiceError

abbrev pub Outcome {ℓ} : Type ℓ → Type ℓ
Outcome A = Result ServiceError A
