-- ===== src/IntegrityCopy.antt =====
-- packages/shared/src/integrity-copy.ts: findings of the integrity checks in the words that a
-- collector reads.
use proofchain.Prelude.{
  keep, find, Text, text, truthy, text_eq, not, Option, none, some, List, [], ◌∷◌, ◌++◌, map,
}

-- A finding as it comes over the network: the check is any string.
pub record CopyFinding : Type 0 where
  pub check : Text
  pub outcome : Text
  pub detail : Option Text

-- `COLLECTOR_COPY`, with a check first and its sentence second.
abbrev pub collector_copy : List (Text × Text)
collector_copy =
    (
      text "signature_valid",
      text
          "This phone's signing key was not accepted. Ask an operator to re-enrol it — weigh-ins captured until then will not count.",
    )
    ∷ (
      text "device_enrolled",
      text
          "This phone is not enrolled to capture for this collector. Ask an operator to enrol it again.",
    )
    ∷ (
      text "weight_in_range",
      text
          "The weight is outside what this hub accepts. Re-weigh the material and capture it again.",
    )
    ∷ (
      text "not_duplicate",
      text "This weigh-in was already recorded, so it was not counted twice.",
    )
    ∷ (
      text "clock_plausible",
      text
          "This phone's date and time are wrong. Correct them in the phone's settings, then capture this weigh-in again.",
    )
    ∷ (
      text "photo_present",
      text "The photo did not record properly. Capture this weigh-in again with a new photo.",
    )
    ∷ []

unfoldable pub describe_unknown : Option Text → Text
describe_unknown none = text "This weigh-in was refused by the server."
describe_unknown (some detail) = text "This weigh-in was refused: " ++ detail

-- The sentence of a known check, else what the server says.
unfoldable pub describe_with : Option (Text × Text) → Option Text → Text
describe_with none detail = describe_unknown (truthy detail)
describe_with (some (check, copy)) detail = copy

unfoldable pub describe_finding : CopyFinding → Text
describe_finding f =
    describe_with (find (λ (c : Text × Text). text_eq c.0 f.check) collector_copy) f.detail

-- `[...new Set(messages)]`
unfoldable pub distinct : List Text → List Text
distinct [] = []
distinct (m ∷ ms) = m ∷ keep (λ n. not (text_eq m n)) (distinct ms)

unfoldable pub join_words : List Text → Text
join_words [] = []
join_words (m ∷ []) = m
join_words (m ∷ n ∷ ms) = m ++ (text " " ++ join_words (n ∷ ms))

unfoldable pub failed_findings : List CopyFinding → List CopyFinding
failed_findings findings = keep (λ f. text_eq f.outcome (text "fail")) findings

unfoldable pub describe_failures : List CopyFinding → Text
describe_failures findings = join_words (distinct (map describe_finding (failed_findings findings)))
