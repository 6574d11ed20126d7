-- ===== src/Canonical/Payload.antt =====
-- The signed string determines a payload in whole grams.
use proofchain.Prelude.{
  ltb, ltb→lt, every, All-map, every-All, Text, text, ℕ, ◌≡◌, sym, ◌∙◌, true, [], ◌∷◌, ◌++◌,
  append_assoc, arith,
}
use proofchain.Canonical.{WeighInPayload, canonical_in_grams, entry, json_string, json_weight}
use proofchain.Canonical.Scan.{AreUnits, json_string_injective}
use proofchain.Canonical.Weight.{json_weight_injective}

-- The strings of a payload are strings of UTF-16 units.
pub record IsWellFormed (p : WeighInPayload) : Type 0 where
  pub schema_units : AreUnits p.schema
  pub collector_units : AreUnits p.collector_id
  pub hub_units : AreUnits p.hub_id
  pub device_units : AreUnits p.device_id
  pub material_units : AreUnits p.material
  pub captured_units : AreUnits p.captured_at
  pub photo_units : AreUnits p.photo_hash
  pub nonce_units : AreUnits p.nonce

pub every-AreUnits : (s : Text) → every (λ c. ltb c 65536) s ≡ true → AreUnits s
every-AreUnits s h = All-map (λ c e. ltb→lt c 65536 e) s (every-All (λ c. ltb c 65536) s h)

entry_injective :
    (key v w r r' : Text)
    → AreUnits key
    → AreUnits v
    → AreUnits w
    → entry key v ++ r ≡ entry key w ++ r'
    → (v ≡ w) × (r ≡ r')
unfolding entry
entry_injective key v w r r' k hv hw e =
    let apart =
      json_string_injective key key (58 ∷ (json_string v ++ 44 ∷ r))
        (58 ∷ (json_string w ++ 44 ∷ r')) k k (sym (regroup v r) ∙ e ∙ regroup w r') in
    let values = json_string_injective v w (44 ∷ r) (44 ∷ r') hv hw (cc (apart.1)) in
    (values.0, cc (values.1))
  where
    regroup :
        (x t : Text)
        → (json_string key ++ 58 ∷ json_string x ++ 44 ∷ []) ++ t
          ≡ json_string key ++ 58 ∷ (json_string x ++ 44 ∷ t)
    regroup x t = simp append_assoc

uncons : {c d : ℕ} {s t : Text} → c ∷ s ≡ d ∷ t → s ≡ t
uncons e = cc

-- The string with its pieces grouped to the right.
abbrev grouped : WeighInPayload → Text
grouped p =
    123
    ∷ (entry (text "capturedAt") p.captured_at
        ++ (entry (text "collectorId") p.collector_id
            ++ (entry (text "deviceId") p.device_id
                ++ (entry (text "hubId") p.hub_id
                    ++ (entry (text "material") p.material
                        ++ (entry (text "nonce") p.nonce
                            ++ (entry (text "photoHash") p.photo_hash
                                ++ (entry (text "schema") p.schema
                                    ++ (json_string (text "weightKg")
                                        ++ 58 ∷ (json_weight p.weight ++ 125 ∷ []))))))))))

canonical-grouped : (p : WeighInPayload) → canonical_in_grams p ≡ grouped p
unfolding canonical_in_grams
canonical-grouped p = simp append_assoc

pub same_fields :
    (p q : WeighInPayload)
    → p.captured_at ≡ q.captured_at
    → p.collector_id ≡ q.collector_id
    → p.device_id ≡ q.device_id
    → p.hub_id ≡ q.hub_id
    → p.material ≡ q.material
    → p.nonce ≡ q.nonce
    → p.photo_hash ≡ q.photo_hash
    → p.schema ≡ q.schema
    → p.weight ≡ q.weight
    → p ≡ q
same_fields p q a b c d e f g h i = ground arith

-- Two payloads with one signed string are the same payload, field by field.
pub canonical_in_grams_injective :
    (p q : WeighInPayload)
    → IsWellFormed p
    → IsWellFormed q
    → canonical_in_grams p ≡ canonical_in_grams q
    → p ≡ q
canonical_in_grams_injective p q u v e =
    let all = uncons (sym (canonical-grouped p) ∙ e ∙ canonical-grouped q) in
    let captured =
      entry_injective (text "capturedAt") _ _ _ _ (omega arith) u.captured_units v.captured_units
        all in
    let collector =
      entry_injective (text "collectorId") _ _ _ _ (omega arith) u.collector_units v.collector_units
        captured.1 in
    let device =
      entry_injective (text "deviceId") _ _ _ _ (omega arith) u.device_units v.device_units
        collector.1 in
    let hub =
      entry_injective (text "hubId") _ _ _ _ (omega arith) u.hub_units v.hub_units device.1 in
    let material =
      entry_injective (text "material") _ _ _ _ (omega arith) u.material_units v.material_units
        hub.1 in
    let nonce =
      entry_injective (text "nonce") _ _ _ _ (omega arith) u.nonce_units v.nonce_units material.1 in
    let photo =
      entry_injective (text "photoHash") _ _ _ _ (omega arith) u.photo_units v.photo_units
        nonce.1 in
    let schema =
      entry_injective (text "schema") _ _ _ _ (omega arith) u.schema_units v.schema_units photo.1 in
    let number =
      json_string_injective (text "weightKg") (text "weightKg") _ _ (omega arith) (omega arith)
        schema.1 in
    let weight = json_weight_injective p.weight q.weight (uncons number.1) in
    same_fields p q captured.0 collector.0 device.0 hub.0 material.0 nonce.0 photo.0 schema.0 weight
