-- ===== src/Custody/Examples.antt =====
-- The theorem on hand-overs at a concrete one.
use proofchain.Prelude.{
  ok, Text, text_eq, ℕ, ◌≡◌, refl, ◌⊎◌, some, [], ◌∷◌, ◌++◌, pos, ◌≤ℤ◌, ◌+ℤ◌, ◌-ℤ◌,
}
use proofchain.Database.{BatchEntity, Database, find_batch, sealed}
use proofchain.Custody.{
  CreateCustodyTransfer, CustodyTransferEntity, hand_over, stated_reason, transfer_row,
}
use proofchain.Custody.Balance.{hand_over_lem, Submitted}

abbrev batch : BatchEntity
batch = record {
  id = 1 ∷ [];
  hub_id = [];
  material = [];
  status = sealed;
  total_weight = pos 1500;
  event_count = 1;
  merkle_root = some [];
  sealed_at = some 1;
  created_at = 0;
}

abbrev held : Database
held = record { batches = batch ∷ []; events = []; anchors = []; attempts = []; materials = [] }

-- A hundred grams of moisture are lost.
abbrev dto : CreateCustodyTransfer
dto = record {
  from_party = 2 ∷ [];
  to_party = 3 ∷ [];
  weight_in = pos 1500;
  weight_out = pos 1400;
  reason = some (4 ∷ []);
  transferred_at = pos 9;
}

abbrev same : Text → Text
same s = s

abbrev row : CustodyTransferEntity
row = record {
  batch_id = 1 ∷ [];
  from_party = 2 ∷ [];
  to_party = 3 ∷ [];
  weight_in = pos 1500;
  weight_out = pos 1400;
  variance = pos 100;
  reason = some (4 ∷ []);
  transferred_at = pos 9;
}

recorded : hand_over same held [] (1 ∷ []) dto ≡ ok (row ∷ [], row)
unfolding hand_over transfer_row stated_reason find_batch text_eq ◌-ℤ◌
recorded = refl

hand_over_lem_example :
    ((b : BatchEntity) × (find_batch held (1 ∷ []) ≡ some b))
    × (row ∷ [] ≡ [] ++ row ∷ [])
    × Submitted same (1 ∷ []) dto row
    × (row.weight_out ≤ℤ row.weight_in)
    × (row.weight_out +ℤ row.variance ≡ row.weight_in)
    × ((row.variance ≡ pos 0) ⊎ ((c : ℕ) × (s : Text) × (row.reason ≡ some (c ∷ s))))
hand_over_lem_example = hand_over_lem same held [] (1 ∷ []) dto (row ∷ []) row recorded
