-- ===== src/Kv/Server/Retrieve.antt =====
-- `retrieveShardData`: whom it asks, and when it gives up.
use building_distributed_sys.Prelude.{
  ℕ, ◌+◌, ◌-◌, ◌%◌, ◌≤◌, ◌<◌, ◌≡◌, ◌⊎◌, String, true, false, Option, none, some, List, length,
  get_elem?, leb, arith, Bool-cases, inl, inr,
}
use building_distributed_sys.Kv.ShardMap.{same_name}
use building_distributed_sys.Kv.Server.{GetShardValue}

-- The rotation reaches each index.
pub rotation : (n start j : ℕ) → start < n → j < n → (k : ℕ) × (k < n) × ((start + k) % n ≡ j)
rotation n start j s h = elim (Bool-cases (leb start j)) [
  | inl after ↦ (j - start, ground arith, grind arith)
  | inr before ↦ (j + n - start, ground arith, grind arith)
]

module _ (contents : String → Option (List GetShardValue)) (self : String) where
  -- The node is the server itself, or has no answer.
  abbrev pub HasNoAnswer : String → Type 0
  HasNoAnswer node = (same_name node self ≡ true) ⊎ (contents node ≡ none)

  -- A node of the list that is not the server itself answers with the values.
  abbrev pub IsAnswer : List String → List GetShardValue → Type 0
  IsAnswer nodes values =
      (j : ℕ) × (node : String) × (get_elem? nodes j ≡ some node)
      × (same_name node self ≡ false)
      × (contents node ≡ some values)

  -- The nodes of the rotation from `i` on.
  abbrev Silent : List String → ℕ → ℕ → ℕ → Type 0
  Silent nodes start i rounds =
      (k : ℕ) (node : String)
      → i ≤ k
      → k < i + rounds
      → get_elem? nodes ((start + k) % length nodes) ≡ some node
      → HasNoAnswer node
