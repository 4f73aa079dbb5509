-- ===== src/Kv/ShardMap/Validity.antt =====
-- What `IsValid` accepts, and how the two views of a placement fit together.
use building_distributed_sys.Prelude.{
  ℕ, ◌+◌, ◌%◌, ◌≤◌, ◌<◌, ◌≡◌, ◌↔◌, refl, String, true, false, some, List, [], ◌∷◌, length, All,
  arith,
}
use building_distributed_sys.Prelude.Maps.{string_eq, nat_eq, lookup}
use building_distributed_sys.Kv.ShardMap.{
  ShardMapState, is_some, contains, valid_nodes, valid_shards, is_valid, get_shard_for_key,
}

-- No name of the list is among the given ones or twice in the list.
abbrev pub Distinct : List String → List String → Type 0
Distinct seen [] = Unit
Distinct seen (n ∷ ns) = (contains n seen ≡ false) × Distinct (n ∷ seen) ns

-- The node is described in the state.
abbrev pub IsKnown : ShardMapState → String → Type 0
IsKnown st node = is_some (lookup node st.nodes) ≡ true

-- One shard with its nodes: the number is in range, the nodes are known and distinct.
abbrev pub IsPlaced : ShardMapState → ℕ × List String → Type 0
IsPlaced st (shard, nodes) =
    (1 ≤ shard) × (shard ≤ st.num_shards) × All (IsKnown st) nodes × Distinct [] nodes

valid_nodes_lem :
    (st : ShardMapState) (seen nodes : List String)
    → (valid_nodes st seen nodes ≡ true) ↔ (All (IsKnown st) nodes × Distinct seen nodes)
unfolding valid_nodes
valid_nodes_lem st seen [] = (λ h. (tt, tt), λ h. refl)
valid_nodes_lem st seen (node ∷ rest) =
    let ih = valid_nodes_lem st (node ∷ seen) rest in
    (λ h. ground (arith, ih), λ h. ground (arith, ih))

valid_shards_lem :
    (st : ShardMapState) (shards : List (ℕ × List String))
    → (valid_shards st shards ≡ true) ↔ All (IsPlaced st) shards
unfolding valid_shards
valid_shards_lem st [] = (λ h. tt, λ h. refl)
valid_shards_lem st ((shard, nodes) ∷ rest) =
    let ih = valid_shards_lem st rest in
    let on_nodes = valid_nodes_lem st [] nodes in
    (λ h. ground (arith, ih, on_nodes), λ h. ground (arith, ih, on_nodes))

-- `IsValid` answers true exactly when there are at most `NumShards` entries, and each has a shard
-- number from 1 to `NumShards` and nodes that are known and distinct.
pub is_valid_lem :
    (st : ShardMapState)
    → (is_valid st ≡ true)
      ↔ ((length st.shards_to_nodes ≤ st.num_shards) × All (IsPlaced st) st.shards_to_nodes)
unfolding is_valid
is_valid_lem st =
    let on_shards = valid_shards_lem st st.shards_to_nodes in
    (λ h. ground (arith, on_shards), λ h. ground (arith, on_shards))

-- The shard of a key is a number from 1 to `NumShards`, whatever the hash, if there is a shard.
pub get_shard_for_key_bounds :
    (sum32 : String → ℕ) (key : String) (num_shards : ℕ)
    → 0 < num_shards
    → (shard : ℕ) × (get_shard_for_key sum32 key num_shards ≡ some shard)
      × (1 ≤ shard)
      × (shard ≤ num_shards)
unfolding get_shard_for_key
get_shard_for_key_bounds sum32 key num_shards pos =
    (sum32 key % num_shards + 1, ground arith, omega arith, grind arith)
