-- ===== src/Kv/ShardMap.antt =====
-- cs426-fall24/lab4/kv/shardmap.go and util.go: the placement of shards on nodes, its listeners,
-- and the shard of a key.
pub mod Listeners
pub mod Validity
pub mod Views
use building_distributed_sys.Prelude.{
  ℕ, suc, ◌+◌, ◌%◌, String, Bool, true, false, Option, none, some, List, [], ◌∷◌, ◌++◌, map, length,
  ltb, leb, ◌==◌, ◌&&◌, ◌||◌, not, if◌then◌else◌,
}
use building_distributed_sys.Prelude.Maps.{Eq, string_eq, nat_eq, lookup, insert, remove}

pub record NodeInfo : Type 0 where
  pub address : String
  pub port : ℕ

-- Shard numbers and `NumShards` are not negative here, so `shard < 1` is the shard 0.
pub record ShardMapState : Type 0 where
  pub nodes : List (String × NodeInfo)
  pub shards_to_nodes : List (ℕ × List String)
  pub num_shards : ℕ

abbrev pub is_some {ℓ} : {A : Type ℓ} → Option A → Bool
is_some none = false
is_some (some a) = true

abbrev pub same_name : String → String → Bool
same_name a b = string_eq.beq a b

-- whether the node is in the list
unfoldable pub contains : String → List String → Bool
contains a [] = false
contains a (b ∷ bs) = same_name b a || contains a bs

-- The loop over the nodes of one shard in `IsValid`; `seen` is `nodeSet`.
unfoldable pub valid_nodes : ShardMapState → List String → List String → Bool
valid_nodes st seen [] = true
valid_nodes st seen (node ∷ rest) =
    is_some (lookup node st.nodes) && not (contains node seen) && valid_nodes st (node ∷ seen) rest

-- The loop over the shards in `IsValid`.
unfoldable pub valid_shards : ShardMapState → List (ℕ × List String) → Bool
valid_shards st [] = true
valid_shards st ((shard, nodes) ∷ rest) =
    not (ltb shard 1 || ltb st.num_shards shard) && valid_nodes st [] nodes && valid_shards st rest

-- `IsValid`
unfoldable pub is_valid : ShardMapState → Bool
is_valid st =
    not (ltb st.num_shards (length st.shards_to_nodes)) && valid_shards st st.shards_to_nodes

-- The inner loop of `ShardsForNode`: the shard once for each time that the node is listed.
unfoldable pub listed : String → ℕ → List String → List ℕ
listed node shard [] = []
listed node shard (n ∷ ns) =
    let rest = listed node shard ns in if same_name n node then shard ∷ rest else rest

unfoldable pub shards_for : String → List (ℕ × List String) → List ℕ
shards_for node [] = []
shards_for node ((shard, nodes) ∷ rest) = listed node shard nodes ++ shards_for node rest

-- `ShardsForNode`, in one of the orders in which Go may visit the map
unfoldable pub shards_for_node : String → ShardMapState → List ℕ
shards_for_node node st = shards_for node st.shards_to_nodes

-- `NodesForShard`
unfoldable pub nodes_for_shard : ℕ → ShardMapState → List String
nodes_for_shard shard st = elim (lookup shard st.shards_to_nodes) [ none ↦ [] | some names ↦ names ]

-- `GetShardForKey`. `sum32` stands for hash/fnv; no shards at all is a division by zero.
unfoldable pub get_shard_for_key : (String → ℕ) → String → ℕ → Option ℕ
get_shard_for_key sum32 key num_shards =
    if num_shards == 0 then none else some (sum32 key % num_shards + 1)

-- A `ShardMap`: the current state, and the listeners by id. A channel is the number of
-- notifications that its listener has received.
pub record ShardMap : Type 0 where
  pub state : ShardMapState
  pub update_channels : List (ℕ × ℕ)
  pub update_channel_counter : ℕ

-- `MakeListener`, with the listener's id
unfoldable pub make_listener : ShardMap → ShardMap × ℕ
make_listener sm = (
  record sm {
    update_channels = insert sm.update_channel_counter 0 sm.update_channels;
    update_channel_counter = sm.update_channel_counter + 1;
  },
  sm.update_channel_counter,
)

abbrev notify : ℕ × ℕ → ℕ × ℕ
notify (id, received) = (id, received + 1)

-- `Update`, once every listener has received its notification
unfoldable pub update_state : ShardMapState → ShardMap → ShardMap
update_state st sm = record sm { state = st; update_channels = map notify sm.update_channels }

-- `Close` of the listener with the id
unfoldable pub close : ℕ → ShardMap → ShardMap
close id sm = record sm { update_channels = remove id sm.update_channels }
