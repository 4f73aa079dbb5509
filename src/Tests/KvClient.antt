-- ===== src/Tests/KvClient.antt =====
-- The client of lab4/kv against two servers, and its pool.
use building_distributed_sys.Prelude.{
  ℕ, ◌≡◌, ◌⊎◌, inr, refl, String, Option, some, none, arith, List, [], ◌∷◌, if◌then◌else◌,
}
use building_distributed_sys.Prelude.Int.{pos}
use building_distributed_sys.Prelude.Maps.{nat_eq, string_eq, lookup, insert}
use building_distributed_sys.Kv.ShardMap.{
  ShardMapState, NodeInfo, same_name, nodes_for_shard, get_shard_for_key,
}
use building_distributed_sys.Kv.Server.{GetResponse, set_value, CacheItem}
use building_distributed_sys.Kv.Client.{
  Servers, ClientError, Fate, delivered, unreachable, write_at, broadcast, client_get, client_write,
  client_set,
}
use building_distributed_sys.Kv.Client.ReadBack.{IsReadBack, set_then_get}

abbrev sum32 : String → ℕ
sum32 key = 3

abbrev placement : ShardMapState
placement = record {
  nodes =
      ("n1", record { address = "localhost"; port = 9000 })
      ∷ ("n2", record { address = "localhost"; port = 9001 })
      ∷ [];
  shards_to_nodes = (4, "n1" ∷ "n2" ∷ []) ∷ [];
  num_shards = 5;
}

abbrev servers : Servers
servers node = record { node_name = node; available_shards = (4, []) ∷ [] }

abbrev all_reached : String → Fate
all_reached node = delivered

-- The first node cannot be reached by the read.
abbrev second_only : String → Fate
second_only node = if same_name node "n1" then unreachable "timeout" else delivered

abbrev in_order : List String → List String
in_order nodes = nodes

abbrev clock : String → ℕ
clock node = if same_name node "n1" then 10 else 20

abbrev item_at : ℕ → CacheItem
item_at now = record { value = "v"; ttl = pos 5; time_elapsed = now }

abbrev after : Servers
after n =
    if same_name n "n2"
    then record { node_name = "n2"; available_shards = (4, ("k", item_at 20) ∷ []) ∷ [] }
    else if same_name n "n1"
    then record { node_name = "n1"; available_shards = (4, ("k", item_at 10) ∷ []) ∷ [] }
    else servers n

set_succeeds :
    client_set sum32 placement all_reached in_order clock "k" "v" (pos 5000000) servers
    ≡ some (after, none)
unfolding client_set client_write broadcast write_at set_value get_shard_for_key nodes_for_shard
    lookup insert
set_succeeds = refl

hash : get_shard_for_key sum32 "k" 5 ≡ some 4
unfolding get_shard_for_key
hash = refl

set_then_get_example :
    (response : GetResponse) × (error : Option ClientError) × (client_get sum32 placement
        second_only 30 "k" 0 after
      ≡ some (response, error))
    × IsReadBack sum32 placement clock "k" "v"
        (pos 5)
        second_only
        (nodes_for_shard 4 placement)
        30
        response
        error
unfolding nodes_for_shard lookup
set_then_get_example =
    set_then_get sum32 placement clock "k" "v" (pos 5000000) all_reached second_only in_order
      servers after 4 30 0 set_succeeds hash (λ node h. h) (omega arith)

abbrev dial : NodeInfo → String ⊎ ℕ
dial info = inr info.port
