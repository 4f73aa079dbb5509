-- ===== src/Tests/KvServer.antt =====
-- A server of lab4/kv with one shard, and a second server that takes the shard over.
use building_distributed_sys.Prelude.{
  ℕ, ◌+◌, ◌-◌, ◌*◌, ◌≡◌, ◌↔◌, refl, ◌≤◌, String, Option, some, none, arith, List, [], ◌∷◌,
  if◌then◌else◌, All,
}
use building_distributed_sys.Prelude.Int.{pos}
use building_distributed_sys.Prelude.Maps.{nat_eq, string_eq, lookup, insert}
use building_distributed_sys.Kv.ShardMap.{
  ShardMapState, ShardMap, same_name, get_shard_for_key, shards_for_node, shards_for, listed,
}
use building_distributed_sys.Kv.ShardMap.Validity.{get_shard_for_key_bounds}
use building_distributed_sys.Kv.Server.{
  Code, CacheItem, ShardData, KvServer, GetShardValue, get, set_value, delete, read, sweep,
  get_shard_contents, copy_values, begin_update, finish_update, to_int32, in_map, shards_to_add,
  add_empty, marked, miss, not_found,
}
use building_distributed_sys.Kv.Server.Access.{
  IsHosted, fresh, error_of, get-set_value, same_errors,
}
use building_distributed_sys.Kv.Server.Expiry.{read-sweep}
use building_distributed_sys.Kv.Server.Handoff.{handoff_lem, get_shard_contents_lem}
use building_distributed_sys.Kv.Server.Overwrite.{copy_overwrites_set}
use building_distributed_sys.Kv.Server.Shards.{holds}
use building_distributed_sys.Kv.Server.Update.{During, IsMapped, mapped_to, update_lem}

-- A hash in place of hash/fnv.
abbrev sum32 : String → ℕ
sum32 key = 3

abbrev placement : ShardMapState
placement = record {
  nodes =
      ("n1", record { address = "localhost"; port = 9000 })
      ∷ ("n2", record { address = "localhost"; port = 9001 })
      ∷ [];
  shards_to_nodes = (4, "n1" ∷ "n2" ∷ []) ∷ (5, "n2" ∷ []) ∷ [];
  num_shards = 5;
}

abbrev item : CacheItem
item = record { value = "a"; ttl = pos 500; time_elapsed = 0 }

abbrev contents : ShardData
contents = ("k", item) ∷ []

abbrev server : KvServer
server = record { node_name = "n1"; available_shards = (4, contents) ∷ [] }

hash : get_shard_for_key sum32 "k" 5 ≡ some 4
unfolding get_shard_for_key
hash = refl

hosted : lookup 4 server.available_shards ≡ some contents
unfolding lookup
hosted = refl

k-IsHosted : IsHosted sum32 5 "k" contents server
k-IsHosted = (4, refl, hash, hosted)

get-set_value_example :
    (t : KvServer) × (set_value sum32 5 7 "k" "b" (pos 9) server ≡ some (t, none))
    × ((later : ℕ) (k : String)
        → get sum32 5 later k t ≡ (
            if same_name "k" k
            then some (fresh "b" (pos 9) (later - 7), none)
            else get sum32 5 later k server))
get-set_value_example = get-set_value sum32 5 7 "k" "b" (pos 9) contents server k-IsHosted

same_errors_example :
    (error_of (set_value sum32 5 7 "" "b" (pos 9) server) ≡ error_of (get sum32 5 7 "" server))
    × (error_of (delete sum32 5 "" server) ≡ error_of (get sum32 5 7 "" server))
same_errors_example = same_errors sum32 5 7 "" "b" (pos 9) server

read-sweep_example : read 900000000 "k" (sweep 600000000 contents) ≡ read 900000000 "k" contents
unfolding lookup
read-sweep_example = read-sweep 600000000 900000000 "k" contents (omega arith) (refl, tt)

handoff_lem_example :
    (values : List GetShardValue) × (taken : List (ℕ × ShardData)) × (copy : ShardData)
    × (get_shard_contents 100000000 4 server ≡ some (values, none))
    × (copy_values sum32 5 40 values ((4, []) ∷ []) ≡ some taken)
    × (lookup (to_int32 4) taken ≡ some copy)
    × ((key : String) (ms : ℕ)
        → read (40 + ms * 1000000) key copy ≡ read (100000000 + ms * 1000000) key contents)
unfolding lookup
handoff_lem_example =
    handoff_lem sum32 5 100000000 40 4 server contents ((4, []) ∷ []) refl (refl, tt)
      (omega arith, tt) (hash, tt) refl

-- A server that hosts nothing.
abbrev bare : KvServer
bare = record { node_name = "n3"; available_shards = [] }

get_shard_contents_lem_example :
    ((get_shard_contents 0 4 bare ≡ none) ↔ (get sum32 5 0 "k" bare ≡ some (miss, some not_found)))
    × ¬ (
        (values : List GetShardValue) × (e : Code) × (get_shard_contents 0 4 bare
          ≡ some (values, some e)))
get_shard_contents_lem_example = get_shard_contents_lem sum32 5 0 4 "k" bare refl hash

-- A server with a shard that the map gives to nobody; it is to get the shard 4.
abbrev outdated : KvServer
outdated = record { node_name = "n1"; available_shards = (9, contents) ∷ [] }

-- The same server after a `Set` of another key during the wait.
abbrev written : KvServer
written = record {
  node_name = "n1";
  available_shards =
      (9, contents) ∷ (4, ("j", record { value = "b"; ttl = pos 9; time_elapsed = 8 }) ∷ []) ∷ [];
}

-- What another node answered for the shard 4.
abbrev copies : List GetShardValue
copies = record { key = "k"; value = "a"; ttl_ms_remaining = pos 400 } ∷ []

begun_then_written :
    set_value sum32 5 8 "j" "b" (pos 9) (begin_update (λ i. placement) outdated).0
    ≡ some (written, none)
unfolding begin_update shards_to_add add_empty marked shards_for_node shards_for listed set_value
    get_shard_for_key lookup insert
begun_then_written = refl

copies-IsMapped : All (IsMapped sum32 5 (mapped_to placement outdated)) copies
unfolding shards_for_node shards_for listed in_map get_shard_for_key
copies-IsMapped = ((4, refl, refl), tt)

update_lem_example :
    (t : KvServer) × (finish_update sum32 5 9 copies
        (begin_update (λ i. placement) outdated).2
        written
      ≡ some t)
    × ((shard : ℕ) → holds shard t.available_shards ≡ in_map shard (mapped_to placement outdated))
unfolding lookup
update_lem_example =
    update_lem sum32 5 9 placement copies outdated written (refl, tt)
      (During.set_during (begin_update (λ i. placement) outdated).0 written written 8 "j" "b"
        (pos 9) none begun_then_written (During.done written))
      copies-IsMapped

copy_overwrites_set_example :
    (u v : KvServer) × (set_value sum32 5 7 "k" "new" (pos 9) server ≡ some (u, none))
    × (finish_update sum32 5 8
          (record { key = "k"; value = "old"; ttl_ms_remaining = pos 5 } ∷ [])
          []
          u
        ≡ some v)
    × ((later : ℕ) → get sum32 5 later "k" v ≡ some (fresh "old" (pos 5) (later - 8), none))
copy_overwrites_set_example =
    copy_overwrites_set sum32 5 7 8 "k" "new" "old" (pos 9) (pos 5) contents server k-IsHosted

-- Only the second node answers.
abbrev answers : String → Option (List GetShardValue)
answers node =
    if same_name node "n2"
    then some (record { key = "k"; value = "a"; ttl_ms_remaining = pos 400 } ∷ [])
    else none

get_shard_for_key_bounds_example :
    (shard : ℕ) × (get_shard_for_key sum32 "k" 5 ≡ some shard) × (1 ≤ shard) × (shard ≤ 5)
get_shard_for_key_bounds_example = get_shard_for_key_bounds sum32 "k" 5 (omega arith)

abbrev shard_map : ShardMap
shard_map = record { state = placement; update_channels = (0, 3) ∷ []; update_channel_counter = 1 }
