-- ===== src/Kv/Server.antt =====
-- cs426-fall24/lab4/kv/server.go: one server, its shards and its handlers.
pub mod Access
pub mod Expiry
pub mod Handoff
pub mod Overwrite
pub mod Retrieve
pub mod Shards
pub mod Update
use building_distributed_sys.Prelude.{
  ℕ, zero, suc, ◌+◌, ◌-◌, ◌/◌, ◌%◌, ◌^◌, String, Bool, true, false, Option, none, some, List, [],
  ◌∷◌, ◌++◌, map, length, get_elem?, ◌==◌, ◌||◌, if◌then◌else◌, not,
}
use building_distributed_sys.Prelude.Int.{ℤ, pos, negsuc, leb_ℤ}
use building_distributed_sys.Prelude.Maps.{Eq, string_eq, nat_eq, lookup, insert, remove}
use building_distributed_sys.Kv.Partial.{◌>>=◌}
use building_distributed_sys.Kv.ShardMap.{
  ShardMapState, is_some, same_name, shards_for_node, nodes_for_shard, get_shard_for_key,
}

-- The gRPC status codes that the handlers return.
pub data Code : Type 0 where
  invalid_argument not_found : Code

-- `time_elapsed` is the time of the write, in nanoseconds of a clock that never goes back.
pub record CacheItem : Type 0 where
  pub value : String
  pub ttl : ℤ
  pub time_elapsed : ℕ

abbrev pub ShardData : Type 0
ShardData = List (String × CacheItem)

pub record KvServer : Type 0 where
  pub node_name : String
  pub available_shards : List (ℕ × ShardData)

pub record GetResponse : Type 0 where
  pub value : String
  pub was_found : Bool

pub record GetShardValue : Type 0 where
  pub key : String
  pub value : String
  pub ttl_ms_remaining : ℤ

-- `int32(n)`, as a bit pattern
abbrev pub to_int32 : ℕ → ℕ
to_int32 n = n % 2 ^ 32

-- `time.Since(item.time_elapsed).Milliseconds()`
abbrev pub elapsed_ms : ℕ → CacheItem → ℕ
elapsed_ms now item = (now - item.time_elapsed) / 1000000

-- `... >= item.ttl`
unfoldable pub expired : ℕ → CacheItem → Bool
expired now item = leb_ℤ item.ttl (pos (elapsed_ms now item))

abbrev pub miss : GetResponse
miss = record { value = ""; was_found = false }

-- The read of a shard's data in `Get`.
unfoldable pub read : ℕ → String → ShardData → GetResponse
read now key shard = elim (lookup key shard) [
  | none ↦ miss
  | some item ↦ if expired now item then miss else record { value = item.value; was_found = true }
]

-- `ttl - elapsed` for a lifetime that has not passed
abbrev pub remaining : ℤ → ℕ → ℤ
remaining (pos n) ms = pos (n - ms)
remaining (negsuc n) ms = negsuc (n + ms)

-- The loop of `GetShardContents`.
unfoldable pub live_values : ℕ → ShardData → List GetShardValue
live_values now [] = []
live_values now ((key, item) ∷ rest) =
    let values = live_values now rest in
    if expired now item
    then values
    else record {
      key = key;
      value = item.value;
      ttl_ms_remaining = remaining item.ttl (elapsed_ms now item);
    }
      ∷ values

-- A round of a shard's ticker: what has expired is deleted.
unfoldable pub sweep : ℕ → ShardData → ShardData
sweep now [] = []
sweep now ((key, item) ∷ rest) =
    let kept = sweep now rest in if expired now item then kept else (key, item) ∷ kept

-- `GetShardContents`. The lock of the shard's data is taken before `found` is looked at, so a shard
-- that is not hosted is a nil pointer. The clock of the handler is one reading; the source reads it
-- twice for each value.
unfoldable pub get_shard_contents : ℕ → ℕ → KvServer → Option (List GetShardValue × Option Code)
get_shard_contents now shard s = do
  let found = is_some (lookup (to_int32 shard) s.available_shards)
  contents ← lookup (to_int32 shard) s.available_shards
  if not found then some ([], some not_found) else some (live_values now contents, none)

-- whether the shard is marked in the set
unfoldable pub marked : ℕ → List ℕ → Bool
marked shard [] = false
marked shard (s ∷ rest) = s == shard || marked shard rest

-- The set of the shards of the map that the server does not hold yet.
unfoldable pub shards_to_add : List ℕ → List (ℕ × ShardData) → List ℕ
shards_to_add [] available = []
shards_to_add (shard ∷ rest) available =
    let more = shards_to_add rest available in
    if is_some (lookup (to_int32 shard) available) || marked (to_int32 shard) more
    then more
    else to_int32 shard ∷ more

-- The inner loop over the shards of the map, up to its `break`.
unfoldable pub in_map : ℕ → List ℕ → Bool
in_map shard [] = false
in_map shard (s ∷ rest) = to_int32 s == shard || in_map shard rest

-- The shards that the server holds and the map no longer gives it. The shard map is read for each
-- of them anew: `mapped i` is what it gives the server in the round `i`.
unfoldable pub shards_to_remove : (ℕ → List ℕ) → List (ℕ × ShardData) → List ℕ
shards_to_remove mapped [] = []
shards_to_remove mapped ((shard, contents) ∷ rest) =
    let more = shards_to_remove (λ i. mapped (suc i)) rest in
    if in_map shard (mapped 0) then more else shard ∷ more

unfoldable pub add_empty : List ℕ → List (ℕ × ShardData) → List (ℕ × ShardData)
add_empty [] available = available
add_empty (shard ∷ rest) available = add_empty rest (insert shard [] available)

-- A removed shard is told to stop its ticker, so a shard that is gone by now is a nil pointer.
unfoldable pub remove_shards : List ℕ → List (ℕ × ShardData) → Option (List (ℕ × ShardData))
remove_shards [] available = some available
remove_shards (shard ∷ rest) available = do
  contents ← lookup shard available
  remove_shards rest (remove shard available)

-- `handleShardMapUpdate` up to the point where it lets the lock go to wait for the copies: the
-- server, the shards to fetch and those to drop. `maps` are the states of the shard map at its reads:
-- the first loop has the first, and each round of the second loop the next.
unfoldable pub begin_update : (ℕ → ShardMapState) → KvServer → KvServer × List ℕ × List ℕ
begin_update maps s =
    let added = shards_to_add (shards_for_node s.node_name (maps 0)) s.available_shards in
    (
      record s { available_shards = add_empty added s.available_shards },
      added,
      shards_to_remove (λ i. shards_for_node s.node_name (maps (suc i))) s.available_shards,
    )

-- The loop of `retrieveShardData` from offset `i` of the rotation, with `rounds` nodes left.
-- `contents` is what the call of a node returned, `none` for an error of the pool or the call.
unfoldable pub retrieve_from :
    (String → Option (List GetShardValue))
    → String
    → List String
    → ℕ
    → ℕ
    → ℕ
    → Option (List GetShardValue)
retrieve_from contents self nodes start i zero = some []
retrieve_from contents self nodes start i (suc rounds) =
    let rest = retrieve_from contents self nodes start (suc i) rounds in
    do
      node ← get_elem? nodes ((start + i) % length nodes)
      if same_name node self
          then rest
          else elim (contents node) [ none ↦ rest | some values ↦ some values ]

-- `retrieveShardData`, for the start that the random number gives; no nodes at all is a panic of
-- `rand.Intn`
unfoldable pub retrieve_shard_data :
    (String → Option (List GetShardValue))
    → String
    → ℕ
    → ShardMapState
    → ℕ
    → Option (List GetShardValue)
retrieve_shard_data contents self shard st start =
    let nodes = nodes_for_shard shard st in
    if length nodes == 0 then none else retrieve_from contents self nodes start 0 (length nodes)

-- `sum32` stands for hash/fnv, and `num_shards` is `server.shardMap.NumShards()`.
module _ (sum32 : String → ℕ) (num_shards : ℕ) where
  unfoldable pub get : ℕ → String → KvServer → Option (GetResponse × Option Code)
  get now key s = if same_name key "" then some (miss, some invalid_argument) else (do
    shard ← get_shard_for_key sum32 key num_shards
    some (elim (lookup (to_int32 shard) s.available_shards) [
      | none ↦ (miss, some not_found)
      | some contents ↦ (read now key contents, none)
    ]))

  -- `Set`; the response has no fields, and only its error is shown.
  unfoldable pub set_value : ℕ → String → String → ℤ → KvServer → Option (KvServer × Option Code)
  set_value now key value ttl s = if same_name key "" then some (s, some invalid_argument) else (do
    shard ← get_shard_for_key sum32 key num_shards
    some (elim (lookup (to_int32 shard) s.available_shards) [
      | none ↦ (s, some not_found)
      | some contents ↦ (
        record s {
          available_shards =
              insert (to_int32 shard)
                (insert key (record { value = value; ttl = ttl; time_elapsed = now }) contents)
                s.available_shards;
        },
        none,
      )
    ]))

  -- `Delete`
  unfoldable pub delete : String → KvServer → Option (KvServer × Option Code)
  delete key s = if same_name key "" then some (s, some invalid_argument) else (do
    shard ← get_shard_for_key sum32 key num_shards
    some (elim (lookup (to_int32 shard) s.available_shards) [
      | none ↦ (s, some not_found)
      | some contents ↦ (
        record s {
          available_shards = insert (to_int32 shard) (remove key contents) s.available_shards;
        },
        none,
      )
    ]))

  -- One copied value goes to the shard of its key, whatever is there.
  unfoldable pub copy_value :
      ℕ → GetShardValue → List (ℕ × ShardData) → Option (List (ℕ × ShardData))
  copy_value now copied available = do
    shard ← get_shard_for_key sum32 copied.key num_shards
    contents ← lookup (to_int32 shard) available
    some (
        insert (to_int32 shard)
          (insert copied.key
            (record { value = copied.value; ttl = copied.ttl_ms_remaining; time_elapsed = now })
            contents)
          available)

  unfoldable pub copy_values :
      ℕ → List GetShardValue → List (ℕ × ShardData) → Option (List (ℕ × ShardData))
  copy_values now [] available = some available
  copy_values now (copied ∷ rest) available = do
    next ← copy_value now copied available
    copy_values now rest next

  -- `handleShardMapUpdate` after the wait, with the copied values in the order of their arrival
  unfoldable pub finish_update : ℕ → List GetShardValue → List ℕ → KvServer → Option KvServer
  finish_update now copies removed s = do
    filled ← copy_values now copies s.available_shards
    kept ← remove_shards removed filled
    some (record s { available_shards = kept })
