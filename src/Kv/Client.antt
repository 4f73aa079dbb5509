-- ===== src/Kv/Client.antt =====
-- cs426-fall24/lab4/kv/client.go: the client, which looks for a server that answers a read and sends
-- a write to every server of the shard.
pub mod Written
pub mod ReadBack
use building_distributed_sys.Prelude.{
  ℕ, zero, suc, ◌+◌, ◌-◌, ◌/◌, ◌%◌, ◌⊎◌, inl, inr, String, Bool, true, false, Option, none, some,
  List, [], ◌∷◌, length, get_elem?, ◌==◌, if◌then◌else◌,
}
use building_distributed_sys.Prelude.Int.{ℤ, pos, negsuc}
use building_distributed_sys.Kv.Partial.{◌>>=◌}
use building_distributed_sys.Kv.ShardMap.{
  ShardMapState, same_name, nodes_for_shard, get_shard_for_key,
}
use building_distributed_sys.Kv.Server.{
  Code, KvServer, GetResponse, miss, get, set_value, delete, not_found,
}

-- The server that runs under each node's name.
abbrev pub Servers : Type 0
Servers = String → KvServer

-- What the client sees go wrong: the pool or the connection, or the status of a handler.
pub data ClientError : Type 0 where
  transport : String → ClientError
  status : Code → ClientError

-- What becomes of the call to a node: no client or no connection, a lost reply, or an answer.
pub data Fate : Type 0 where
  unreachable : String → Fate
  reply_lost : String → Fate
  delivered : Fate

abbrev pub client_error : Option Code → Option ClientError
client_error none = none
client_error (some code) = some (status code)

-- A write at one node, in the node's goroutine.
unfoldable pub write_at :
    (String → KvServer → Option (KvServer × Option Code))
    → (String → Fate)
    → String
    → Servers
    → Option (Servers × Option ClientError)
write_at handler fate node servers = elim (fate node) [
  | unreachable e ↦ some (servers, some (transport e))
  | reply_lost e ↦ (do
    (s, code) ← handler node (servers node)
    some (λ n. if same_name n node then s else servers n, some (transport e)))
  | delivered ↦ (do
    (s, code) ← handler node (servers node)
    some (λ n. if same_name n node then s else servers n, client_error code))
]

-- The goroutines of `Set` or `Delete` in the order in which the servers come to handle them, with
-- the errors in the order in which they enter the channel.
unfoldable pub broadcast :
    (String → KvServer → Option (KvServer × Option Code))
    → (String → Fate)
    → List String
    → Servers
    → Option (Servers × List ClientError)
broadcast handler fate [] servers = some (servers, [])
broadcast handler fate (node ∷ rest) servers = do
  (next, error) ← write_at handler fate node servers
  (final, errors) ← broadcast handler fate rest next
  some (final, elim error [ none ↦ errors | some e ↦ e ∷ errors ])

-- `<-errorHandle`, if an error is there
abbrev pub first_error : List ClientError → Option ClientError
first_error [] = none
first_error (e ∷ es) = some e

-- `int64(ttl / time.Millisecond)` of a duration in nanoseconds; Go rounds to 0.
abbrev pub to_ms : ℤ → ℤ
to_ms (pos n) = pos (n / 1000000)
to_ms (negsuc n) = let ms = (n + 1) / 1000000 in if ms == 0 then pos 0 else negsuc (ms - 1)

-- `sum32` stands for hash/fnv. `st` is the client's shard map.
module _ (sum32 : String → ℕ) (st : ShardMapState) where
  -- The call of `Get` at one node.
  unfoldable pub get_at :
      (String → Fate) → ℕ → String → String → Servers → Option (ClientError ⊎ GetResponse)
  get_at fate now key node servers = elim (fate node) [
    | unreachable e ↦ some (inl (transport e))
    | reply_lost e ↦ some (inl (transport e))
    | delivered ↦ (do
      (response, code) ← get sum32 st.num_shards now key (servers node)
      some (elim code [ none ↦ inr response | some c ↦ inl (status c) ]))
  ]

  -- The loop of `Get` from `i` on, with `rounds` nodes left and the error of the last one.
  unfoldable pub get_from :
      (String → Fate)
      → ℕ
      → String
      → Servers
      → List String
      → ℕ
      → ℕ
      → ℕ
      → Option ClientError
      → Option (GetResponse × Option ClientError)
  get_from fate now key servers nodes start i zero last_err = some (miss, last_err)
  get_from fate now key servers nodes start i (suc rounds) last_err = do
    node ← get_elem? nodes ((i + start) % length nodes)
    answer ← get_at fate now key node servers
    elim answer [
      | inl e ↦ get_from fate now key servers nodes start (suc i) rounds (some e)
      | inr response ↦ some (response, none)
    ]

  -- `Kv.Get`, for the start that the random number gives
  unfoldable pub client_get :
      (String → Fate) → ℕ → String → ℕ → Servers → Option (GetResponse × Option ClientError)
  client_get fate now key start servers = do
    shard ← get_shard_for_key sum32 key st.num_shards
    let nodes = nodes_for_shard shard st
    if length nodes == 0
        then some (miss, some (status not_found))
        else get_from fate now key servers nodes start 0 (length nodes) none

  -- What `Kv.Set` and `Kv.Delete` share: the shard, its nodes, the calls and the first error.
  -- `order` is the order in which the goroutines get through.
  unfoldable pub client_write :
      (String → KvServer → Option (KvServer × Option Code))
      → (String → Fate)
      → (List String → List String)
      → String
      → Servers
      → Option (Servers × Option ClientError)
  client_write handler fate order key servers = do
    shard ← get_shard_for_key sum32 key st.num_shards
    let nodes = nodes_for_shard shard st
    if length nodes == 0 then some (servers, some (status not_found)) else (do
      (final, errors) ← broadcast handler fate (order nodes) servers
      some (final, first_error errors))

  -- `Kv.Set`; `clock` is the time at which a node's server handles the call.
  unfoldable pub client_set :
      (String → Fate)
      → (List String → List String)
      → (String → ℕ)
      → String
      → String
      → ℤ
      → Servers
      → Option (Servers × Option ClientError)
  client_set fate order clock key value ttl servers =
      client_write (λ node s. set_value sum32 st.num_shards (clock node) key value (to_ms ttl) s)
        fate order key servers

  -- `Kv.Delete`
  unfoldable pub client_delete :
      (String → Fate)
      → (List String → List String)
      → String
      → Servers
      → Option (Servers × Option ClientError)
  client_delete fate order key servers =
      client_write (λ node s. delete sum32 st.num_shards key s) fate order key servers
