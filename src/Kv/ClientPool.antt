-- ===== src/Kv/ClientPool.antt =====
-- cs426-fall24/lab4/kv/clientpool.go: the pool that caches the clients of the nodes.
use building_distributed_sys.Prelude.{◌≡◌, ◌⊎◌, inl, inr, String, none, some, List, [], ◌∷◌, arith}
use building_distributed_sys.Prelude.Maps.{string_eq, lookup, insert, lookup-insert}
use building_distributed_sys.Kv.ShardMap.{NodeInfo}

pub data PoolError (E : Type 0) : Type 0 where
  no_node : String → PoolError E
  no_connection : E → PoolError E

-- `connect` stands for grpc.Dial at the node's address. `nodes` is `pool.shardMap.Nodes()`, and
-- `Client` is a client with its connection.
module _ {E Client : Type 0} (connect : NodeInfo → E ⊎ Client)
    (nodes : List (String × NodeInfo)) where
  -- The part of `GetClient` under the exclusive lock
  unfoldable pub get_locked :
      String → List (String × Client) → List (String × Client) × (PoolError E ⊎ Client)
  get_locked name clients = elim (lookup name clients) [
    | some client ↦ (clients, inr client)
    | none ↦ elim (lookup name nodes) [
      | none ↦ (clients, inl (no_node name))
      | some info ↦ elim (connect info) [
        | inl e ↦ (clients, inl (no_connection e))
        | inr client ↦ (insert name client clients, inr client)
      ]
    ]
  ]

  -- `GetClient`: `seen` are the clients at the time of the read lock, `clients` at the time of the
  -- exclusive one.
  unfoldable pub get_client :
      String
      → List (String × Client)
      → List (String × Client)
      → List (String × Client) × (PoolError E ⊎ Client)
  get_client name seen clients = elim (lookup name seen) [
    | some client ↦ (clients, inr client)
    | none ↦ get_locked name clients
  ]

  get_locked-keeps :
      (name other : String) (clients : List (String × Client)) (client : Client)
      → lookup other clients ≡ some client
      → lookup other (get_locked name clients).0 ≡ some client
  unfolding get_locked
  get_locked-keeps name other clients client h =
      grind (arith, lookup-insert, string_eq.beq_iff name other)

  -- A client that `GetClient` gives out of a pool stays in the pool: another `GetClient`, for
  -- this node or another, in a race or not, keeps it there.
  pub get_client-keeps :
      (name other : String) (seen clients : List (String × Client)) (client : Client)
      → lookup other clients ≡ some client
      → lookup other (get_client name seen clients).0 ≡ some client
  unfolding get_client
  get_client-keeps name other seen clients client h =
      ground (arith, get_locked-keeps name other clients client h)

  -- What was in the pool at one time is in it at a later one.
  abbrev pub IsOlder : List (String × Client) → List (String × Client) → Type 0
  IsOlder seen clients =
      (name : String) (client : Client)
      → lookup name seen ≡ some client
      → lookup name clients ≡ some client

  -- The pool after more calls of `GetClient`, each with its node and the clients it saw first.
  abbrev pub run_calls :
      List (String × List (String × Client)) → List (String × Client) → List (String × Client)
  run_calls [] clients = clients
  run_calls ((name, seen) ∷ rest) clients = run_calls rest (get_client name seen clients).0
