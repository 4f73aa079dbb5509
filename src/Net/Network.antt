-- ===== src/Net/Network.antt =====
-- cs426-fall24/lab3/lab3/labrpc/labrpc.go: the network's tables and the methods that change or read
-- them. Ends and servers have numbers as names; a `*Server` is its place in the list of all servers,
-- and `none` is nil.
use building_distributed_sys.Prelude.{
  ℕ, Bool, true, false, not, Option, none, some, List, [], ◌∷◌, ◌++◌, ◌==◌, if◌then◌else◌, length,
  get_elem?,
}
use building_distributed_sys.Prelude.Maps.{lookup, insert, nat_eq}
use building_distributed_sys.Net.Server.{Server}

pub record ClientEnd : Type 0 where
  pub endname : ℕ

-- `Network`; `heap` has every server that `MakeServer` made, `done` whether the channel is closed.
pub record Network (World : Type 0) : Type 0 where
  pub reliable : Bool
  pub long_delays : Bool
  pub long_reordering : Bool
  pub ends : List (ℕ × ClientEnd)
  pub enabled : List (ℕ × Bool)
  pub servers : List (ℕ × Option ℕ)
  pub connections : List (ℕ × Option ℕ)
  pub heap : List (Server World)
  pub done : Bool
  pub count : ℕ
  pub bytes : ℕ

-- `m[k]` of a map with nil or false as its zero value
unfoldable pub or_nil : Option (Option ℕ) → Option ℕ
or_nil none = none
or_nil (some p) = p

unfoldable pub or_false : Option Bool → Bool
or_false none = false
or_false (some b) = b

-- Equality of two pointers to servers.
unfoldable pub same_pointer : Option ℕ → Option ℕ → Bool
same_pointer none none = true
same_pointer none (some b) = false
same_pointer (some a) none = false
same_pointer (some a) (some b) = a == b

-- What `readEndnameInfo` returns.
pub record EndnameInfo : Type 0 where
  pub enabled : Bool
  pub servername : Option ℕ
  pub server : Option ℕ
  pub reliable : Bool
  pub long_reordering : Bool

module _ {World : Type 0} where
  -- `MakeNetwork`
  unfoldable pub make_network : Network World
  make_network = record {
    reliable = true;
    long_delays = false;
    long_reordering = false;
    ends = [];
    enabled = [];
    servers = [];
    connections = [];
    heap = [];
    done = false;
    count = 0;
    bytes = 0;
  }

  unfoldable pub cleanup : Network World → Network World
  cleanup rn = record rn { done = true }

  -- `Reliable`
  unfoldable pub set_reliable : Bool → Network World → Network World
  set_reliable on rn = record rn { reliable = on }

  -- `LongReordering`
  unfoldable pub set_long_reordering : Bool → Network World → Network World
  set_long_reordering on rn = record rn { long_reordering = on }

  -- `LongDelays`
  unfoldable pub set_long_delays : Bool → Network World → Network World
  set_long_delays on rn = record rn { long_delays = on }

  -- `MakeEnd`; `none` is log.Fatalf
  unfoldable pub make_end : ℕ → Network World → Option (Network World × ClientEnd)
  make_end endname rn = elim (lookup endname rn.ends) [
    | some old ↦ none
    | none ↦ some (
      record rn {
        ends = insert endname (record { endname = endname }) rn.ends;
        enabled = insert endname false rn.enabled;
        connections = insert endname none rn.connections;
      },
      record { endname = endname },
    )
  ]

  -- `MakeServer`, and the services that are added to it: the place of the new server.
  unfoldable pub new_server : Server World → Network World → Network World × ℕ
  new_server rs rn = (record rn { heap = rn.heap ++ rs ∷ [] }, length rn.heap)

  unfoldable pub add_server : ℕ → ℕ → Network World → Network World
  add_server servername rs rn = record rn { servers = insert servername (some rs) rn.servers }

  unfoldable pub delete_server : ℕ → Network World → Network World
  delete_server servername rn = record rn { servers = insert servername none rn.servers }

  -- `Connect`
  unfoldable pub connect_end : ℕ → ℕ → Network World → Network World
  connect_end endname servername rn = record rn {
    connections = insert endname (some servername) rn.connections;
  }

  unfoldable pub enable : ℕ → Bool → Network World → Network World
  enable endname enabled rn = record rn { enabled = insert endname enabled rn.enabled }

  -- `servers[servername]`
  unfoldable pub server_named : Network World → Option ℕ → Option ℕ
  server_named rn none = none
  server_named rn (some servername) = or_nil (lookup servername rn.servers)

  -- `readEndnameInfo`
  unfoldable pub read_endname_info : ℕ → Network World → EndnameInfo
  read_endname_info endname rn =
      let servername = or_nil (lookup endname rn.connections) in
      record {
        enabled = or_false (lookup endname rn.enabled);
        servername = servername;
        server = server_named rn servername;
        reliable = rn.reliable;
        long_reordering = rn.long_reordering;
      }

  -- `isServerDead`
  unfoldable pub is_server_dead : ℕ → Option ℕ → Option ℕ → Network World → Bool
  is_server_dead endname servername server rn =
      if not (or_false (lookup endname rn.enabled))
      then true
      else not (same_pointer (server_named rn servername) server)

  -- `GetCount`; `none` is a nil pointer
  unfoldable pub get_count : ℕ → Network World → Option ℕ
  get_count servername rn = elim (server_named rn (some servername)) [
    | none ↦ none
    | some address ↦ elim (get_elem? rn.heap address) [ none ↦ none | some rs ↦ some rs.count ]
  ]

  unfoldable pub get_total_count : Network World → ℕ
  get_total_count rn = rn.count

  unfoldable pub get_total_bytes : Network World → ℕ
  get_total_bytes rn = rn.bytes
