-- ===== src/Net/Harness.antt =====
-- cs426-fall24/lab3/lab3/raft/config.go: how the test harness attaches peers to the network, detaches
-- and crashes them, and compares what they apply. What the harness keeps for each peer is a function of the
-- peer's number, below `n`. A peer is what `GetState` tells of it.
pub mod Links
pub mod Connections
pub mod Agreement
use building_distributed_sys.Prelude.{
  ℕ, zero, suc, ◌+◌, ◌-◌, ◌≡◌, refl, Bool, true, false, not, ◌&&◌, ◌||◌, Option, none, some, List,
  [], ◌∷◌, ltb, ◌==◌, if◌then◌else◌, max,
}
use building_distributed_sys.Prelude.Maps.{Eq, lookup, insert, nat_eq}
use building_distributed_sys.Net.Network.{Network, enable, delete_server}
use building_distributed_sys.Net.Persister.{
  Persister, copy, make_persister, read_raft_state, read_snapshot, save_state_and_snapshot,
}

-- `a[i] = v`
unfoldable pub put {ℓ} : {A : Type ℓ} → ℕ → A → (ℕ → A) → ℕ → A
put i v a j = if i == j then v else a j

-- What the harness knows of the network and its peers: `endnames i` are the names of the ends of peer
-- `i`, if it has been started, `rafts i` the term of the peer and whether it leads, if it runs.
pub record Config (World Command : Type 0) : Type 0 where
  pub net : Network World
  pub n : ℕ
  pub rafts : ℕ → Option (ℕ × Bool)
  pub connected : ℕ → Bool
  pub saved : ℕ → Option Persister
  pub endnames : ℕ → Option (ℕ → ℕ)
  pub logs : ℕ → List (ℕ × Command)
  pub max_index : ℕ

-- `cfg.endnames[i][j]`, where peer `i` has names
unfoldable pub end_of : Option (ℕ → ℕ) → ℕ → Option ℕ
end_of none j = none
end_of (some names) j = some (names j)

module _ {World : Type 0} where
  -- A loop of `connect` over the peers below a number: the ends to be enabled, and for which peers. An end
  -- of a peer without names is an index out of range.
  unfoldable pub enable_ends :
      (ℕ → Option ℕ) → (ℕ → Bool) → ℕ → Network World → Option (Network World)
  enable_ends ends only zero net = some net
  enable_ends ends only (suc j) net = elim (enable_ends ends only j net) [
    | none ↦ none
    | some before ↦
        if only j
        then elim (ends j) [ none ↦ none | some name ↦ some (enable name true before) ]
        else some before
  ]

  -- A loop of `disconnect`, which passes over peers without names.
  unfoldable pub disable_end : Option ℕ → Network World → Network World
  disable_end none net = net
  disable_end (some name) net = enable name false net

  unfoldable pub disable_ends : (ℕ → Option ℕ) → ℕ → Network World → Network World
  disable_ends ends zero net = net
  disable_ends ends (suc j) net = disable_end (ends j) (disable_ends ends j net)

-- The persister that a crashed peer leaves to its successor: a copy, read and saved again.
unfoldable pub crashed_persister : Option Persister → Option Persister
crashed_persister none = none
crashed_persister (some old) =
    let kept = copy old in
    some (save_state_and_snapshot (read_raft_state kept) (read_snapshot kept) make_persister)

module _ {Command : Type 0} (same : Command → Command → Bool) where
  -- The loop of `checkLogs` over the peers below a number: whether one has another command at the index.
  unfoldable pub disagrees : ℕ → Command → (ℕ → List (ℕ × Command)) → ℕ → Bool
  disagrees index v logs zero = false
  disagrees index v logs (suc j) =
      let before = disagrees index v logs j in
      elim (lookup index (logs j)) [
        | none ↦ before
        | some old ↦ if same old v then before else true
      ]

  -- The loop of `nCommitted`: how many peers below a number have the index, and the command; `none` is
  -- t.Fatalf.
  unfoldable pub n_committed : ℕ → (ℕ → List (ℕ × Command)) → ℕ → Option (ℕ × Option Command)
  n_committed index logs zero = some (0, none)
  n_committed index logs (suc j) = elim (n_committed index logs j) [
    | none ↦ none
    | some (count, cmd) ↦ elim (lookup index (logs j)) [
      | none ↦ some (count, cmd)
      | some cmd1 ↦ elim cmd [
        | none ↦ some (count + 1, some cmd1)
        | some cmd0 ↦ if same cmd0 cmd1 then some (count + 1, some cmd1) else none
      ]
    ]
  ]

module _ {World Command : Type 0} where
  -- The ends from peer `i`, and the ends to it.
  abbrev pub outgoing : Config World Command → ℕ → ℕ → Option ℕ
  outgoing cfg i j = end_of (cfg.endnames i) j

  abbrev pub incoming : Config World Command → ℕ → ℕ → Option ℕ
  incoming cfg i j = end_of (cfg.endnames j) i

  -- `connect`; `none` is a panic
  unfoldable pub connect_peer : ℕ → Config World Command → Option (Config World Command)
  connect_peer i cfg =
      let connected = put i true cfg.connected in
      elim (enable_ends (outgoing cfg i) connected cfg.n cfg.net) [
        | none ↦ none
        | some net ↦ elim (enable_ends (incoming cfg i) connected cfg.n net) [
          | none ↦ none
          | some net1 ↦ some (record cfg { connected = connected; net = net1 })
        ]
      ]

  -- `disconnect`
  unfoldable pub disconnect_peer : ℕ → Config World Command → Config World Command
  disconnect_peer i cfg = record cfg {
    connected = put i false cfg.connected;
    net = disable_ends (incoming cfg i) cfg.n (disable_ends (outgoing cfg i) cfg.n cfg.net);
  }

  -- `crash1`; the peer is killed and forgotten
  unfoldable pub crash : ℕ → Config World Command → Config World Command
  crash i cfg =
      let cut = disconnect_peer i cfg in
      record cut {
        net = delete_server i cut.net;
        rafts = put i none cut.rafts;
        saved = put i (crashed_persister (cut.saved i)) cut.saved;
      }

  -- Calls of `connect` and `disconnect`, as tests make them.
  unfoldable pub move_peers : List (ℕ × Bool) → Config World Command → Option (Config World Command)
  move_peers [] cfg = some cfg
  move_peers ((i, attach) ∷ moves) cfg =
      if attach
      then elim (connect_peer i cfg) [ none ↦ none | some next ↦ move_peers moves next ]
      else move_peers moves (disconnect_peer i cfg)

  module _ (same : Command → Command → Bool) where
    -- `checkLogs`: whether there is an error, whether the peer has the index before, and the new logs
    unfoldable pub check_logs :
        ℕ → ℕ → Command → Config World Command → Bool × Bool × Config World Command
    check_logs i index v cfg = (
      disagrees same index v cfg.logs cfg.n,
      elim (lookup (index - 1) (cfg.logs i)) [ none ↦ false | some command ↦ true ],
      record cfg {
        logs = put i (insert index v (cfg.logs i)) cfg.logs;
        max_index = max cfg.max_index index;
      },
    )

    -- `applier` for a valid message; `none` is log.Fatalf
    unfoldable pub apply_msg :
        ℕ → ℕ → Command → Config World Command → Option (Config World Command)
    apply_msg i index v cfg =
        let (clash, prevok, next) = check_logs i index v cfg in
        if (ltb 1 index && not prevok) || clash then none else some next

-- `checkTerms` over the peers below a number: the term of the connected ones, if there are any; `none` is
-- t.Fatalf, or a peer that does not run.
unfoldable pub check_terms : (ℕ → Bool) → (ℕ → Option (ℕ × Bool)) → ℕ → Option (Option ℕ)
check_terms connected rafts zero = some none
check_terms connected rafts (suc j) = elim (check_terms connected rafts j) [
  | none ↦ none
  | some term ↦
      if connected j
      then elim (rafts j) [
        | none ↦ none
        | some (xterm, leader) ↦ elim term [
          | none ↦ some (some xterm)
          | some other ↦ if other == xterm then some (some other) else none
        ]
      ]
      else some term
]

-- `checkNoLeader` over the peers below a number: whether it passes. A peer that does not run is a nil
-- pointer, and does not pass.
unfoldable pub check_no_leader : (ℕ → Bool) → (ℕ → Option (ℕ × Bool)) → ℕ → Bool
check_no_leader connected rafts zero = true
check_no_leader connected rafts (suc j) =
    let before = check_no_leader connected rafts j in
    if connected j
    then elim (rafts j) [ none ↦ false | some (term, leader) ↦ before && not leader ]
    else before
