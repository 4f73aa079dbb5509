-- ===== src/Raft/Cluster/Invariant/Local.antt =====
-- The steps that touch no ballot keep the invariant.
use building_distributed_sys.Prelude.{ℕ, ◌≡◌, none, update, arith}
use building_distributed_sys.Raft.State.{done, Raft}
use building_distributed_sys.Raft.Vote.{election_tick}
use building_distributed_sys.Raft.Replicate.{begin_append, end_append}
use building_distributed_sys.Raft.State.{persist}
use building_distributed_sys.Raft.Node.{kill}
use building_distributed_sys.Raft.Terms.{
  Keeps, append_entries-Keeps, finish_append-Keeps, start-Keeps, heartbeat_tick-Keeps,
  apply_round-Keeps,
}
use building_distributed_sys.Raft.Cluster.{
  Cluster, Local, append_request, append_begun, append_reply, append_ended, client, heartbeat,
  leader_tick, apply, killing,
}
use building_distributed_sys.Raft.Cluster.Invariant.Defs.{Inv}

module _ {C : Type 0} where
  begin_append-Keeps : (args : _) (rf : Raft C) → Keeps rf (begin_append args rf).0
  unfolding begin_append persist
  begin_append-Keeps args rf = ground arith

  leader_tick-Keeps :
      (rf : Raft C) {rf' : Raft C} → election_tick rf ≡ done (rf', none) → Keeps rf rf'
  unfolding election_tick
  leader_tick-Keeps rf h = ground arith

  end_append-Keeps : (rf : Raft C) → Keeps rf (end_append rf)
  unfolding end_append persist
  end_append-Keeps rf = ground arith

  kill-Keeps : (rf : Raft C) → Keeps rf (kill rf)
  unfolding kill
  kill-Keeps rf = ground arith

  pub Local-Keeps : {rf rf' : Raft C} → Local rf rf' → Keeps rf rf'
  Local-Keeps {rf} (append_request args h) = append_entries-Keeps args rf h
  Local-Keeps {rf} (append_begun args) = begin_append-Keeps args rf
  Local-Keeps {rf} (append_reply call reply h) = finish_append-Keeps call reply rf h
  Local-Keeps {rf} append_ended = end_append-Keeps rf
  Local-Keeps {rf} (client command h) = start-Keeps command rf h
  Local-Keeps {rf} (heartbeat h) = heartbeat_tick-Keeps rf h
  Local-Keeps {rf} (leader_tick h) = leader_tick-Keeps rf h
  Local-Keeps {rf} (apply h) = apply_round-Keeps rf h
  Local-Keeps {rf} killing = kill-Keeps rf

module _ {C : Type 0} {n : ℕ} {s : Cluster C} (inv : Inv n s) where
  open inv use {peers, me, fresh, asks, tally, reached, voted, unique, wins}

  -- A peer moves by a handler that keeps terms and votes.
  pub local-Inv :
      (i : ℕ) (rf' : Raft C)
      → Keeps (s.nodes i) rf'
      → Inv n (record s { nodes = update s.nodes i rf' })
  local-Inv i rf' k = record {
    peers = λ j. ground (arith, peers j);
    me = λ j. ground (arith, me j);
    fresh = λ j t v h. ground (arith, fresh j t v);
    asks = asks;
    tally = tally;
    reached = λ j t v g. ground (arith, reached j t v);
    voted = λ j t v g h. ground (arith, voted j t v, reached j t v, k.vote_kept j);
    unique = unique;
    wins = λ j h. ground (arith, wins j, k.leads);
  }
