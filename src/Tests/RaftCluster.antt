-- ===== src/Tests/RaftCluster.antt =====
-- A cluster of three peers in which peer 0 wins the election of term 1.
use building_distributed_sys.Prelude.{ℕ, ◌/◌, ◌<◌, ◌≡◌, refl, true, some, arith, sum_below}
use building_distributed_sys.Raft.State.{leader}
use building_distributed_sys.Raft.Log.{
  base_index, offset, entry_at, suffix_from, last_entry, last_log_index, last_log_term,
}
use building_distributed_sys.Raft.Replicate.{append_call, heartbeats_from, send_heartbeats}
use building_distributed_sys.Raft.Vote.{
  request_vote, up_to_date, adopt_term, grant, election_tick, conduct_election, become_leader,
  vote_reply, closed,
}
use building_distributed_sys.Raft.State.{persist}
use building_distributed_sys.Raft.Node.{make, read_persist}
use building_distributed_sys.Raft.Cluster.{
  Cluster, init, election, vote_request, vote_counted, Steps, here, later,
}
use building_distributed_sys.Raft.Cluster.Invariant.{counted}
use building_distributed_sys.Raft.Cluster.Elections.{one_leader_per_term, leader_has_quorum}

-- Peer 0 times out, peer 1 grants its vote, and the reply makes peer 0 the leader.
abbrev won : (s : Cluster ℕ) × Steps 3 (init 3) s × ((s.nodes 0).state ≡ leader)
unfolding make read_persist election_tick request_vote vote_reply persist up_to_date adopt_term
    grant become_leader conduct_election last_log_index last_log_term last_entry send_heartbeats
    heartbeats_from append_call entry_at suffix_from offset base_index
won = (
  _,
  later
      (later (later here (election 0 (omega arith) refl))
        (vote_request 0 1 1 (omega arith) refl refl))
      (vote_counted 0 1 1 (omega arith) (omega arith) refl refl),
  refl,
)

one_leader_per_term_example : ◌≡◌ {A = ℕ} 0 0
unfolding won
one_leader_per_term_example = one_leader_per_term won.1 here 0 0 won.2 won.2 refl

leader_has_quorum_example :
    (3 / 2 < sum_below 3 (λ v. counted (won.0.ballot 0 (won.0.nodes 0).current_term v)))
    × ((v : ℕ)
        → won.0.ballot 0 (won.0.nodes 0).current_term v ≡ closed true
        → (won.0.nodes v).current_term ≡ (won.0.nodes 0).current_term
        → (won.0.nodes v).voted_for ≡ some 0)
leader_has_quorum_example = leader_has_quorum won.1 0 won.2
