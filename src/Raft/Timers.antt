-- ===== src/Raft/Timers.antt =====
-- Which handlers of raft.go leave a peer with the timer that its role needs.
use building_distributed_sys.Prelude.{
  ℕ, ◌<◌, ◌≡◌, ◌≢◌, true, Bool, Option, ◌||◌, some, none, List, [], ◌∷◌, arith,
}
use building_distributed_sys.Raft.State.{
  done, follower, leader, LogEntry, Raft, AppendEntriesArgs, AppendEntriesReply, RequestVoteArgs,
  RequestVoteReply, AppendCall, persist, signal_committed,
}
use building_distributed_sys.Raft.Vote.{
  request_vote, adopt_term, grant, election_tick, vote_reply, become_leader,
}
use building_distributed_sys.Raft.Replicate.{
  begin_append, finish_append, end_append, resp_append_entries, record_match, advance_commit,
}
use building_distributed_sys.Raft.Append.{append_entries, accept_entries, follow, follow_commit}
use building_distributed_sys.Raft.Node.{start, heartbeat_tick, apply_round, deliver, kill}
use building_distributed_sys.Raft.Cluster.{
  Local, append_request, append_begun, append_reply, append_ended, client, heartbeat, leader_tick,
  apply, killing,
}

-- A leader will send heartbeats, and anybody else will start an election.
pub record IsArmed {C : Type 0} (rf : Raft C) : Type 0 where
  pub beats : rf.state ≡ leader → rf.heartbeat_armed ≡ true
  pub elects : rf.state ≢ leader → rf.election_armed ≡ true

record SameTimers {C : Type 0} (rf rf' : Raft C) : Type 0 where
  same_state : rf'.state ≡ rf.state
  same_heartbeat : rf'.heartbeat_armed ≡ rf.heartbeat_armed
  same_election : rf'.election_armed ≡ rf.election_armed

module _ {C : Type 0} where
  accept_entries-SameTimers :
      (args : AppendEntriesArgs C) (rf : Raft C) {r : Raft C × AppendEntriesReply}
      → accept_entries args rf ≡ done r
      → SameTimers rf r.0
  unfolding accept_entries follow_commit signal_committed
  accept_entries-SameTimers args rf h = ground arith

  record_match-SameTimers :
      (server expected : ℕ) (args : AppendEntriesArgs C) (rf : Raft C) {rf' : Raft C}
      → record_match server expected args rf ≡ done rf'
      → SameTimers rf rf'
  unfolding record_match
  record_match-SameTimers server expected args rf h = ground arith

  advance_commit-SameTimers :
      (server : ℕ) (rf : Raft C) {rf' : Raft C}
      → advance_commit server rf ≡ done rf'
      → SameTimers rf rf'
  unfolding advance_commit signal_committed
  advance_commit-SameTimers server rf h = ground arith

  append_entries-IsArmed :
      (args : AppendEntriesArgs C) (rf : Raft C) {r : Raft C × AppendEntriesReply}
      → append_entries args rf ≡ done r
      → IsArmed rf
      → IsArmed r.0
  unfolding append_entries persist follow
  append_entries-IsArmed args rf h a = grind (arith, accept_entries-SameTimers)

  resp_append_entries-IsArmed :
      (server expected : ℕ) (args : AppendEntriesArgs C) (reply : AppendEntriesReply) (rf : Raft C)
      {r : Raft C × List (AppendCall C)}
      → resp_append_entries server expected args reply rf ≡ done r
      → IsArmed rf
      → IsArmed r.0
  unfolding resp_append_entries persist
  resp_append_entries-IsArmed server expected args reply rf h a =
      grind (arith, record_match-SameTimers, advance_commit-SameTimers)

  deliver-SameTimers :
      (commit : ℕ) (entries : List (LogEntry C)) (rf : Raft C)
      → SameTimers rf (deliver commit entries rf).0
  unfolding deliver
  deliver-SameTimers commit [] rf = ground arith
  deliver-SameTimers commit (entry ∷ entries) rf = ground arith

  -- Every handler outside elections that returns keeps an armed peer armed, those that make a leader
  -- step down included.
  pub Local-IsArmed : {rf rf' : Raft C} → Local rf rf' → IsArmed rf → IsArmed rf'
  unfolding begin_append finish_append end_append persist start heartbeat_tick election_tick
      apply_round kill
  Local-IsArmed {rf} (append_request args h) a = append_entries-IsArmed args rf h a
  Local-IsArmed {rf} (append_begun args) a = ground arith
  Local-IsArmed {rf} (append_reply call none h) a = ground arith
  Local-IsArmed {rf} (append_reply call (some reply) h) a =
      resp_append_entries-IsArmed call.server call.expected_next_index call.args reply rf h a
  Local-IsArmed {rf} append_ended a = ground arith
  Local-IsArmed {rf} (client command h) a = ground arith
  Local-IsArmed {rf} (heartbeat h) a = ground arith
  Local-IsArmed {rf} (leader_tick h) a = ground arith
  Local-IsArmed {rf} (apply h) a = grind (arith, deliver-SameTimers)
  Local-IsArmed {rf} killing a = ground arith

  -- The candidate's own handlers keep it armed too, whether it waits, wins or steps down.
  pub election-IsArmed :
      (rf : Raft C) {r : Raft C × Option RequestVoteArgs}
      → election_tick rf ≡ done r
      → IsArmed rf
      → IsArmed r.0
  unfolding election_tick persist
  election-IsArmed rf h a = ground arith

  pub vote_reply-IsArmed :
      (request : RequestVoteArgs) (response : RequestVoteReply) (total : ℕ) (rf : Raft C)
      {r : Raft C × ℕ × Bool × List (AppendCall C)}
      → vote_reply request response total rf ≡ done r
      → IsArmed rf
      → IsArmed r.0
  unfolding vote_reply persist become_leader
  vote_reply-IsArmed request response total rf h a = ground arith

  -- `RequestVote` is the exception: a leader that is asked to vote in a later term becomes a
  -- follower, and its election timer runs afterwards only if it granted the vote or the timer was
  -- still running while it led.
  pub toppled_leader_timer :
      (args : RequestVoteArgs) (rf : Raft C) {r : Raft C × RequestVoteReply}
      → request_vote args rf ≡ done r
      → rf.state ≡ leader
      → rf.current_term < args.term
      → (r.0.state ≡ follower) × (r.0.election_armed ≡ (r.1.vote_granted || rf.election_armed))
  unfolding request_vote adopt_term grant
  toppled_leader_timer args rf h leads later = ground arith
