-- ===== src/Tests/RaftPeer.antt =====
-- Single peers of Raft at concrete states: a toppled leader, a crash between two votes.
use building_distributed_sys.Prelude.{◌||◌, ℕ, ◌≡◌, refl, true, false, some, none, arith, [], ◌∷◌}
use building_distributed_sys.Raft.State.{
  follower, leader, Persisted, Raft, AppendCall, persist, RequestVoteArgs,
}
use building_distributed_sys.Raft.Log.{last_entry, last_log_index, last_log_term}
use building_distributed_sys.Raft.Vote.{request_vote, adopt_term, grant, up_to_date}
use building_distributed_sys.Raft.Replicate.{finish_append, resp_append_entries}
use building_distributed_sys.Raft.Node.{make, read_persist}
use building_distributed_sys.Raft.Cluster.{Local, append_reply}
use building_distributed_sys.Raft.Timers.{IsArmed, Local-IsArmed, toppled_leader_timer}
use building_distributed_sys.Raft.Crash.{restart, Grants, two_votes_after_restart}

abbrev fresh_peer : Raft ℕ
unfolding make read_persist
fresh_peer = make 3 1 none

abbrev saved_state : Persisted ℕ
saved_state = record {
  current_term = 0;
  voted_for = none;
  log = record { term = 0; command = none; index = 0 } ∷ [];
}

abbrev saved_peer : Raft ℕ
unfolding make read_persist
saved_peer = make 3 1 (some saved_state)

-- A leader of term 2 whose election timer fired while it led, with an entry of term 2.
abbrev old_leader : Raft ℕ
unfolding make read_persist
old_leader = record fresh_peer {
  current_term = 2;
  state = leader;
  election_armed = false;
  log =
      (record { term = 0; command = none; index = 0 })
      ∷ (record { term = 2; command = some 7; index = 1 })
      ∷ [];
}

abbrev ask : ℕ → ℕ → RequestVoteArgs
ask term candidate = record {
  term = term;
  candidate_id = candidate;
  last_log_index = 0;
  last_log_term = 0;
}

-- The same leader with its heartbeat timer, which a reply of term 3 makes a follower.
abbrev beating : Raft ℕ
unfolding make read_persist old_leader
beating = record old_leader { heartbeat_armed = true }

abbrev call : AppendCall ℕ
call = record {
  server = 0;
  expected_next_index = 2;
  args = record {
    term = 2;
    leader_id = 1;
    prev_log_index = 0;
    prev_log_term = 0;
    entries = [];
    leader_commit = 0;
  };
}

abbrev demoted : Raft ℕ
unfolding make read_persist beating persist
demoted = record (persist beating) {
  state = follower;
  voted_for = none;
  current_term = 3;
  election_armed = true;
}

Local-IsArmed_example : IsArmed demoted
unfolding make read_persist persist finish_append resp_append_entries
Local-IsArmed_example =
    let l : Local beating demoted =
      append_reply call (some (record { term = 3; success = false })) {r = (demoted, [])} refl in
    Local-IsArmed l (record { beats = λ h. refl; elects = λ h. absurd (h refl) })

abbrev toppled : Raft ℕ
unfolding make read_persist old_leader
toppled = record old_leader { current_term = 3; state = follower; voted_for = none }

-- Nobody will start an election from this peer again until it hears from another one.
toppled_leader_timer_example :
    (toppled.state ≡ follower) × (toppled.election_armed ≡ (false || old_leader.election_armed))
unfolding make read_persist request_vote grant adopt_term up_to_date last_log_term last_entry
toppled_leader_timer_example = toppled_leader_timer (ask 3 0) old_leader refl refl (omega arith)

two_votes_after_restart_example :
    (rf1 : Raft ℕ) × (rf2 : Raft ℕ) × Grants (ask 1 0) saved_peer rf1
    × Grants (ask 1 2) (restart rf1) rf2
    × (rf1.current_term ≡ rf2.current_term)
    × (rf1.voted_for ≡ some 0)
    × (rf2.voted_for ≡ some 2)
unfolding make read_persist up_to_date last_log_index last_log_term last_entry
two_votes_after_restart_example =
    two_votes_after_restart saved_peer saved_state (ask 1 0) (ask 1 2) refl refl (omega arith)
      (omega arith) refl refl refl
