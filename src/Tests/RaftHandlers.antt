-- ===== src/Tests/RaftHandlers.antt =====
-- The handlers of Raft on a concrete follower, candidate and leader.
use building_distributed_sys.Prelude.{
  ℕ, ◌+◌, ◌-◌, ◌≡◌, refl, true, some, none, arith, List, [], ◌∷◌, map,
}
use building_distributed_sys.Raft.State.{
  done, candidate, leader, LogEntry, Raft, AppendEntriesArgs, AppendEntriesReply, RequestVoteArgs,
  RequestVoteReply, AppendCall,
}
use building_distributed_sys.Raft.Log.{last_entry}
use building_distributed_sys.Raft.Valid.{IsValid, Ensures}
use building_distributed_sys.Raft.Replicate.{resp_append_entries}
use building_distributed_sys.Raft.Replicate.Calls.{AreCalls, others_from}
use building_distributed_sys.Raft.Replicate.Handler.{Responded, resp_append_entries_lem}
use building_distributed_sys.Raft.Vote.{request_vote, vote_reply, become_leader}
use building_distributed_sys.Raft.Vote.Rule.{Votes, request_vote_lem}
use building_distributed_sys.Raft.Vote.Winning.{winning_lem}
use building_distributed_sys.Raft.Node.{make, read_persist, start}
use building_distributed_sys.Raft.Node.Progress.{make-IsValid, appended, start_lem}

abbrev peer : Raft ℕ
unfolding make read_persist
peer = make 3 1 none

peer-IsValid : IsValid peer
unfolding make read_persist
peer-IsValid = make-IsValid 3 1

abbrev entry : ℕ → ℕ → LogEntry ℕ
entry term index = record { term = term; command = some 7; index = index }

abbrev append_args : AppendEntriesArgs ℕ
append_args = record {
  term = 1;
  leader_id = 0;
  prev_log_index = 0;
  prev_log_term = 0;
  entries = entry 1 1 ∷ [];
  leader_commit = 1;
}

abbrev vote_args : RequestVoteArgs
vote_args = record { term = 1; candidate_id = 0; last_log_index = 0; last_log_term = 0 }

request_vote_lem_example :
    (last : LogEntry ℕ) × (last_entry peer.log ≡ some last)
    × ((r : Raft ℕ × RequestVoteReply) × (request_vote vote_args peer ≡ done r)
        × Votes vote_args last peer r)
request_vote_lem_example = request_vote_lem vote_args peer peer-IsValid

-- A candidate of term 1 that lacks one vote.
abbrev standing : Raft ℕ
unfolding make read_persist
standing = record peer { current_term = 1; state = candidate; voted_for = some 1 }

standing-IsValid : IsValid standing
unfolding make read_persist
standing-IsValid = grind arith

winning_lem_example :
    (rf' : Raft ℕ) × (calls : List (AppendCall ℕ)) × (vote_reply vote_args
        (record { term = 0; vote_granted = true })
        1
        standing
      ≡ done (rf', 1 + 1, true, calls))
    × (rf'.state ≡ leader)
    × (rf'.current_term ≡ standing.current_term)
    × (rf'.next_index ≡ map (λ _. standing.commit_index + 1) standing.next_index)
    × (rf'.match_index ≡ standing.match_index)
    × AreCalls (become_leader standing) (others_from standing.me 0 standing.peers) calls
unfolding make read_persist
winning_lem_example =
    winning_lem vote_args (record { term = 0; vote_granted = true }) 1 standing standing-IsValid
      (refl, refl, omega arith, refl, omega arith)

-- A leader of term 1 among five peers, with one entry, and with matches of an earlier term.
abbrev leading : Raft ℕ
unfolding make read_persist
leading = record peer {
  peers = 5;
  current_term = 1;
  state = leader;
  voted_for = some 1;
  log = (record { term = 0; command = none; index = 0 }) ∷ entry 1 1 ∷ [];
  next_index = 1 ∷ 1 ∷ 1 ∷ 1 ∷ 1 ∷ [];
  match_index = 0 ∷ 0 ∷ 0 ∷ 1 ∷ 1 ∷ [];
}

leading-IsValid : IsValid leading
unfolding make read_persist
leading-IsValid = omega arith

abbrev success : AppendEntriesReply
success = record { term = 1; success = true }

resp_append_entries_lem_example :
    Ensures leading
      (Responded 0 2 append_args success leading)
      (resp_append_entries 0 2 append_args success leading)
unfolding make read_persist
resp_append_entries_lem_example =
    resp_append_entries_lem 0 2 append_args success leading leading-IsValid (omega arith)
      (λ _ _. omega arith)

start_lem_example :
    (calls : List (AppendCall ℕ)) × (start 9 leading
      ≡ done (
        appended 9 leading,
        record { index = some (2 - 1 + 1); term = some 1; is_leader = true },
        calls,
      ))
    × IsValid (appended 9 leading)
    × AreCalls (appended 9 leading) (others_from leading.me 0 leading.peers) calls
unfolding make read_persist
start_lem_example = start_lem 9 leading leading-IsValid refl

abbrev committed : Raft ℕ
unfolding make read_persist leading
committed = record leading { commit_index = 1; has_committed = 1 }
