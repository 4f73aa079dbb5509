-- ===== src/Raft/Terms.antt =====
-- How the handlers of raft.go move a peer's term, vote and role.
use building_distributed_sys.Prelude.{ℕ, ◌≤◌, ◌≡◌, Option, some, List, [], ◌∷◌, arith}
use building_distributed_sys.Raft.State.{
  done, leader, LogEntry, Raft, AppendEntriesArgs, AppendEntriesReply, RequestVoteArgs,
  RequestVoteReply, AppendCall, persist, signal_committed,
}
use building_distributed_sys.Raft.Vote.{request_vote, grant, adopt_term}
use building_distributed_sys.Raft.Replicate.{
  finish_append, resp_append_entries, record_match, advance_commit,
}
use building_distributed_sys.Raft.Append.{append_entries, accept_entries, follow, follow_commit}
use building_distributed_sys.Raft.Node.{
  start, heartbeat_tick, apply_round, deliver, Started, Applied,
}

-- The term only grows, a vote stands for its term, and nobody starts to lead.
pub record Keeps {C : Type 0} (rf rf' : Raft C) : Type 0 where
  pub same_peers : rf'.peers ≡ rf.peers
  pub same_me : rf'.me ≡ rf.me
  pub term_le : rf.current_term ≤ rf'.current_term
  pub vote_kept :
      (c : ℕ) → rf'.current_term ≡ rf.current_term → rf.voted_for ≡ some c → rf'.voted_for ≡ some c
  pub leads : rf'.state ≡ leader → (rf.state ≡ leader) × (rf'.current_term ≡ rf.current_term)

-- What the log part of a handler leaves alone.
record SameVote {C : Type 0} (rf rf' : Raft C) : Type 0 where
  same_peers : rf'.peers ≡ rf.peers
  same_me : rf'.me ≡ rf.me
  same_term : rf'.current_term ≡ rf.current_term
  same_vote : rf'.voted_for ≡ rf.voted_for
  same_state : rf'.state ≡ rf.state

module _ {C : Type 0} where
  signal_committed-SameVote :
      (rf : Raft C) {rf' : Raft C} → signal_committed rf ≡ done rf' → SameVote rf rf'
  unfolding signal_committed
  signal_committed-SameVote rf h = ground arith

  follow_commit-SameVote :
      (n : ℕ) (rf : Raft C) {rf' : Raft C} → follow_commit n rf ≡ done rf' → SameVote rf rf'
  unfolding follow_commit signal_committed
  follow_commit-SameVote n rf h = ground arith

  accept_entries-SameVote :
      (args : AppendEntriesArgs C) (rf : Raft C) {r : Raft C × AppendEntriesReply}
      → accept_entries args rf ≡ done r
      → SameVote rf r.0
  unfolding accept_entries
  accept_entries-SameVote args rf h = grind (arith, follow_commit-SameVote)

  record_match-SameVote :
      (server expected : ℕ) (args : AppendEntriesArgs C) (rf : Raft C) {rf' : Raft C}
      → record_match server expected args rf ≡ done rf'
      → SameVote rf rf'
  unfolding record_match
  record_match-SameVote server expected args rf h = ground arith

  advance_commit-SameVote :
      (server : ℕ) (rf : Raft C) {rf' : Raft C}
      → advance_commit server rf ≡ done rf'
      → SameVote rf rf'
  unfolding advance_commit signal_committed
  advance_commit-SameVote server rf h = ground arith

  pub request_vote-Keeps :
      (args : RequestVoteArgs) (rf : Raft C) {r : Raft C × RequestVoteReply}
      → request_vote args rf ≡ done r
      → Keeps rf r.0
  unfolding request_vote adopt_term grant
  request_vote-Keeps args rf h = ground arith

  pub append_entries-Keeps :
      (args : AppendEntriesArgs C) (rf : Raft C) {r : Raft C × AppendEntriesReply}
      → append_entries args rf ≡ done r
      → Keeps rf r.0
  unfolding append_entries persist follow
  append_entries-Keeps args rf h = grind (arith, accept_entries-SameVote)

  resp_append_entries-Keeps :
      (server expected : ℕ) (args : AppendEntriesArgs C) (reply : AppendEntriesReply) (rf : Raft C)
      {r : Raft C × List (AppendCall C)}
      → resp_append_entries server expected args reply rf ≡ done r
      → Keeps rf r.0
  unfolding resp_append_entries persist
  resp_append_entries-Keeps server expected args reply rf h =
      grind (arith, record_match-SameVote, advance_commit-SameVote)

  pub finish_append-Keeps :
      (call : AppendCall C) (reply : Option AppendEntriesReply) (rf : Raft C)
      {r : Raft C × List (AppendCall C)}
      → finish_append call reply rf ≡ done r
      → Keeps rf r.0
  unfolding finish_append persist
  finish_append-Keeps call reply rf h = grind (arith, resp_append_entries-Keeps)

  pub start-Keeps :
      (command : C) (rf : Raft C) {r : Raft C × Started × List (AppendCall C)}
      → start command rf ≡ done r
      → Keeps rf r.0
  unfolding start persist
  start-Keeps command rf h = ground arith

  pub heartbeat_tick-Keeps :
      (rf : Raft C) {r : Raft C × List (AppendCall C)} → heartbeat_tick rf ≡ done r → Keeps rf r.0
  unfolding heartbeat_tick
  heartbeat_tick-Keeps rf h = ground arith

  deliver-Keeps :
      (commit : ℕ) (entries : List (LogEntry C)) (rf : Raft C)
      → Keeps rf (deliver commit entries rf).0
  unfolding deliver
  deliver-Keeps commit [] rf = ground arith
  deliver-Keeps commit (entry ∷ entries) rf = ground arith

  pub apply_round-Keeps :
      (rf : Raft C) {r : Raft C × Applied C} → apply_round rf ≡ done r → Keeps rf r.0
  unfolding apply_round
  apply_round-Keeps rf h = grind (arith, deliver-Keeps)
