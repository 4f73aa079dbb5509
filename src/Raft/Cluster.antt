-- ===== src/Raft/Cluster.antt =====
-- A cluster of the peers of raft.go: the peers, the vote RPCs in flight, and the steps that its
-- goroutines and the network of labrpc can take, in any order. Requests and replies of
-- AppendEntries are left to the network: a peer may be handed any. Crashes are not steps.
pub mod Invariant
pub mod Elections
use building_distributed_sys.Prelude.{
  ℕ, ◌<◌, ◌≡◌, Bool, true, false, Option, none, some, List, ◌==◌, ◌&&◌, update, if◌then◌else◌,
}
use building_distributed_sys.Raft.State.{
  Outcome, done, Raft, AppendEntriesArgs, AppendEntriesReply, RequestVoteArgs, RequestVoteReply,
  AppendCall,
}
use building_distributed_sys.Raft.Vote.{
  Ballot, unsent, sent, replied, closed, request_vote, election_tick, conduct_election, vote_reply,
}
use building_distributed_sys.Raft.Replicate.{begin_append, finish_append, end_append}
use building_distributed_sys.Raft.Append.{append_entries}
use building_distributed_sys.Raft.Node.{
  make, start, Started, heartbeat_tick, Applied, apply_round, kill,
}

abbrev pub update2 {ℓ} : {A : Type ℓ} → (ℕ → ℕ → A) → ℕ → ℕ → A → ℕ → ℕ → A
update2 f i t a j u = if i == j && t == u then a else f j u

abbrev pub update3 {ℓ} : {A : Type ℓ} → (ℕ → ℕ → ℕ → A) → ℕ → ℕ → ℕ → A → ℕ → ℕ → ℕ → A
update3 f i t v a j u w = if i == j && t == u && v == w then a else f j u w

-- `ballot i t v` is the vote of peer `v` in the election of peer `i` for term `t`, and
-- `total_votes i t` the variable `totalVotes` of that election.
pub record Cluster (C : Type 0) : Type 0 where
  pub nodes : ℕ → Raft C
  pub ballot : ℕ → ℕ → ℕ → Ballot
  pub total_votes : ℕ → ℕ → ℕ

-- `n` peers that were just made, with nothing persisted
abbrev pub init : {C : Type 0} → ℕ → Cluster C
init n = record { nodes = λ i. make n i none; ballot = λ i t v. unsent; total_votes = λ i t. 0 }

-- What a peer does that touches no vote RPC of an election.
pub data Local {C : Type 0} (rf : Raft C) : Raft C → Type 0 where
  append_request :
      (args : AppendEntriesArgs C) {r : Raft C × AppendEntriesReply}
      → append_entries args rf ≡ done r
      → Local rf r.0
  append_begun : (args : AppendEntriesArgs C) → Local rf (begin_append args rf).0
  append_reply :
      (call : AppendCall C) (reply : Option AppendEntriesReply) {r : Raft C × List (AppendCall C)}
      → finish_append call reply rf ≡ done r
      → Local rf r.0
  append_ended : Local rf (end_append rf)
  client :
      (command : C) {r : Raft C × Started × List (AppendCall C)}
      → start command rf ≡ done r
      → Local rf r.0
  heartbeat : {r : Raft C × List (AppendCall C)} → heartbeat_tick rf ≡ done r → Local rf r.0
  leader_tick : {rf' : Raft C} → election_tick rf ≡ done (rf', none) → Local rf rf'
  apply : {r : Raft C × Applied C} → apply_round rf ≡ done r → Local rf r.0
  killing : Local rf (kill rf)

pub data Step {C : Type 0} (n : ℕ) (s : Cluster C) : Cluster C → Type 0 where
  local :
      (i : ℕ) {rf' : Raft C}
      → i < n
      → Local (s.nodes i) rf'
      → Step n s (record s { nodes = update s.nodes i rf' })
  election :
      (i : ℕ) {rf' : Raft C} {request : RequestVoteArgs}
      → i < n
      → election_tick (s.nodes i) ≡ done (rf', some request)
      → Step n s (record s {
        nodes = update s.nodes i rf';
        ballot = update2 s.ballot i request.term (conduct_election rf' request);
        total_votes = update2 s.total_votes i request.term 1;
      })
  vote_request :
      (i t v : ℕ) {request : RequestVoteArgs} {r : Raft C × RequestVoteReply}
      → v < n
      → s.ballot i t v ≡ sent request
      → request_vote request (s.nodes v) ≡ done r
      → Step n s (record s {
        nodes = update s.nodes v r.0;
        ballot = update3 s.ballot i t v (replied request r.1);
      })
  request_lost :
      (i t v : ℕ) {request : RequestVoteArgs}
      → v < n
      → s.ballot i t v ≡ sent request
      → Step n s (record s { ballot = update3 s.ballot i t v (closed false) })
  reply_lost :
      (i t v : ℕ) {request : RequestVoteArgs} {response : RequestVoteReply}
      → v < n
      → s.ballot i t v ≡ replied request response
      → Step n s (record s { ballot = update3 s.ballot i t v (closed false) })
  vote_counted :
      (i t v : ℕ) {request : RequestVoteArgs} {response : RequestVoteReply}
      {r : Raft C × ℕ × Bool × List (AppendCall C)}
      → i < n
      → v < n
      → s.ballot i t v ≡ replied request response
      → vote_reply request response (s.total_votes i t) (s.nodes i) ≡ done r
      → Step n s (record s {
        nodes = update s.nodes i r.0;
        ballot = update3 s.ballot i t v (closed r.2);
        total_votes = update2 s.total_votes i t r.1;
      })

pub data Steps {C : Type 0} (n : ℕ) (s : Cluster C) : Cluster C → Type 0 where
  here : Steps n s s
  later : {t u : Cluster C} → Steps n s t → Step n t u → Steps n s u
