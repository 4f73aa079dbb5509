-- ===== src/Raft/Votes.antt =====
-- What the handlers of an election promise: a granted vote, a new election, a counted reply.
use building_distributed_sys.Prelude.{
  ℕ, ◌+◌, ◌/◌, ◌≤◌, ◌<◌, ◌≡◌, ◌⊎◌, Bool, true, false, some, List, arith,
}
use building_distributed_sys.Raft.State.{
  done, candidate, leader, Raft, RequestVoteArgs, RequestVoteReply, AppendCall, persist,
}
use building_distributed_sys.Raft.Vote.{
  request_vote, election_tick, vote_reply, become_leader, grant, adopt_term,
}

-- A reply that the candidate can count comes from a peer that is in the term asked for and has
-- its vote with the candidate.
pub record HasVoted {C : Type 0} (args : RequestVoteArgs) (rf' : Raft C) : Type 0 where
  pub in_term : rf'.current_term ≡ args.term
  pub for_candidate : rf'.voted_for ≡ some args.candidate_id

-- A new election: the next term, and a vote for itself.
pub record Opens {C : Type 0} (rf rf' : Raft C) (request : RequestVoteArgs) : Type 0 where
  pub same_peers : rf'.peers ≡ rf.peers
  pub same_me : rf'.me ≡ rf.me
  pub next_term : rf'.current_term ≡ rf.current_term + 1
  pub own_vote : rf'.voted_for ≡ some rf.me
  pub stands : rf'.state ≡ candidate
  pub asks_term : request.term ≡ rf.current_term + 1
  pub asks_for : request.candidate_id ≡ rf.me

-- What a reply does to the candidate and its count.
pub record Counts {C : Type 0} (request : RequestVoteArgs) (response : RequestVoteReply) (total : ℕ)
    (rf rf' : Raft C) (total' : ℕ) (counted : Bool) : Type 0 where
  pub same_peers : rf'.peers ≡ rf.peers
  pub same_me : rf'.me ≡ rf.me
  pub term_le : rf.current_term ≤ rf'.current_term
  pub vote_kept :
      (c : ℕ) → rf'.current_term ≡ rf.current_term → rf.voted_for ≡ some c → rf'.voted_for ≡ some c
  pub is_vote :
      counted ≡ true
      → (total' ≡ total + 1)
        × (response.vote_granted ≡ true)
        × (response.term ≤ request.term)
        × (rf.current_term ≡ request.term)
  pub no_vote : counted ≡ false → total' ≡ total
  pub leads :
      rf'.state ≡ leader
      → ((rf.state ≡ leader) × (rf'.current_term ≡ rf.current_term))
        ⊎ ((rf.peers / 2 < total') × (rf'.current_term ≡ request.term) × (counted ≡ true))

module _ {C : Type 0} where
  pub request_vote-HasVoted :
      (args : RequestVoteArgs) (rf : Raft C) {r : Raft C × RequestVoteReply}
      → request_vote args rf ≡ done r
      → r.1.vote_granted ≡ true
      → r.1.term ≤ args.term
      → HasVoted args r.0
  unfolding request_vote grant adopt_term
  request_vote-HasVoted args rf h granted current = ground arith

  pub election_tick-Opens :
      (rf : Raft C) {rf' : Raft C} {request : RequestVoteArgs}
      → election_tick rf ≡ done (rf', some request)
      → Opens rf rf' request
  unfolding election_tick persist
  election_tick-Opens rf h = ground arith

  pub vote_reply-Counts :
      (request : RequestVoteArgs) (response : RequestVoteReply) (total : ℕ) (rf : Raft C)
      {r : Raft C × ℕ × Bool × List (AppendCall C)}
      → vote_reply request response total rf ≡ done r
      → Counts request response total rf r.0 r.1 r.2
  unfolding vote_reply persist become_leader
  vote_reply-Counts request response total rf h = ground arith
