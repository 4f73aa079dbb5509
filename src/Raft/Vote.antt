-- ===== src/Raft/Vote.antt =====
-- Elections in raft.go: `RequestVote`, the election branch of `ticker`, and `conductElection`.
pub mod Rule
pub mod Winning
use building_distributed_sys.Prelude.{
  ℕ, ◌+◌, ◌/◌, Bool, true, false, Option, none, some, List, [], map, ltb, leb, ◌==◌, ◌&&◌,
  if◌then◌else◌,
}
use building_distributed_sys.Raft.State.{
  Outcome, done, ◌>>=◌, follower, candidate, leader, is_leader, is_candidate, LogEntry, Raft,
  RequestVoteArgs, RequestVoteReply, AppendCall, persist,
}
use building_distributed_sys.Raft.Log.{last_log_index, last_log_term}
use building_distributed_sys.Raft.Replicate.{send_heartbeats}

-- The comparisons of a term with `lastLogTerm()`, which is -1 (`none`) for an empty log.
abbrev pub newer_term : ℕ → Option ℕ → Bool
newer_term t none = true
newer_term t (some u) = ltb u t

abbrev pub same_term : ℕ → Option ℕ → Bool
same_term t none = false
same_term t (some u) = t == u

-- `rf.votedFor == -1 || rf.votedFor == args.CandidateId`
abbrev pub may_vote_for : ℕ → Option ℕ → Bool
may_vote_for c none = true
may_vote_for c (some d) = d == c

-- The ballot of one peer in one election: its request not sent, sent, answered, or its goroutine
-- over, with whether it counted as a vote.
pub data Ballot : Type 0 where
  unsent : Ballot
  sent : RequestVoteArgs → Ballot
  replied : RequestVoteArgs → RequestVoteReply → Ballot
  closed : Bool → Ballot

module _ {C : Type 0} where
  -- The candidate's log is at least as up to date; the index is compared only at equal terms.
  unfoldable pub up_to_date : RequestVoteArgs → List (LogEntry C) → Outcome Bool
  up_to_date args log =
      if newer_term args.last_log_term (last_log_term log)
      then done true
      else if same_term args.last_log_term (last_log_term log)
      then (do last ← last_log_index log; done (leb last args.last_log_index))
      else done false

  -- `if args.Term > rf.currentTerm { ... }`
  unfoldable pub adopt_term : ℕ → Raft C → Raft C
  adopt_term term rf =
      if ltb rf.current_term term
      then record rf { current_term = term; state = follower; voted_for = none }
      else rf

  -- The branch that grants the vote, or not.
  unfoldable pub grant : RequestVoteArgs → ℕ → Bool → Raft C → Raft C × RequestVoteReply
  grant args reply_term fresh rf =
      if fresh && may_vote_for args.candidate_id rf.voted_for
      then (
        record rf { voted_for = some args.candidate_id; election_armed = true },
        record { term = reply_term; vote_granted = true },
      )
      else (rf, record { term = reply_term; vote_granted = false })

  -- `RequestVote`. The reply has the term from before the request was looked at.
  unfoldable pub request_vote : RequestVoteArgs → Raft C → Outcome (Raft C × RequestVoteReply)
  request_vote args rf = do
    fresh ← up_to_date args (adopt_term args.term rf).log
    done (grant args rf.current_term fresh (adopt_term args.term rf))

  -- The case `<-rf.electionTime.C` of `ticker`: the request of the election that starts.
  unfoldable pub election_tick : Raft C → Outcome (Raft C × Option RequestVoteArgs)
  election_tick rf =
      if is_leader rf.state then done (record rf { election_armed = false }, none) else (do
        last ← last_log_index rf.log
        done (
          record (persist rf) {
            current_term = rf.current_term + 1;
            state = candidate;
            voted_for = some rf.me;
            election_armed = true;
          },
          some (record {
            term = rf.current_term + 1;
            candidate_id = rf.me;
            last_log_index = last;
            last_log_term = elim (last_log_term rf.log) [ none ↦ 0 | some t ↦ t ];
          }),
        ))

  -- The goroutines that `conductElection` starts, one for each other peer. The candidate's own
  -- vote, `totalVotes := 1`, is its ballot closed at once.
  unfoldable pub conduct_election : Raft C → RequestVoteArgs → ℕ → Ballot
  conduct_election rf request peer =
      if peer == rf.me then closed true else if ltb peer rf.peers then sent request else unsent

  -- `for idx := ... { rf.nextIndex[idx] = rf.commitIndex + 1 }; rf.state = "Leader"`
  unfoldable pub become_leader : Raft C → Raft C
  become_leader rf = record rf {
    next_index = map (λ _. rf.commit_index + 1) rf.next_index;
    state = leader;
  }

  -- A peer's goroutine in `conductElection` after its RPC returned: the peer, the new
  -- `totalVotes`, whether this vote was counted, and the heartbeats sent on winning.
  unfoldable pub vote_reply :
      RequestVoteArgs
      → RequestVoteReply
      → ℕ
      → Raft C
      → Outcome (Raft C × ℕ × Bool × List (AppendCall C))
  vote_reply request response total_votes rf =
      if is_candidate rf.state && rf.current_term == request.term
      then (if ltb rf.current_term response.term
          then done (
            record (persist rf) {
              state = follower;
              current_term = response.term;
              voted_for = none;
              election_armed = true;
            },
            total_votes,
            false,
            [],
          )
          else if response.vote_granted
          then (if ltb (rf.peers / 2) (total_votes + 1)
              then (do
                calls ← send_heartbeats (become_leader rf)
                done (
                  record (become_leader rf) { heartbeat_armed = true },
                  total_votes + 1,
                  true,
                  calls,
                ))
              else done (rf, total_votes + 1, true, []))
          else done (rf, total_votes, false, []))
      else done (rf, total_votes, false, [])
