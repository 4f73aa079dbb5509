-- ===== src/Raft/Vote/Rule.antt =====
-- The voting rule of `RequestVote`, on a well-formed peer.
use building_distributed_sys.Prelude.{
  ℕ, ◌≤◌, ◌<◌, ◌≡◌, ◌⊎◌, ◌↔◌, ap, ◌∙◌, ◌||◌, ◌&&◌, inl, inr, Bool, Bool-cases, true, none, some,
  List, arith, ltb, leb, ◌==◌,
}
use building_distributed_sys.Raft.State.{done, LogEntry, Raft, RequestVoteArgs, RequestVoteReply}
use building_distributed_sys.Raft.Log.{last_entry, last_log_index, last_log_term}
use building_distributed_sys.Raft.Log.Laws.{last_entry_lem}
use building_distributed_sys.Raft.Valid.{IsValid}
use building_distributed_sys.Raft.Vote.{may_vote_for, up_to_date, adopt_term, grant, request_vote}

-- The candidate's log is at least as up to date as a log that ends with `last`.
abbrev pub AtLeast : {C : Type 0} → RequestVoteArgs → LogEntry C → Type 0
AtLeast args last =
    (last.term < args.last_log_term)
    ⊎ ((args.last_log_term ≡ last.term) × (last.index ≤ args.last_log_index))

-- The peer has no vote for another candidate in the term that it is in after the request.
abbrev pub IsFree : {C : Type 0} → RequestVoteArgs → Raft C → Type 0
IsFree args rf =
    (rf.current_term < args.term)
    ⊎ ((rf.voted_for ≡ none) ⊎ (rf.voted_for ≡ some args.candidate_id))

-- What `RequestVote` answers and leaves.
pub record Votes {C : Type 0} (args : RequestVoteArgs) (last : LogEntry C) (rf : Raft C)
    (r : Raft C × RequestVoteReply) : Type 0 where
  pub valid : IsValid r.0
  pub answers_old_term : r.1.term ≡ rf.current_term
  pub same_log : r.0.log ≡ rf.log
  pub same_commit : r.0.commit_index ≡ rf.commit_index
  pub only_if : r.1.vote_granted ≡ true → AtLeast args last × IsFree args rf
  pub whenever : AtLeast args last → IsFree args rf → r.1.vote_granted ≡ true
  pub records : r.1.vote_granted ≡ true → r.0.voted_for ≡ some args.candidate_id

module _ {C : Type 0} where
  adopt_term-IsValid : (term : ℕ) (rf : Raft C) → IsValid rf → IsValid (adopt_term term rf)
  unfolding adopt_term
  adopt_term-IsValid term rf v = ground arith

  adopted_log : (term : ℕ) (rf : Raft C) → (adopt_term term rf).log ≡ rf.log
  unfolding adopt_term
  adopted_log term rf = ground arith

  up_to_date_lem :
      (args : RequestVoteArgs) (log : List (LogEntry C)) (last : LogEntry C)
      → last_entry log ≡ some last
      → (b : Bool) × (up_to_date args log ≡ done b) × ((b ≡ true) ↔ AtLeast args last)
  unfolding up_to_date last_log_index last_log_term
  up_to_date_lem args log last e = (
    ltb last.term args.last_log_term
        || (args.last_log_term == last.term && leb last.index args.last_log_index),
    rw e (ground arith),
    (λ h. ground arith, λ h. ground arith),
  )

  grant-IsValid :
      (args : RequestVoteArgs) (term : ℕ) (fresh : Bool) (rf : Raft C)
      → IsValid rf
      → IsValid (grant args term fresh rf).0
  unfolding grant
  grant-IsValid args term fresh rf v =
      elim (Bool-cases (fresh && may_vote_for args.candidate_id rf.voted_for)) [
        | inr no_vote ↦ rw no_vote v
        | inl vote ↦ rw vote (record {
          logged = v.logged;
          committed = v.committed;
          applied = v.applied;
          nexts = v.nexts;
          matches = v.matches;
          next_valid = v.next_valid;
          match_valid = v.match_valid;
        })
      ]

  grant_lem :
      (args : RequestVoteArgs) (last : LogEntry C) (rf : Raft C) (fresh : Bool)
      → IsValid rf
      → ((fresh ≡ true) ↔ AtLeast args last)
      → Votes args last rf (grant args rf.current_term fresh (adopt_term args.term rf))
  unfolding grant adopt_term
  grant_lem args last rf fresh v fits = record {
    valid =
        grant-IsValid args rf.current_term fresh (adopt_term args.term rf)
          (adopt_term-IsValid args.term rf v);
    answers_old_term = ground arith;
    same_log = ground arith;
    same_commit = ground arith;
    only_if = λ h. ground (arith, fits);
    whenever = λ up free. ground (arith, fits);
    records = λ h. ground arith;
  }

  -- `RequestVote` returns on every well-formed peer. It grants the vote exactly when the
  -- candidate's log is at least as up to date, by the last term and then the last index, and the
  -- peer is free to vote in the term it is then in; it records a vote that it grants, answers with
  -- its old term, and leaves the log, the commit index and the well-formedness of the peer.
  pub request_vote_lem :
      (args : RequestVoteArgs) (rf : Raft C)
      → IsValid rf
      → (last : LogEntry C) × (last_entry rf.log ≡ some last)
        × ((r : Raft C × RequestVoteReply) × (request_vote args rf ≡ done r) × Votes args last rf r)
  unfolding request_vote
  request_vote_lem args rf v =
      let (last, found, i) = last_entry_lem 0 rf.log v.logged.indexed v.logged.holds_sentinel in
      let (b, looked, fits) =
        up_to_date_lem args (adopt_term args.term rf).log last
          (ap last_entry (adopted_log args.term rf) ∙ found) in
      (
        last,
        found,
        (
          grant args rf.current_term b (adopt_term args.term rf),
          rw looked,
          grant_lem args last rf b v fits,
        ),
      )
