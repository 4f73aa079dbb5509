-- ===== src/Raft/Cluster/Invariant/Election.antt =====
-- A new election keeps the invariant.
use mathlib.Core.Logic.{inl, inr}
use building_distributed_sys.Prelude.{
  ℕ, ◌<◌, ◌≡◌, refl, sym, ◌==◌, ◌&&◌, Bool-cases, sum_below, sum_below-change, sum_below-zero,
  update, arith,
}
use building_distributed_sys.Raft.State.{Raft, RequestVoteArgs}
use building_distributed_sys.Raft.Vote.{conduct_election}
use building_distributed_sys.Raft.Votes.{Opens}
use building_distributed_sys.Raft.Cluster.{Cluster, update2}
use building_distributed_sys.Raft.Cluster.Invariant.Defs.{Inv, counted}

module _ {C : Type 0} {n : ℕ} {s : Cluster C} (inv : Inv n s) where
  open inv use {peers, me, fresh, asks, tally, reached, voted, unique, wins}

  -- The sum over the ballots of a new election: the candidate's own.
  own_vote_counts :
      (i : ℕ) (rf' : Raft C) (request : RequestVoteArgs)
      → i < n
      → rf'.me ≡ i
      → sum_below n (λ v. counted (conduct_election rf' request v)) ≡ 1
  unfolding conduct_election
  own_vote_counts i rf' request lt e = omega (
    arith,
    sum_below-change n (λ v. counted (conduct_election rf' request v)) (λ v. 0) i lt
        (λ j ne. ground arith),
    sum_below-zero n (λ v. 0) (λ v. refl),
    own,
  )
    where
      own : counted (conduct_election rf' request i) ≡ 1
      own = ground arith

  pub election-Inv :
      (i : ℕ) (rf' : Raft C) (request : RequestVoteArgs)
      → i < n
      → Opens (s.nodes i) rf' request
      → Inv n (record s {
        nodes = update s.nodes i rf';
        ballot = update2 s.ballot i request.term (conduct_election rf' request);
        total_votes = update2 s.total_votes i request.term 1;
      })
  unfolding conduct_election
  election-Inv i rf' request lt o = record {
    peers = λ j. ground (arith, peers j);
    me = λ j. ground (arith, me j);
    fresh = λ j t v h. ground (arith, fresh j t v);
    asks = λ j t v. ground (arith, asks j t v, me i);
    tally = λ j t. elim (Bool-cases (i == j && request.term == t)) [
      | inl e ↦ rw e (sym (own_vote_counts i rf' request lt (cc (me i, o.same_me))))
      | inr e ↦ rw e (tally j t)
    ];
    reached = λ j t v g. ground (arith, reached j t v, me i);
    voted = λ j t v g h. ground (arith, voted j t v, reached j t v, me i);
    unique = λ j k t v g h. ground (arith, unique j k t v, reached j t v, reached k t v, me i);
    wins = λ j h. ground (arith, wins j);
  }
