-- ===== src/Raft/Cluster/Invariant/Steps.antt =====
-- Every step of a cluster keeps the invariant, from the start on.
use building_distributed_sys.Prelude.{ℕ, refl, arith, sym, sum_below-zero}
use building_distributed_sys.Raft.Node.{make, read_persist}
use building_distributed_sys.Raft.Terms.{request_vote-Keeps}
use building_distributed_sys.Raft.Votes.{
  request_vote-HasVoted, election_tick-Opens, vote_reply-Counts,
}
use building_distributed_sys.Raft.Cluster.{
  Cluster, init, Step, local, election, vote_request, request_lost, reply_lost, vote_counted, Steps,
  here, later,
}
use building_distributed_sys.Raft.Cluster.Invariant.Defs.{Inv}
use building_distributed_sys.Raft.Cluster.Invariant.Local.{Local-Keeps, local-Inv}
use building_distributed_sys.Raft.Cluster.Invariant.Election.{election-Inv}
use building_distributed_sys.Raft.Cluster.Invariant.Ballots.{
  lost-Inv, vote_request-Inv, vote_counted-Inv,
}

module _ {C : Type 0} {n : ℕ} where
  pub Step-Inv : {s s' : Cluster C} → Step n s s' → Inv n s → Inv n s'
  Step-Inv (local i {rf'} lt l) inv = local-Inv inv i rf' (Local-Keeps l)
  Step-Inv {s} (election i {rf'} {request} lt h) inv =
      election-Inv inv i rf' request lt (election_tick-Opens (s.nodes i) h)
  Step-Inv {s} (vote_request i t v {request} {r} lt e h) inv =
      vote_request-Inv inv i t v request r.0 r.1 e (request_vote-Keeps request (s.nodes v) h)
        (request_vote-HasVoted request (s.nodes v) h)
  Step-Inv (request_lost i t v lt e) inv = lost-Inv inv i t v (λ p. ground arith) (rw e)
  Step-Inv (reply_lost i t v lt e) inv = lost-Inv inv i t v (λ p. ground arith) (rw e)
  Step-Inv {s} (vote_counted i t v {request} {response} {r} li lv e h) inv =
      vote_counted-Inv inv i t v request response r.0 r.1 r.2 lv e
        (vote_reply-Counts request response (s.total_votes i t) (s.nodes i) h)

  pub Steps-Inv : {s s' : Cluster C} → Steps n s s' → Inv n s → Inv n s'
  Steps-Inv here inv = inv
  Steps-Inv (later r st) inv = Step-Inv st (Steps-Inv r inv)

  pub Inv-init : Inv {C = C} n (init n)
  unfolding make read_persist
  Inv-init = record {
    peers = λ i. refl;
    me = λ i. refl;
    fresh = λ i t v h. refl;
    asks = λ i t v. tt;
    tally = λ i t. sym (sum_below-zero n (λ v. 0) (λ v. refl));
    reached = λ i t v g. ground arith;
    voted = λ i t v g h. ground arith;
    unique = λ i j t v g h. ground arith;
    wins = λ i h. ground arith;
  }
