-- ===== src/Raft/Cluster/Invariant/Ballots.antt =====
-- The steps of one ballot keep the invariant: a request handled, a message lost, a reply counted.
use building_distributed_sys.Prelude.{
  ℕ, ◌+◌, ◌<◌, ◌≡◌, ◌≢◌, refl, ◌∙◌, ◌≤◌, inl, inr, true, false, ◌==◌, ◌&&◌, Bool, Bool-cases,
  sum_below, sum_below-change, sum_below-ext, update, arith,
}
use building_distributed_sys.Raft.State.{Raft, RequestVoteArgs, RequestVoteReply}
use building_distributed_sys.Raft.Vote.{Ballot, sent, replied, closed, unsent}
use building_distributed_sys.Raft.Terms.{Keeps}
use building_distributed_sys.Raft.Votes.{HasVoted, Counts}
use building_distributed_sys.Raft.Cluster.{Cluster, update2, update3}
use building_distributed_sys.Raft.Cluster.Invariant.Defs.{Inv, counted}

module _ {C : Type 0} {n : ℕ} {s : Cluster C} (inv : Inv n s) where
  open inv use {peers, me, fresh, asks, tally, reached, voted, unique, wins}

  -- A ballot that changes, and does not count before or after, leaves the sums alone.
  same_sum :
      (i t v : ℕ) (b : Ballot)
      → counted (s.ballot i t v) ≡ 0
      → counted b ≡ 0
      → (j u : ℕ) → s.total_votes j u ≡ sum_below n (λ w. counted (update3 s.ballot i t v b j u w))
  same_sum i t v b old new j u =
      tally j u
      ∙ sum_below-ext n (λ w. counted (s.ballot j u w))
          (λ w. counted (update3 s.ballot i t v b j u w)) (λ w lt. ground arith)

  -- A ballot that becomes a vote adds one to the sum of its election, and to no other.
  next_sum :
      (i t v : ℕ) (b : Ballot) (total : ℕ)
      → v < n
      → counted (s.ballot i t v) ≡ 0
      → total ≡ s.total_votes i t + counted b
      → (j u : ℕ)
      → update2 s.total_votes i t total j u
        ≡ sum_below n (λ w. counted (update3 s.ballot i t v b j u w))
  next_sum i t v b total lt old new j u = elim (Bool-cases (i == j && t == u)) [
    | inl e ↦
        let same_i : i ≡ j = ground arith in
        let same_t : t ≡ u = ground arith in
        rw (← same_i, ← same_t)
          (ground (
            arith,
            tally i t,
            sum_below-change n (λ w. counted (update3 s.ballot i t v b i t w))
                (λ w. counted (s.ballot i t w)) v lt (λ w ne. ground arith),
          ))
    | inr e ↦ ground (
      arith,
      tally j u,
      sum_below-ext n (λ w. counted (s.ballot j u w))
          (λ w. counted (update3 s.ballot i t v b j u w)) (λ w below. ground arith),
    )
  ]

  pub lost-Inv :
      (i t v : ℕ)
      → s.ballot i t v ≢ unsent
      → counted (s.ballot i t v) ≡ 0
      → Inv n (record s { ballot = update3 s.ballot i t v (closed false) })
  lost-Inv i t v out zero_before = record {
    peers = peers;
    me = me;
    fresh = λ j u w h. ground (arith, fresh j u w);
    asks = λ j u w. ground (arith, asks j u w);
    tally = same_sum i t v (closed false) zero_before refl;
    reached = λ j u w g. ground (arith, reached j u w);
    voted = λ j u w g h. ground (arith, voted j u w);
    unique = λ j k u w g h. ground (arith, unique j k u w);
    wins = wins;
  }

  pub vote_request-Inv :
      (i t v : ℕ) (request : RequestVoteArgs) (rf' : Raft C) (reply : RequestVoteReply)
      → s.ballot i t v ≡ sent request
      → Keeps (s.nodes v) rf'
      → (reply.vote_granted ≡ true → reply.term ≤ request.term → HasVoted request rf')
      → Inv n (record s {
        nodes = update s.nodes v rf';
        ballot = update3 s.ballot i t v (replied request reply);
      })
  vote_request-Inv i t v request rf' reply e k promise = record {
    peers = λ j. ground (arith, peers j);
    me = λ j. ground (arith, me j);
    fresh = λ j u w h. ground (arith, fresh j u w);
    asks = λ j u w. ground (arith, asks j u w);
    tally = same_sum i t v (replied request reply) (rw e) refl;
    reached = λ j u w g. ground (arith, reached j u w, asks i t v);
    voted = λ j u w g h. ground (arith, voted j u w, reached j u w, k.vote_kept j, asks i t v);
    unique = λ j l u w g h. ground (
      arith,
      unique j l u w,
      asks i t v,
      reached j u w,
      reached l u w,
      voted j u w,
      voted l u w,
      k.vote_kept j,
      k.vote_kept l,
    );
    wins = λ j h. ground (arith, wins j, k.leads);
  }

  pub vote_counted-Inv :
      (i t v : ℕ) (request : RequestVoteArgs) (response : RequestVoteReply) (rf' : Raft C)
      (total : ℕ) (vote : Bool)
      → v < n
      → s.ballot i t v ≡ replied request response
      → Counts request response (s.total_votes i t) (s.nodes i) rf' total vote
      → Inv n (record s {
        nodes = update s.nodes i rf';
        ballot = update3 s.ballot i t v (closed vote);
        total_votes = update2 s.total_votes i t total;
      })
  vote_counted-Inv i t v request response rf' total vote lt e c = record {
    peers = λ j. ground (arith, peers j);
    me = λ j. ground (arith, me j);
    fresh = λ j u w h. ground (arith, fresh j u w);
    asks = λ j u w. ground (arith, asks j u w);
    tally = next_sum i t v (closed vote) total lt (rw e) (ground arith);
    reached = λ j u w g. ground (arith, reached j u w, asks i t v);
    voted = λ j u w g h. ground (arith, voted j u w, reached j u w, c.vote_kept j, asks i t v);
    unique = λ j l u w g h. ground (arith, unique j l u w, asks i t v);
    wins = λ j h. ground (arith, wins j, c.leads, asks i t v, peers j);
  }
