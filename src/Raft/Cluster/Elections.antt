-- ===== src/Raft/Cluster/Elections.antt =====
-- Election safety of a cluster of the peers of raft.go, as long as no peer crashes.
use building_distributed_sys.Prelude.{
  ℕ, ◌+◌, ◌/◌, ◌≤◌, ◌<◌, ◌≡◌, ◌==◌, some, ◌∙◌, sum_below-zero, true, false, inl, inr, Bool-cases,
  sum_below, sum_below-disjoint, arith, ==_iff,
}
use building_distributed_sys.Raft.State.{leader}
use building_distributed_sys.Raft.Vote.{closed}
use building_distributed_sys.Raft.Votes.{Counts, election_tick-Opens, vote_reply-Counts}
use building_distributed_sys.Raft.Cluster.{
  Cluster, init, Step, local, election, vote_request, request_lost, reply_lost, vote_counted, Steps,
  here, later, update2,
}
use building_distributed_sys.Raft.Cluster.Invariant.{Inv, Steps-Inv, Inv-init, counted}

module _ {C : Type 0} {n : ℕ} where
  -- Two elections of one term share no vote.
  votes_disjoint :
      {s : Cluster C}
      → Inv n s
      → (i j t : ℕ) → (i == j) ≡ false
      → s.total_votes i t + s.total_votes j t ≤ n
  votes_disjoint {s} inv i j t ne = omega (
    arith,
    inv.tally i t,
    inv.tally j t,
    sum_below-disjoint n (λ v. counted (s.ballot i t v)) (λ v. counted (s.ballot j t v))
        (λ v lt. ground (arith, inv.unique i j t v)),
  )

  -- The count of an election is never reset once there is one.
  Step-total_votes :
      {s s' : Cluster C}
      → Inv n s
      → Step n s s'
      → (i t : ℕ) → s.total_votes i t ≤ s'.total_votes i t
  Step-total_votes inv (local i lt l) j u = omega arith
  Step-total_votes inv (request_lost i t v lt e) j u = omega arith
  Step-total_votes inv (reply_lost i t v lt e) j u = omega arith
  Step-total_votes inv (vote_request i t v lt e h) j u = omega arith
  Step-total_votes {s} inv (vote_counted i t v {request} {response} {r} li lv e h) j u =
      counts (vote_reply-Counts request response (s.total_votes i t) (s.nodes i) h)
    where
      counts :
          Counts request response (s.total_votes i t) (s.nodes i) r.0 r.1 r.2
          → s.total_votes j u ≤ update2 s.total_votes i t r.1 j u
      counts c = ground arith
  Step-total_votes {s} inv (election i {rf'} {request} lt h) j u =
      ground (arith, new_count, election_tick-Opens (s.nodes i) h)
    where
      new_count : (s.nodes i).current_term < request.term → s.total_votes i request.term ≡ 0
      new_count older =
          inv.tally i request.term
          ∙ sum_below-zero n (λ v. counted (s.ballot i request.term v))
              (λ v. rw (inv.fresh i request.term v older))

  Steps-total_votes :
      {s s' : Cluster C}
      → Inv n s
      → Steps n s s'
      → (i t : ℕ) → s.total_votes i t ≤ s'.total_votes i t
  Steps-total_votes inv here i t = omega arith
  Steps-total_votes inv (later r st) i t =
      omega (arith, Steps-total_votes inv r i t, Step-total_votes (Steps-Inv r inv) st i t)

  -- Election safety: in a run of a cluster of n freshly made peers, whatever the schedule, the lost
  -- messages and the AppendEntries traffic, a peer that leads at one time and a peer that leads
  -- then or later, both in the same term, are one peer.
  pub one_leader_per_term :
      {s s' : Cluster C}
      → Steps n (init n) s
      → Steps n s s'
      → (i j : ℕ) → (s.nodes i).state ≡ leader
      → (s'.nodes j).state ≡ leader
      → (s.nodes i).current_term ≡ (s'.nodes j).current_term
      → i ≡ j
  one_leader_per_term {s} {s'} before after i j leads_i leads_j same = elim (Bool-cases (i == j)) [
    | inl e ↦ (==_iff i j).0 e
    | inr e ↦
        let inv = Steps-Inv before Inv-init in
        let inv' = Steps-Inv after inv in
        let t = (s.nodes i).current_term in
        absurd (
          omega (
            arith,
            inv.wins i leads_i,
            Steps-total_votes inv after i t,
            rw (← same) at (inv'.wins j leads_j),
            votes_disjoint inv' i j t e,
          ))
  ]

  -- In every reachable state a leader has the counted votes of more than half of the peers in its
  -- election, and each of those peers that is still in the leader's term has its vote with it.
  pub leader_has_quorum :
      {s : Cluster C}
      → Steps n (init n) s
      → (i : ℕ) → (s.nodes i).state ≡ leader
      → (n / 2 < sum_below n (λ v. counted (s.ballot i (s.nodes i).current_term v)))
        × ((v : ℕ)
            → s.ballot i (s.nodes i).current_term v ≡ closed true
            → (s.nodes v).current_term ≡ (s.nodes i).current_term
            → (s.nodes v).voted_for ≡ some i)
  leader_has_quorum {s} run i leads =
      let inv = Steps-Inv run Inv-init in
      let t = (s.nodes i).current_term in
      (omega (arith, inv.wins i leads, inv.tally i t), λ v e same. inv.voted i t v (rw e) same)
