-- ===== src/Raft/Cluster/Invariant/Defs.antt =====
-- The statement of the invariant, and of what a step must supply to keep it.
use building_distributed_sys.Prelude.{
  ℕ, ◌/◌, ◌≤◌, ◌<◌, ◌≡◌, Bool, true, false, some, leb, ◌&&◌, sum_below,
}
use building_distributed_sys.Raft.State.{leader}
use building_distributed_sys.Raft.Vote.{Ballot, unsent, sent, replied, closed}
use building_distributed_sys.Raft.Cluster.{Cluster}

-- A ballot of an election for term `t` that is a vote: counted, or still to be counted.
abbrev pub granted : ℕ → Ballot → Bool
granted t (replied request response) = response.vote_granted && leb response.term t
granted t (closed b) = b
granted t _ = false

abbrev pub counted : Ballot → ℕ
counted (closed true) = 1
counted _ = 0

-- The request of a ballot asks for the election's candidate and term.
abbrev pub Asks : ℕ → ℕ → Ballot → Type 0
Asks i t (sent request) = (request.term ≡ t) × (request.candidate_id ≡ i)
Asks i t (replied request response) = (request.term ≡ t) × (request.candidate_id ≡ i)
Asks i t _ = Unit

pub record Inv {C : Type 0} (n : ℕ) (s : Cluster C) : Type 0 where
  pub peers : (i : ℕ) → (s.nodes i).peers ≡ n
  pub me : (i : ℕ) → (s.nodes i).me ≡ i
  pub fresh : (i t v : ℕ) → (s.nodes i).current_term < t → s.ballot i t v ≡ unsent
  pub asks : (i t v : ℕ) → Asks i t (s.ballot i t v)
  pub tally : (i t : ℕ) → s.total_votes i t ≡ sum_below n (λ v. counted (s.ballot i t v))
  pub reached : (i t v : ℕ) → granted t (s.ballot i t v) ≡ true → t ≤ (s.nodes v).current_term
  pub voted :
      (i t v : ℕ)
      → granted t (s.ballot i t v) ≡ true
      → (s.nodes v).current_term ≡ t
      → (s.nodes v).voted_for ≡ some i
  pub unique :
      (i j t v : ℕ) → granted t (s.ballot i t v) ≡ true → granted t (s.ballot j t v) ≡ true → i ≡ j
  pub wins : (i : ℕ) → (s.nodes i).state ≡ leader → n / 2 < s.total_votes i (s.nodes i).current_term
