-- ===== src/Raft/Valid.antt =====
-- Well-formed peers of raft.go, and how the end of a handler is described.
use building_distributed_sys.Prelude.{◌≤◌, ◌<◌, ◌≡◌, length, All}
use building_distributed_sys.Raft.State.{Outcome, done, panicked, blocked, ◌>>=◌, leader, Raft}
use building_distributed_sys.Raft.Log.Laws.{IsLog}

pub record IsValid {C : Type 0} (rf : Raft C) : Type 0 where
  pub logged : IsLog rf.log
  pub committed : rf.commit_index < length rf.log
  pub applied : rf.last_applied ≤ rf.commit_index
  pub nexts : length rf.next_index ≡ rf.peers
  pub matches : length rf.match_index ≡ rf.peers
  pub next_valid : rf.state ≡ leader → All (λ k. (1 ≤ k) × (k ≤ length rf.log)) rf.next_index
  pub match_valid : rf.state ≡ leader → All (λ k. k < length rf.log) rf.match_index

-- A handler that does not panic: it returns a result with `P`, or blocks for ever, and this only
-- on the full channel of commit signals.
abbrev pub Ensures : {A C : Type 0} → Raft C → (A → Type 0) → Outcome A → Type 0
Ensures rf P (done a) = P a
Ensures rf P panicked = ⊥
Ensures rf P blocked = 1000 ≤ rf.has_committed

-- A chain of two steps ensures what the second ensures of the results of the first.
pub Ensures-bind :
    {A B C : Type 0} (rf : Raft C) (P : A → Type 0) (Q : B → Type 0) (m : Outcome A)
    (f : A → Outcome B)
    → Ensures rf P m
    → ((a : A) → P a → Ensures rf Q (f a))
    → Ensures rf Q (m >>= f)
Ensures-bind rf P Q (done a) f h k = k a h
Ensures-bind rf P Q panicked f h k = h
Ensures-bind rf P Q blocked f h k = h
