-- ===== src/Raft/State.antt =====
-- The data of cs426-fall24/lab3/lab3/raft/raft.go: a peer's state, the log, the messages of the
-- two RPCs, and how a handler can end.
use building_distributed_sys.Prelude.{
  ℕ, ◌≡◌, refl, arith, List, Option, Bool, ltb, ◌+◌, if◌then◌else◌,
}

-- A handler returns, panics (an index or a slice out of range), or blocks for ever on a send to
-- the full `hasCommittedChan`.
pub data Outcome {ℓ} (A : Type ℓ) : Type ℓ where
  done : A → Outcome A
  panicked : Outcome A
  blocked : Outcome A

infixl 5 ◌>>=◌ ◌>>◌
abbrev pub ◌>>=◌ {ℓ κ} : {A : Type ℓ} {B : Type κ} → Outcome A → (A → Outcome B) → Outcome B
done a >>= f = f a
panicked >>= f = panicked
blocked >>= f = blocked

abbrev pub ◌>>◌ {ℓ κ} : {A : Type ℓ} {B : Type κ} → Outcome A → Outcome B → Outcome B
m >> k = m >>= λ _. k

-- A chain of two steps that returns has a first step that returns.
pub >>=-eq-done {ℓ κ} :
    {A : Type ℓ} {B : Type κ} (m : Outcome A) (f : A → Outcome B) {b : B}
    → (m >>= f) ≡ done b
    → (a : A) × (m ≡ done a) × (f a ≡ done b)
>>=-eq-done (done a) f h = (a, refl, h)
>>=-eq-done panicked f h = absurd (ground arith)
>>=-eq-done blocked f h = absurd (ground arith)

pub data Role : Type 0 where
  follower candidate leader : Role

-- `rf.state == "Leader"`
abbrev pub is_leader : Role → Bool
is_leader leader = Bool.true
is_leader _ = Bool.false

-- `rf.state == "Candidate"`
abbrev pub is_candidate : Role → Bool
is_candidate candidate = Bool.true
is_candidate _ = Bool.false

-- A command is an `interface{}`: a type `C`, with `none` for nil.
pub record LogEntry (C : Type 0) : Type 0 where
  pub term : ℕ
  pub command : Option C
  pub index : ℕ

pub record ApplyMsg (C : Type 0) : Type 0 where
  pub command_valid : Bool
  pub command : Option C
  pub command_index : ℕ
  pub command_term : ℕ

-- What `persist` encodes, in its order.
pub record Persisted (C : Type 0) : Type 0 where
  pub current_term : ℕ
  pub voted_for : Option ℕ
  pub log : List (LogEntry C)

-- `peers` is len(rf.peers); `voted_for` is `none` for -1; a timer is armed while a tick of it is
-- pending or will come; `has_committed` counts what `hasCommittedChan` holds.
pub record Raft (C : Type 0) : Type 0 where
  pub peers : ℕ
  pub persister : Option (Persisted C)
  pub me : ℕ
  pub dead : Bool
  pub current_term : ℕ
  pub voted_for : Option ℕ
  pub log : List (LogEntry C)
  pub state : Role
  pub heartbeat_armed : Bool
  pub election_armed : Bool
  pub commit_index : ℕ
  pub next_index : List ℕ
  pub match_index : List ℕ
  pub last_applied : ℕ
  pub has_committed : ℕ

pub record AppendEntriesArgs (C : Type 0) : Type 0 where
  pub term : ℕ
  pub leader_id : ℕ
  pub prev_log_index : ℕ
  pub prev_log_term : ℕ
  pub entries : List (LogEntry C)
  pub leader_commit : ℕ

pub record AppendEntriesReply : Type 0 where
  pub term : ℕ
  pub success : Bool

pub record RequestVoteArgs : Type 0 where
  pub term : ℕ
  pub candidate_id : ℕ
  pub last_log_index : ℕ
  pub last_log_term : ℕ

pub record RequestVoteReply : Type 0 where
  pub term : ℕ
  pub vote_granted : Bool

-- The arguments of one `go rf.handleAppendEntries(...)`.
pub record AppendCall (C : Type 0) : Type 0 where
  pub server : ℕ
  pub expected_next_index : ℕ
  pub args : AppendEntriesArgs C

module _ {C : Type 0} where
  -- `rf.persist()`
  unfoldable pub persist : Raft C → Raft C
  persist rf = record rf {
    persister =
        Option.some
          (record { current_term = rf.current_term; voted_for = rf.voted_for; log = rf.log });
  }

  -- `rf.hasCommittedChan <- struct{}{}`, a channel of capacity 1000
  unfoldable pub signal_committed : Raft C → Outcome (Raft C)
  signal_committed rf =
      if ltb rf.has_committed 1000
      then done (record rf { has_committed = rf.has_committed + 1 })
      else blocked
