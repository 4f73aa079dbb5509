-- ===== src/Raft/Node.antt =====
-- The rest of a peer in raft.go: `Make`, `Start`, `GetState`, `Kill`, the heartbeat branch of
-- `ticker`, `readPersist` and `applyEntries`.
pub mod Progress
use building_distributed_sys.Prelude.{
  ℕ, ◌+◌, ◌-◌, Bool, true, false, Option, none, some, List, [], ◌∷◌, ◌++◌, map, replicate, ltb,
  if◌then◌else◌,
}
use building_distributed_sys.Raft.State.{
  Outcome, done, ◌>>=◌, follower, is_leader, LogEntry, ApplyMsg, Persisted, Raft, AppendCall,
  persist,
}
use building_distributed_sys.Raft.Log.{last_log_index, slice}
use building_distributed_sys.Raft.Replicate.{send_heartbeats}

-- What `Start` returns: the index and the term, `none` for -1, and whether this peer leads.
pub record Started : Type 0 where
  pub index : Option ℕ
  pub term : Option ℕ
  pub is_leader : Bool

-- One round of `applyEntries`: the loop is over, waits for a signal, took one, or sent messages.
pub data Applied (C : Type 0) : Type 0 where
  stopped : Applied C
  waiting : Applied C
  woken : Applied C
  sent_messages : List (ApplyMsg C) → Applied C

module _ {C : Type 0} where
  -- `readPersist`; `none` is a persister that nothing was saved to
  unfoldable pub read_persist : Option (Persisted C) → Raft C → Raft C
  read_persist none rf = rf
  read_persist (some saved) rf = record rf {
    current_term = saved.current_term;
    voted_for = saved.voted_for;
    log = saved.log;
  }

  -- `Make`, before its two goroutines run
  unfoldable pub make : ℕ → ℕ → Option (Persisted C) → Raft C
  make peers me persister = read_persist persister (record {
    peers = peers;
    persister = persister;
    me = me;
    dead = false;
    current_term = 0;
    voted_for = none;
    log = record { term = 0; command = none; index = 0 } ∷ [];
    state = follower;
    heartbeat_armed = true;
    election_armed = true;
    commit_index = 0;
    next_index = replicate peers 0;
    match_index = replicate peers 0;
    last_applied = 0;
    has_committed = 0;
  })

  unfoldable pub start : C → Raft C → Outcome (Raft C × Started × List (AppendCall C))
  start command rf =
      if is_leader rf.state
      then (do
        last ← last_log_index rf.log
        let rf1 = record (persist rf) {
          log =
              rf.log
              ++ (record { term = rf.current_term; command = some command; index = last + 1 }) ∷ [];
        }
        calls ← send_heartbeats rf1
        done (
          rf1,
          record { index = some (last + 1); term = some rf.current_term; is_leader = true },
          calls,
        ))
      else done (rf, record { index = none; term = none; is_leader = false }, [])

  -- `GetState`
  unfoldable pub get_state : Raft C → ℕ × Bool
  get_state rf = (rf.current_term, is_leader rf.state)

  -- `Kill` and `killed`
  unfoldable pub kill : Raft C → Raft C
  kill rf = record rf { dead = true }

  unfoldable pub killed : Raft C → Bool
  killed rf = rf.dead

  -- The case `<-rf.heartbeatTime.C` of `ticker`.
  unfoldable pub heartbeat_tick : Raft C → Outcome (Raft C × List (AppendCall C))
  heartbeat_tick rf =
      if is_leader rf.state
      then (do calls ← send_heartbeats rf; done (record rf { heartbeat_armed = true }, calls))
      else done (record rf { heartbeat_armed = false }, [])

  abbrev pub message_of : LogEntry C → ApplyMsg C
  message_of entry = record {
    command_valid = true;
    command = entry.command;
    command_index = entry.index;
    command_term = entry.term;
  }

  -- `if len(entriesToApply) != 0`
  unfoldable pub deliver : ℕ → List (LogEntry C) → Raft C → Raft C × Applied C
  deliver commit [] rf = (rf, sent_messages [])
  deliver commit (entry ∷ entries) rf =
      (record rf { last_applied = commit }, sent_messages (map message_of (entry ∷ entries)))

  unfoldable pub apply_round : Raft C → Outcome (Raft C × Applied C)
  apply_round rf =
      if rf.dead
      then done (rf, stopped)
      else if ltb rf.last_applied rf.commit_index
      then (do
        entries ← slice rf.log (rf.last_applied + 1) (rf.commit_index + 1)
        done (deliver rf.commit_index entries rf))
      else if ltb 0 rf.has_committed
      then done (record rf { has_committed = rf.has_committed - 1 }, woken)
      else done (rf, waiting)
