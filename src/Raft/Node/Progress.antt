-- ===== src/Raft/Node/Progress.antt =====
-- `Make`, `Start` and `applyEntries` on well-formed peers.
use building_distributed_sys.Prelude.{
  ℕ, ◌+◌, ◌-◌, ◌≤◌, ◌<◌, ◌≡◌, refl, sym, true, none, some, List, [], ◌∷◌, ◌++◌, length, take, drop,
  arith, length-append, length-replicate, All-mono,
}
use building_distributed_sys.Raft.State.{done, leader, LogEntry, Raft, AppendCall, persist}
use building_distributed_sys.Raft.Log.Laws.{Indexed-append, last_log_index_lem}
use building_distributed_sys.Raft.Valid.{IsValid}
use building_distributed_sys.Raft.Replicate.Calls.{AreCalls, others_from, send_heartbeats_lem}
use building_distributed_sys.Raft.Node.{make, read_persist, start}

module _ {C : Type 0} where
  -- A peer that is made for the first time is well-formed.
  pub make-IsValid : (peers me : ℕ) → IsValid (make {C = C} peers me none)
  unfolding make read_persist
  make-IsValid peers me = record {
    logged = record { holds_sentinel = omega arith; indexed = (refl, tt) };
    committed = omega arith;
    applied = omega arith;
    nexts = length-replicate peers 0;
    matches = length-replicate peers 0;
    next_valid = λ e. ground arith;
    match_valid = λ e. ground arith;
  }

  -- The peer with one more entry at the end of its log.
  abbrev pub appended : C → Raft C → Raft C
  appended command rf = record (persist rf) {
    log =
        rf.log
        ++ (record {
          term = rf.current_term;
          command = some command;
          index = length rf.log - 1 + 1;
        })
          ∷ [];
  }

  appended-IsValid :
      (command : C) (rf : Raft C) → IsValid rf → rf.state ≡ leader → IsValid (appended command rf)
  unfolding persist
  appended-IsValid command rf v leads = record {
    logged = record {
      holds_sentinel = omega (arith, longer);
      indexed =
          Indexed-append 0 rf.log _ v.logged.indexed (omega (arith, v.logged.holds_sentinel), tt);
    };
    committed = omega (arith, longer, v.committed);
    applied = v.applied;
    nexts = v.nexts;
    matches = v.matches;
    next_valid = λ e.
        All-mono (λ k. (1 ≤ k) × (k ≤ length rf.log)) _ rf.next_index
          (λ k (low, high). (low, omega (arith, longer))) (v.next_valid e);
    match_valid = λ e.
        All-mono (λ k. k < length rf.log) _ rf.match_index (λ k h. omega (arith, longer))
          (v.match_valid e);
  }
    where
      longer : length (appended command rf).log ≡ length rf.log + 1
      longer = length-append rf.log _

  -- `Start` on a well-formed leader returns: the command is the new last entry, of the current
  -- term and at the index that is returned, the leader is well-formed, and one call goes to each
  -- other peer, each with the new log from some entry to the end.
  pub start_lem :
      (command : C) (rf : Raft C)
      → IsValid rf
      → rf.state ≡ leader
      → (calls : List (AppendCall C)) × (start command rf
          ≡ done (
            appended command rf,
            record {
              index = some (length rf.log - 1 + 1);
              term = some rf.current_term;
              is_leader = true;
            },
            calls,
          ))
        × IsValid (appended command rf)
        × AreCalls (appended command rf) (others_from rf.me 0 rf.peers) calls
  unfolding start persist
  start_lem command rf v leads =
      let v' = appended-IsValid command rf v leads in
      let (calls, sent, a) =
        send_heartbeats_lem (appended command rf) v'.logged (v'.next_valid leads) (sym v.nexts) in
      (calls, ground (arith, last_log_index_lem rf.log v.logged, sent), v', a)

  -- The entries behind `from` up to `to`.
  abbrev pub between : ℕ → ℕ → List (LogEntry C) → List (LogEntry C)
  between from to log = take (to - from) (drop (from + 1) log)
