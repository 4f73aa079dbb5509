-- ===== src/Raft/Append/Accept.antt =====
-- The log check of `AppendEntries` on a well-formed peer that has taken the request's term.
use building_distributed_sys.Prelude.{
  ℕ, ◌+◌, ◌-◌, ◌≤◌, ◌<◌, ◌≡◌, ◌⊎◌, inl, inr, refl, true, false, ap, ◌∙◌, Bool, some, List, length,
  get_elem?, lt_of_get_elem?, get_elem?-lt, Bool-cases, ==_iff, dec_lt, ◌==◌, arith, min, max,
}
use building_distributed_sys.Raft.State.{
  done, ◌>>=◌, follower, LogEntry, Raft, AppendEntriesArgs, AppendEntriesReply, signal_committed,
}
use building_distributed_sys.Raft.Log.Laws.{
  base_index_lem, Indexed, IsLog, entry_at_lem, last_log_index_lem,
}
use building_distributed_sys.Raft.Valid.{IsValid, Ensures, Ensures-bind}
use building_distributed_sys.Raft.Append.{merge_entries, follow_commit, reply_of, accept_entries}
use building_distributed_sys.Raft.Append.Merge.{HasTerm, Carries, Merged, merge_entries_lem}

-- The request's entries go on from the one before them.
pub record IsRequest {C : Type 0} (args : AppendEntriesArgs C) (rf : Raft C) : Type 0 where
  pub consecutive : Indexed (args.prev_log_index + 1) args.entries
  -- If the entries are not all in the log, they reach the commit index at least.
  pub spares_committed :
      Carries rf.log (args.prev_log_index + 1) args.entries
      ⊎ (rf.commit_index ≤ args.prev_log_index + length args.entries)

-- The commit index after a request that was accepted.
abbrev pub following_commit : ℕ → ℕ → ℕ → ℕ
following_commit commit leader_commit last = max commit (min leader_commit last)

-- What an accepted request leaves.
pub record Accepts {C : Type 0} (args : AppendEntriesArgs C) (rf rf' : Raft C) : Type 0 where
  pub has_previous : HasTerm rf'.log args.prev_log_index args.prev_log_term
  pub has_entries : Carries rf'.log (args.prev_log_index + 1) args.entries
  pub keeps_before : (i : ℕ) → i ≤ args.prev_log_index → get_elem? rf'.log i ≡ get_elem? rf.log i
  pub commits :
      rf'.commit_index ≡ following_commit rf.commit_index args.leader_commit (length rf'.log - 1)

-- A refused request changes neither the log nor the commit index.
pub record Refuses {C : Type 0} (args : AppendEntriesArgs C) (rf rf' : Raft C) : Type 0 where
  pub same_log : rf'.log ≡ rf.log
  pub same_commit : rf'.commit_index ≡ rf.commit_index
  pub reason :
      (args.term < rf.current_term) ⊎ (¬ HasTerm rf.log args.prev_log_index args.prev_log_term)

abbrev pub Answers : {C : Type 0} → AppendEntriesArgs C → Raft C → Raft C → Bool → Type 0
Answers args rf rf' true = Accepts args rf rf'
Answers args rf rf' false = Refuses args rf rf'

module _ {C : Type 0} where
  accept_missing :
      (args : AppendEntriesArgs C) (rf : Raft C)
      → IsLog rf.log
      → length rf.log ≤ args.prev_log_index
      → accept_entries args rf ≡ done (rf, reply_of rf.current_term false)
  unfolding accept_entries
  accept_missing args rf h le =
      ground (arith, base_index_lem rf.log h, last_log_index_lem rf.log h, h.holds_sentinel)

  accept_mismatch :
      (args : AppendEntriesArgs C) (rf : Raft C) (e : LogEntry C)
      → IsLog rf.log
      → get_elem? rf.log args.prev_log_index ≡ some e
      → (e.term == args.prev_log_term) ≡ false
      → accept_entries args rf ≡ done (rf, reply_of rf.current_term false)
  unfolding accept_entries
  accept_mismatch args rf e h found differs = ground (
    arith,
    base_index_lem rf.log h,
    last_log_index_lem rf.log h,
    lt_of_get_elem? rf.log args.prev_log_index found,
    entry_at_lem rf.log args.prev_log_index h found,
  )

  accept_match :
      (args : AppendEntriesArgs C) (rf : Raft C) (e : LogEntry C) (log : List (LogEntry C))
      → IsLog rf.log
      → get_elem? rf.log args.prev_log_index ≡ some e
      → (e.term == args.prev_log_term) ≡ true
      → merge_entries rf.log args.entries ≡ done log
      → accept_entries args rf ≡ (
          follow_commit args.leader_commit (record rf { log = log }) >>= λ rf1.
          done (rf1, reply_of rf.current_term true))
  unfolding accept_entries
  accept_match args rf e log h found same merges = ground (
    arith,
    base_index_lem rf.log h,
    last_log_index_lem rf.log h,
    lt_of_get_elem? rf.log args.prev_log_index found,
    entry_at_lem rf.log args.prev_log_index h found,
  )

  -- What the rest of an accepted request leaves of the peer `rf`.
  abbrev Committed : ℕ → Raft C → Raft C → Type 0
  Committed leader_commit rf rf' =
      IsValid rf'
      × (rf'.log ≡ rf.log)
      × (rf'.current_term ≡ rf.current_term)
      × (rf'.commit_index ≡ following_commit rf.commit_index leader_commit (length rf.log - 1))

  follow_commit_lem :
      (rf0 : Raft C) (leader_commit : ℕ) (rf : Raft C)
      → IsValid rf
      → rf.has_committed ≡ rf0.has_committed
      → Ensures rf0 (Committed leader_commit rf) (follow_commit leader_commit rf)
  unfolding follow_commit signal_committed
  follow_commit_lem rf0 leader_commit rf v same = ground (arith, last_log_index_lem rf.log v.logged)

  merge-IsValid :
      (args : AppendEntriesArgs C) (rf : Raft C) (log : List (LogEntry C))
      → IsValid rf
      → rf.state ≡ follower
      → IsRequest args rf
      → Merged rf.log (args.prev_log_index + 1) args.entries log
      → IsValid (record rf { log = log })
  merge-IsValid args rf log v role q m = record {
    logged = m.valid;
    committed = elim q.spares_committed [
      | inl has ↦ rw (m.unchanged has) v.committed
      | inr past ↦ omega arith
    ];
    applied = v.applied;
    nexts = v.nexts;
    matches = v.matches;
    next_valid = λ e. ground arith;
    match_valid = λ e. ground arith;
  }

  -- What `AppendEntries` makes of a peer that has already taken the request's term.
  abbrev pub Considered : AppendEntriesArgs C → Raft C → Raft C × AppendEntriesReply → Type 0
  Considered args rf r =
      IsValid r.0
      × Answers args rf r.0 r.1.success
      × (r.1.term ≡ rf.current_term)
      × (r.0.current_term ≡ rf.current_term)

  accepted :
      (args : AppendEntriesArgs C) (rf : Raft C) (e : LogEntry C) (log : List (LogEntry C))
      → get_elem? rf.log args.prev_log_index ≡ some e
      → e.term ≡ args.prev_log_term
      → Merged rf.log (args.prev_log_index + 1) args.entries log
      → (rf1 : Raft C) → Committed args.leader_commit (record rf { log = log }) rf1
      → Considered args rf (rf1, reply_of rf.current_term true)
  accepted args rf e log found same m rf1 (v1, same_log, same_term, commits) = (
    v1,
    record {
      has_previous = (
        e,
        ap (λ l. get_elem? l args.prev_log_index) same_log
            ∙ m.keeps_prefix args.prev_log_index (omega arith)
            ∙ found,
        same,
      );
      has_entries = rw same_log m.carries;
      keeps_before = λ i le. rw same_log (m.keeps_prefix i (omega arith));
      commits = rw same_log commits;
    },
    refl,
    same_term,
  )

  refused :
      (args : AppendEntriesArgs C) (rf : Raft C)
      → IsValid rf
      → ¬ HasTerm rf.log args.prev_log_index args.prev_log_term
      → Considered args rf (rf, reply_of rf.current_term false)
  refused args rf v lacks =
      (v, record { same_log = refl; same_commit = refl; reason = inr lacks }, refl, refl)

  pub accept_entries_lem :
      (rf0 : Raft C) (args : AppendEntriesArgs C) (rf : Raft C)
      → rf.has_committed ≡ rf0.has_committed
      → IsValid rf
      → rf.state ≡ follower
      → IsRequest args rf
      → Ensures rf0 (Considered args rf) (accept_entries args rf)
  accept_entries_lem rf0 args rf counts v role q =
      elim (dec_lt args.prev_log_index (length rf.log)) [
        | no beyond ↦ rw (accept_missing args rf v.logged (omega arith)) (
            refused args rf v
              (λ (e, found, same). beyond (lt_of_get_elem? rf.log args.prev_log_index found)))
        | yes below ↦
            let (e, found) = get_elem?-lt rf.log args.prev_log_index below in
            elim (Bool-cases (e.term == args.prev_log_term)) [
              | inr differs ↦
                  rw (accept_mismatch args rf e v.logged found differs)
                    (refused args rf v (λ (f, found', same). ground arith))
              | inl same ↦
                  let (log, merges, m) =
                    merge_entries_lem rf.log (args.prev_log_index + 1) args.entries v.logged
                      (omega arith) (omega arith) q.consecutive in
                  rw (accept_match args rf e log v.logged found same merges) (
                    Ensures-bind rf0 (Committed args.leader_commit (record rf { log = log }))
                      (Considered args rf)
                      (follow_commit args.leader_commit (record rf { log = log })) _
                      (follow_commit_lem rf0 args.leader_commit (record rf { log = log })
                        (merge-IsValid args rf log v role q m) counts)
                      (accepted args rf e log found ((==_iff e.term args.prev_log_term).0 same) m))
            ]
      ]
