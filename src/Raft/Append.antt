-- ===== src/Raft/Append.antt =====
-- The follower's side of replication in raft.go: `AppendEntries`.
pub mod Merge
pub mod Accept
pub mod Handler
use building_distributed_sys.Prelude.{
  ℕ, ◌+◌, Bool, true, false, none, List, [], ◌∷◌, ◌++◌, length, ltb, leb, ◌==◌, not, if◌then◌else◌,
}
use building_distributed_sys.Raft.State.{
  Outcome, done, ◌>>=◌, follower, LogEntry, Raft, AppendEntriesArgs, AppendEntriesReply, persist,
  signal_committed,
}
use building_distributed_sys.Raft.Log.{base_index, offset, entry_at, prefix_to, last_log_index}

abbrev pub reply_of : ℕ → Bool → AppendEntriesReply
reply_of term success = record { term = term; success = success }

module _ {C : Type 0} where
  -- Whether the log lacks an entry, or has one of another term at its index.
  unfoldable pub conflicts : List (LogEntry C) → LogEntry C → Outcome Bool
  conflicts log entry = do
    k ← offset log entry.index
    if leb (length log) k
        then done true
        else (do old ← entry_at log entry.index; done (not (old.term == entry.term)))

  -- `for i, newEntry := range request.Entries`: the first conflict cuts the log there and puts the
  -- rest of the entries behind it.
  unfoldable pub merge_entries : List (LogEntry C) → List (LogEntry C) → Outcome (List (LogEntry C))
  merge_entries log [] = done log
  merge_entries log (entry ∷ rest) =
      let merged = merge_entries log rest in
      do
        conflict ← conflicts log entry
        if conflict
            then (do kept ← prefix_to log entry.index; done (kept ++ entry ∷ rest))
            else merged

  -- `if request.LeaderCommit > rf.commitIndex { ... }`
  unfoldable pub follow_commit : ℕ → Raft C → Outcome (Raft C)
  follow_commit leader_commit rf =
      if ltb rf.commit_index leader_commit
      then (do
        last ← last_log_index rf.log
        signal_committed
            (record rf { commit_index = if ltb leader_commit last then leader_commit else last }))
      else done rf

  -- A request of the current term or a later one makes the peer a follower of that term.
  unfoldable pub follow : ℕ → Raft C → Raft C
  follow term rf =
      if ltb rf.current_term term
      then record rf {
        voted_for = none;
        current_term = term;
        state = follower;
        election_armed = true;
      }
      else record rf { state = follower; election_armed = true }

  -- The log check and what follows it.
  unfoldable pub accept_entries :
      AppendEntriesArgs C → Raft C → Outcome (Raft C × AppendEntriesReply)
  accept_entries request rf = do
    base ← base_index rf.log
    last ← last_log_index rf.log
    if ltb (request.prev_log_index + 1) base
        then done (rf, reply_of 0 false)
        else if ltb last request.prev_log_index
        then done (rf, reply_of rf.current_term false)
        else (do
          prev ← entry_at rf.log request.prev_log_index
          if not (prev.term == request.prev_log_term)
              then done (rf, reply_of rf.current_term false)
              else (do
                log ← merge_entries rf.log request.entries
                rf1 ← follow_commit request.leader_commit (record rf { log = log })
                done (rf1, reply_of rf.current_term true)))

  abbrev persist_first : Raft C × AppendEntriesReply → Raft C × AppendEntriesReply
  persist_first (rf, reply) = (persist rf, reply)

  -- `AppendEntries`; `persist` is deferred, so it runs on every branch that returns.
  unfoldable pub append_entries :
      AppendEntriesArgs C → Raft C → Outcome (Raft C × AppendEntriesReply)
  append_entries request rf =
      if ltb request.term rf.current_term
      then done (persist rf, reply_of rf.current_term false)
      else (do
        result ← accept_entries request (follow request.term rf)
        done (persist_first result))
