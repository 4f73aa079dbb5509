-- ===== src/Raft/Replicate.antt =====
-- The leader's side of replication in raft.go: `sendHeartbeats`, `handleAppendEntries` and
-- `respAppendEntries`.
pub mod Calls
pub mod Replies
pub mod Handler
use building_distributed_sys.Prelude.{
  ℕ, zero, suc, ◌+◌, ◌/◌, max, Bool, true, false, Option, none, some, List, [], ◌∷◌, length,
  get_elem?, set, ltb, leb, ◌==◌, ◌&&◌, if◌then◌else◌,
}
use building_distributed_sys.Raft.State.{
  Outcome, done, panicked, ◌>>=◌, ◌>>◌, follower, is_leader, Raft, AppendEntriesArgs,
  AppendEntriesReply, AppendCall, persist, signal_committed,
}
use building_distributed_sys.Raft.Log.{or_panic, entry_at, suffix_from}

-- `n - 1` of an index; -1 panics where the log is indexed by it
abbrev pub before : ℕ → Outcome ℕ
before zero = panicked
before (suc n) = done n

module _ {C : Type 0} where
  -- The call for one peer whose next index is `next`.
  unfoldable pub append_call : Raft C → ℕ → ℕ → Outcome (AppendCall C)
  append_call rf i next = do
    prev_log_index ← before next
    prev ← entry_at rf.log prev_log_index
    entries ← suffix_from rf.log next
    done (record {
      server = i;
      expected_next_index = next + length entries;
      args = record {
        term = rf.current_term;
        leader_id = rf.me;
        prev_log_index = prev_log_index;
        prev_log_term = prev.term;
        entries = entries;
        leader_commit = rf.commit_index;
      };
    })

  -- The loop of `sendHeartbeats` from peer `i`, with `rounds` peers left.
  unfoldable pub heartbeats_from : Raft C → ℕ → ℕ → Outcome (List (AppendCall C))
  heartbeats_from rf i zero = done []
  heartbeats_from rf i (suc rounds) =
      let rest = heartbeats_from rf (suc i) rounds in
      if i == rf.me then rest else (do
        next ← or_panic (get_elem? rf.next_index i)
        call ← append_call rf i next
        calls ← rest
        done (call ∷ calls))

  unfoldable pub send_heartbeats : Raft C → Outcome (List (AppendCall C))
  send_heartbeats rf = heartbeats_from rf 0 rf.peers

  -- `for i := range rf.peers { if i != rf.me && rf.matchIndex[i] >= m { n++ } }` from peer `i`
  unfoldable pub agrees_from : Raft C → ℕ → ℕ → ℕ → Outcome ℕ
  agrees_from rf m i zero = done 0
  agrees_from rf m i (suc rounds) =
      let rest = agrees_from rf m (suc i) rounds in
      if i == rf.me then rest else (do
        matched ← or_panic (get_elem? rf.match_index i)
        n ← rest
        done (if leb m matched then n + 1 else n))

  -- The update of `nextIndex[server]` and `matchIndex[server]` after a success.
  unfoldable pub record_match : ℕ → ℕ → AppendEntriesArgs C → Raft C → Outcome (Raft C)
  record_match server expected args rf = do
    next ← or_panic (get_elem? rf.next_index server)
    if next + length args.entries == expected
        then (do
          matched ← before expected
          done (record rf {
            next_index = set rf.next_index server expected;
            match_index = set rf.match_index server matched;
          }))
        else done rf

  -- Counting the peers that agree, and the commit of an entry of the current term.
  unfoldable pub advance_commit : ℕ → Raft C → Outcome (Raft C)
  advance_commit server rf = do
    matched ← or_panic (get_elem? rf.match_index server)
    others ← agrees_from rf matched 0 rf.peers
    entry ← entry_at rf.log matched
    if ltb (rf.peers / 2) (1 + others) && entry.term == rf.current_term
        then signal_committed (record rf { commit_index = max rf.commit_index matched })
        else done rf

  -- `respAppendEntries`, with the calls that it starts
  unfoldable pub resp_append_entries :
      ℕ
      → ℕ
      → AppendEntriesArgs C
      → AppendEntriesReply
      → Raft C
      → Outcome (Raft C × List (AppendCall C))
  resp_append_entries server expected args reply rf =
      if is_leader rf.state && args.term == rf.current_term
      then (if ltb rf.current_term reply.term
          then done (
            record (persist rf) {
              state = follower;
              voted_for = none;
              current_term = reply.term;
              election_armed = true;
            },
            [],
          )
          else if reply.success
          then (do
            rf1 ← record_match server expected args rf
            rf2 ← advance_commit server rf1
            done (rf2, []))
          else (do
            or_panic (get_elem? rf.next_index server)
            let retry = record rf { next_index = set rf.next_index server 1 }
            call ← append_call retry server 1
            done (retry, call ∷ [])))
      else done (rf, [])

  -- `handleAppendEntries` up to the call: whether the call is made, or the goroutine ends after
  -- the deferred `persist`
  unfoldable pub begin_append : AppendEntriesArgs C → Raft C → Raft C × Bool
  begin_append args rf =
      if is_leader rf.state && args.term == rf.current_term then (rf, true) else (persist rf, false)

  -- The rest of it up to the deferred `persist`, with the reply if the call returned one.
  unfoldable pub finish_append :
      AppendCall C → Option AppendEntriesReply → Raft C → Outcome (Raft C × List (AppendCall C))
  finish_append call none rf = done (rf, [])
  finish_append call (some reply) rf =
      resp_append_entries call.server call.expected_next_index call.args reply rf

  -- The deferred `persist`, which takes the lock anew after `respAppendEntries` has let it go.
  unfoldable pub end_append : Raft C → Raft C
  end_append rf = persist rf
