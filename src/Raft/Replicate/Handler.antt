-- ===== src/Raft/Replicate/Handler.antt =====
-- `respAppendEntries` as a whole, on a well-formed peer.
use building_distributed_sys.Prelude.{
  ℕ, ◌≤◌, ◌<◌, ◌≡◌, inl, inr, refl, none, ◌∙◌, true, false, List, [], ◌∷◌, length, get_elem?, set,
  ltb, ◌==◌, ◌&&◌, arith, All, All-set, length-set, get_elem?-lt, Bool-cases,
}
use building_distributed_sys.Raft.State.{
  done, ◌>>=◌, ◌>>◌, follower, leader, is_leader, Raft, AppendEntriesArgs, AppendEntriesReply,
  AppendCall, persist,
}
use building_distributed_sys.Raft.Log.{or_panic}
use building_distributed_sys.Raft.Valid.{IsValid, Ensures, Ensures-bind}
use building_distributed_sys.Raft.Replicate.{
  append_call, record_match, advance_commit, resp_append_entries,
}
use building_distributed_sys.Raft.Replicate.Calls.{IsCall, append_call_lem}
use building_distributed_sys.Raft.Replicate.Replies.{
  Commits, Matched, Committed, Kept, Advanced, record_match_lem, advance_commit_lem,
}

module _ {C : Type 0} where
  -- The peer leads in the term of the call.
  abbrev pub IsOwn : AppendEntriesArgs C → Raft C → Type 0
  IsOwn args rf = (rf.state ≡ leader) × (args.term ≡ rf.current_term)

  -- What the reply does, in the four cases of the call and the reply.
  pub data Answered (server expected : ℕ) (args : AppendEntriesArgs C) (reply : AppendEntriesReply)
      (rf rf' : Raft C) (calls : List (AppendCall C)) : Type 0 where
    ignored :
        ¬ IsOwn args rf → rf' ≡ rf → calls ≡ [] → Answered server expected args reply rf rf' calls
    toppled :
        IsOwn args rf
        → rf.current_term < reply.term
        → (rf'.state ≡ follower)
          × (rf'.current_term ≡ reply.term)
          × (rf'.voted_for ≡ none)
          × (rf'.log ≡ rf.log)
          × (rf'.commit_index ≡ rf.commit_index)
        → calls ≡ []
        → Answered server expected args reply rf rf' calls
    recorded :
        IsOwn args rf
        → reply.term ≤ rf.current_term
        → reply.success ≡ true
        → Matched server expected args rf rf'
        → Committed server rf rf'
        → Kept rf rf'
        → calls ≡ []
        → Answered server expected args reply rf rf' calls
    again :
        IsOwn args rf
        → reply.term ≤ rf.current_term
        → reply.success ≡ false
        → (rf'.next_index ≡ set rf.next_index server 1)
          × (rf'.match_index ≡ rf.match_index)
          × (rf'.commit_index ≡ rf.commit_index)
        → Kept rf rf'
        → (call : AppendCall C) × (calls ≡ call ∷ [])
          × (call.server ≡ server)
          × (call.args.prev_log_index ≡ 0)
        → Answered server expected args reply rf rf' calls

  -- The result: the peer is well-formed, the calls that it starts carry its log, its commit index is
  -- kept or backed by a majority, and the reply did what it does in its case.
  abbrev pub Responded :
      ℕ
      → ℕ
      → AppendEntriesArgs C
      → AppendEntriesReply
      → Raft C
      → Raft C × List (AppendCall C)
      → Type 0
  Responded server expected args reply rf r =
      IsValid r.0
      × All (IsCall r.0) r.1
      × Commits rf r.0
      × Answered server expected args reply rf r.0 r.1

  succeeded :
      (server expected : ℕ) (args : AppendEntriesArgs C) (reply : AppendEntriesReply) (rf : Raft C)
      → IsValid rf
      → IsOwn args rf
      → reply.term ≤ rf.current_term
      → reply.success ≡ true
      → server < rf.peers
      → expected ≤ length rf.log
      → Ensures rf (Responded server expected args reply rf) (
          record_match server expected args rf >>= λ rf1.
          advance_commit server rf1 >>= λ rf2. done (rf2, []))
  succeeded server expected args reply rf v own low good lt le =
      let (
        rf1,
        did,
        (v1, role, peers, me, log, commit, term, counts),
        (next, found, nexts, matches),
      ) =
        record_match_lem server expected args rf v own.0 lt le in
      rw did (
        Ensures-bind rf (Advanced server rf1) (Responded server expected args reply rf)
          (advance_commit server rf1) _
          (advance_commit_lem rf server rf1 counts v1 (role ∙ own.0) (omega arith))
          (λ rf2 (v2, c, nexts2, matches2, committed, (log2, term2, role2)). (
            v2,
            tt,
            rw (← peers, ← me, ← commit, ← term) c,
            recorded own low good (next, found, nexts2 ∙ nexts, matches2 ∙ matches)
                (rw (← peers, ← me, ← commit, ← term, ← log) committed)
                (log2 ∙ log, term2 ∙ term, role2 ∙ role) refl,
          )))

  retried :
      (server expected : ℕ) (args : AppendEntriesArgs C) (reply : AppendEntriesReply) (rf : Raft C)
      → IsValid rf
      → IsOwn args rf
      → reply.term ≤ rf.current_term
      → reply.success ≡ false
      → server < rf.peers
      → Ensures rf (Responded server expected args reply rf) (
          or_panic (get_elem? rf.next_index server)
          >> (append_call (record rf { next_index = set rf.next_index server 1 }) server 1
              >>= λ call. done (record rf { next_index = set rf.next_index server 1 }, call ∷ [])))
  retried server expected args reply rf v own low bad lt =
      let (next, found) = get_elem?-lt rf.next_index server (omega arith) in
      let retry = record rf { next_index = set rf.next_index server 1 } in
      let (call, called, to, place, c) =
        append_call_lem retry server 1 v.logged (omega arith) (omega (arith, v.committed)) in
      rw (found, called)
        (
          retry-IsValid,
          (c, tt),
          inl refl,
          again own low bad (refl, refl, refl) (refl, refl, refl) (call, refl, to, omega arith),
        )
    where
      retry-IsValid : IsValid (record rf { next_index = set rf.next_index server 1 })
      retry-IsValid = record {
        logged = v.logged;
        committed = v.committed;
        applied = v.applied;
        nexts = length-set rf.next_index server 1 ∙ v.nexts;
        matches = v.matches;
        next_valid = λ _.
            All-set (λ k. (1 ≤ k) × (k ≤ length rf.log)) rf.next_index server 1 (v.next_valid own.0)
              (omega arith, omega (arith, v.committed));
        match_valid = v.match_valid;
      }

  stepped_down :
      (rf : Raft C) (term : ℕ)
      → IsValid rf
      → IsValid (record (persist rf) {
        state = follower;
        voted_for = none;
        current_term = term;
        election_armed = true;
      })
  unfolding persist
  stepped_down rf term v = record {
    logged = v.logged;
    committed = v.committed;
    applied = v.applied;
    nexts = v.nexts;
    matches = v.matches;
    next_valid = λ e. ground arith;
    match_valid = λ e. ground arith;
  }

  -- `respAppendEntries` does not panic on a well-formed peer, for a peer's index and, while it leads
  -- in the call's term, an expected next index within its log or just behind it, and it blocks only
  -- on the full channel. A reply to a call of another term, or to a peer that leads no more, changes
  -- nothing. A newer term makes the leader a follower of it without a vote. A success moves both
  -- indices of the server to the expected ones, if the reply is the one that its next index waits
  -- for, and the commit index to its match index exactly if a majority is recorded to have that
  -- entry and it is of the current term. A failure sets the next index to 1 and starts one call, to
  -- this server, with the whole log behind the entry 0. The peer is well-formed again.
  pub resp_append_entries_lem :
      (server expected : ℕ) (args : AppendEntriesArgs C) (reply : AppendEntriesReply) (rf : Raft C)
      → IsValid rf
      → server < rf.peers
      → (rf.state ≡ leader → args.term ≡ rf.current_term → expected ≤ length rf.log)
      → Ensures rf
          (Responded server expected args reply rf)
          (resp_append_entries server expected args reply rf)
  unfolding resp_append_entries
  resp_append_entries_lem server expected args reply rf v lt le =
      elim (Bool-cases (is_leader rf.state && args.term == rf.current_term)) [
        | inr other ↦ rw other (v, tt, inl refl, ignored (λ (leads, same). ground arith) refl refl)
        | inl leading ↦
            let own : IsOwn args rf = (ground arith, ground arith) in
            rw leading (elim (Bool-cases (ltb rf.current_term reply.term)) [
              | inl newer ↦ rw newer (
                stepped_down rf reply.term v,
                tt,
                inl (unfold persist in refl),
                unfold persist in toppled own (ground arith) (refl, refl, refl, refl, refl) refl,
              )
              | inr current ↦
                  let low : reply.term ≤ rf.current_term = ground arith in
                  rw current (elim (Bool-cases reply.success) [
                    | inl success ↦ simp success (
                        succeeded server expected args reply rf v own low success lt
                          (le own.0 own.1))
                    | inr failure ↦
                        simp failure (retried server expected args reply rf v own low failure lt)
                  ])
            ])
      ]
