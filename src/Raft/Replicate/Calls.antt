-- ===== src/Raft/Replicate/Calls.antt =====
-- The calls that a leader of raft.go starts: `sendHeartbeats`, alone and in `Start`.
use building_distributed_sys.Prelude.{
  ℕ, zero, suc, ◌+◌, ◌≤◌, ◌≡◌, refl, sym, ap, subst, ◌∙◌, true, false, inl, inr, some, List, [],
  ◌∷◌, map, length, get_elem?, drop, length-drop, get_elem?-lt, All, All-get_elem?, Bool-cases,
  ◌==◌, if◌then◌else◌, arith,
}
use building_distributed_sys.Raft.State.{done, Raft, AppendCall}
use building_distributed_sys.Raft.Log.Laws.{
  Indexed, IsLog, Indexed-drop, entry_at_lem, suffix_from_lem, get_elem?-drop,
}
use building_distributed_sys.Raft.Append.Merge.{HasTerm, Carries, Carries-at}
use building_distributed_sys.Raft.Replicate.{append_call, heartbeats_from, send_heartbeats}

-- A call carries the log of its sender from some entry to the end.
pub record IsCall {C : Type 0} (rf : Raft C) (call : AppendCall C) : Type 0 where
  pub in_term : call.args.term ≡ rf.current_term
  pub from : call.args.leader_id ≡ rf.me
  pub consecutive : Indexed (call.args.prev_log_index + 1) call.args.entries
  pub has_previous : HasTerm rf.log call.args.prev_log_index call.args.prev_log_term
  pub has_entries : Carries rf.log (call.args.prev_log_index + 1) call.args.entries
  pub to_end : call.args.prev_log_index + 1 + length call.args.entries ≡ length rf.log
  pub expects : call.expected_next_index ≡ length rf.log
  pub commands : call.args.entries ≡ drop (call.args.prev_log_index + 1) rf.log
  pub commit : call.args.leader_commit ≡ rf.commit_index

-- The peers other than `me` among the `rounds` from `i` on.
abbrev pub others_from : ℕ → ℕ → ℕ → List ℕ
others_from me i zero = []
others_from me i (suc rounds) =
    let rest = others_from me (suc i) rounds in if i == me then rest else i ∷ rest

abbrev pub server_of : {C : Type 0} → AppendCall C → ℕ
server_of call = call.server

-- Calls of the sender's log, one for each of the given peers.
pub record AreCalls {C : Type 0} (rf : Raft C) (servers : List ℕ) (calls : List (AppendCall C))
    : Type 0 where
  pub to_each : map server_of calls ≡ servers
  pub each : All (IsCall rf) calls

-- Every next index lies in the log or just behind it.
abbrev pub NextsIn : {C : Type 0} → Raft C → Type 0
NextsIn rf = All (λ k. (1 ≤ k) × (k ≤ length rf.log)) rf.next_index

module _ {C : Type 0} where
  pub append_call_lem :
      (rf : Raft C) (i next : ℕ)
      → IsLog rf.log
      → 1 ≤ next
      → next ≤ length rf.log
      → (call : AppendCall C) × (append_call rf i next ≡ done call)
        × (call.server ≡ i)
        × (call.args.prev_log_index + 1 ≡ next)
        × IsCall rf call
  unfolding append_call
  append_call_lem rf i zero h pos le = absurd (omega arith)
  append_call_lem rf i (suc prev) h pos le =
      let (e, found) = get_elem?-lt rf.log prev (omega arith) in
      let entries = drop (suc prev) rf.log in
      let shifted : suc prev ≡ prev + 1 = omega arith in
      (
        record {
          server = i;
          expected_next_index = suc prev + length entries;
          args = record {
            term = rf.current_term;
            leader_id = rf.me;
            prev_log_index = prev;
            prev_log_term = e.term;
            entries = entries;
            leader_commit = rf.commit_index;
          };
        },
        rw (entry_at_lem rf.log prev h found, suffix_from_lem rf.log (suc prev) h le) refl,
        refl,
        omega arith,
        record {
          in_term = refl;
          from = refl;
          consecutive =
              subst (λ k. Indexed k entries) (omega arith)
                (Indexed-drop 0 (suc prev) rf.log h.indexed);
          has_previous = (e, found, refl);
          has_entries =
              Carries-at rf.log (prev + 1) entries (λ j.
                ap (get_elem? rf.log) (omega arith) ∙ sym (get_elem?-drop (suc prev) rf.log j));
          to_end = omega (arith, length-drop (suc prev) rf.log);
          expects = omega (arith, length-drop (suc prev) rf.log);
          commands = ap (λ k. drop k rf.log) shifted;
          commit = refl;
        },
      )

  heartbeats_from_skip :
      (rf : Raft C) (i rounds : ℕ)
      → (i == rf.me) ≡ true
      → heartbeats_from rf i (suc rounds) ≡ heartbeats_from rf (suc i) rounds
  unfolding heartbeats_from
  heartbeats_from_skip rf i rounds e = rw e

  heartbeats_from_call :
      (rf : Raft C) (i rounds : ℕ) {next : ℕ} {call : AppendCall C} {calls : List (AppendCall C)}
      → (i == rf.me) ≡ false
      → get_elem? rf.next_index i ≡ some next
      → append_call rf i next ≡ done call
      → heartbeats_from rf (suc i) rounds ≡ done calls
      → heartbeats_from rf i (suc rounds) ≡ done (call ∷ calls)
  unfolding heartbeats_from
  heartbeats_from_call rf i rounds other found made rest = rw (other, found, made, rest)

  heartbeats_from_lem :
      (rf : Raft C) (i rounds : ℕ)
      → IsLog rf.log
      → NextsIn rf
      → i + rounds ≤ length rf.next_index
      → (calls : List (AppendCall C)) × (heartbeats_from rf i rounds ≡ done calls)
        × AreCalls rf (others_from rf.me i rounds) calls
  heartbeats_from_lem rf i zero h nexts le =
      ([], unfold heartbeats_from in refl, record { to_each = refl; each = tt })
  heartbeats_from_lem rf i (suc rounds) h nexts le =
      let (calls, made, a) = heartbeats_from_lem rf (suc i) rounds h nexts (omega arith) in
      elim (Bool-cases (i == rf.me)) [
        | inl e ↦ (calls, heartbeats_from_skip rf i rounds e ∙ made, rw e a)
        | inr other ↦
            let (next, found) = get_elem?-lt rf.next_index i (omega arith) in
            let (low, high) =
              All-get_elem? (λ k. (1 ≤ k) × (k ≤ length rf.log)) rf.next_index i nexts found in
            let (call, called, server, place, c) = append_call_lem rf i next h low high in
            (
              call ∷ calls,
              heartbeats_from_call rf i rounds other found called made,
              rw other (record { to_each = rw (server, a.to_each); each = (c, a.each) }),
            )
      ]

  -- A leader with a well-formed log and next indices sends, without a panic, one call to each
  -- other peer, in order, each with its log from some entry to the end.
  pub send_heartbeats_lem :
      (rf : Raft C)
      → IsLog rf.log
      → NextsIn rf
      → rf.peers ≡ length rf.next_index
      → (calls : List (AppendCall C)) × (send_heartbeats rf ≡ done calls)
        × AreCalls rf (others_from rf.me 0 rf.peers) calls
  unfolding send_heartbeats
  send_heartbeats_lem rf h nexts e = heartbeats_from_lem rf 0 rf.peers h nexts (omega arith)
