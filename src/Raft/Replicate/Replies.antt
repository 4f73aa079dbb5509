-- ===== src/Raft/Replicate/Replies.antt =====
-- The two parts of a success in `respAppendEntries`, on a well-formed leader.
use building_distributed_sys.Prelude.{
  ℕ, zero, suc, ◌+◌, ◌-◌, ◌/◌, ◌≤◌, ◌<◌, ◌≡◌, ◌⊎◌, inl, inr, refl, ap, ◌∙◌, none, some, true, List,
  [], ◌∷◌, length, get_elem?, set, max, All-set, All-get_elem?, length-set, get_elem?-lt,
  Bool-cases, dec_lt, ◌==◌, if◌then◌else◌, arith, ltb, leb, ◌&&◌,
}
use building_distributed_sys.Raft.State.{
  done, leader, LogEntry, Raft, AppendEntriesArgs, signal_committed,
}
use building_distributed_sys.Raft.Log.Laws.{entry_at_lem}
use building_distributed_sys.Raft.Append.Merge.{HasTerm}
use building_distributed_sys.Raft.Valid.{IsValid, Ensures}
use building_distributed_sys.Raft.Replicate.{before, agrees_from, record_match, advance_commit}
use building_distributed_sys.Raft.Replicate.Calls.{others_from}

-- How many of the given peers have a match index of at least `m`.
abbrev pub reaching : ℕ → List ℕ → List ℕ → ℕ
reaching m matched [] = 0
reaching m matched (i ∷ is) =
    let rest = reaching m matched is in
    elim (get_elem? matched i) [ none ↦ rest | some k ↦ if leb m k then rest + 1 else rest ]

-- The commit index is kept, or now stands at an entry of the current term that a majority of the
-- peers, this one included, is recorded to have.
abbrev pub Commits : {C : Type 0} → Raft C → Raft C → Type 0
Commits rf rf' =
    (rf'.commit_index ≡ rf.commit_index)
    ⊎ (HasTerm rf'.log rf'.commit_index rf.current_term
        × (rf.peers / 2
            < 1 + reaching rf'.commit_index rf'.match_index (others_from rf.me 0 rf.peers)))

-- A success is recorded in both indices of the server, if the reply is the one that its next index
-- waits for, and ignored otherwise.
abbrev pub Matched : {C : Type 0} → ℕ → ℕ → AppendEntriesArgs C → Raft C → Raft C → Type 0
Matched server expected args rf rf' =
    (next : ℕ) × (get_elem? rf.next_index server ≡ some next)
    × (rf'.next_index ≡ (
        if next + length args.entries == expected
        then set rf.next_index server expected
        else rf.next_index))
    × (rf'.match_index ≡ (
        if next + length args.entries == expected
        then set rf.match_index server (expected - 1)
        else rf.match_index))

-- The commit index moves up to the match index of the server exactly if a majority of the peers,
-- this one included, is recorded to have that entry, and the entry is of the current term.
abbrev pub Committed : {C : Type 0} → ℕ → Raft C → Raft C → Type 0
Committed {C} server rf rf' =
    (m : ℕ) × (e : LogEntry C) × (get_elem? rf'.match_index server ≡ some m)
    × (get_elem? rf.log m ≡ some e)
    × (rf'.commit_index ≡ (
        if ltb (rf.peers / 2) (1 + reaching m rf'.match_index (others_from rf.me 0 rf.peers))
          && e.term == rf.current_term
        then max rf.commit_index m
        else rf.commit_index))

before_lem : (n : ℕ) → 1 ≤ n → before n ≡ done (n - 1)
before_lem zero h = absurd (omega arith)
before_lem (suc n) h = ap done (omega arith)

module _ {C : Type 0} where
  pub agrees_from_lem :
      (rf : Raft C) (m i rounds : ℕ)
      → i + rounds ≤ length rf.match_index
      → agrees_from rf m i rounds ≡ done (reaching m rf.match_index (others_from rf.me i rounds))
  unfolding agrees_from
  agrees_from_lem rf m i zero le = refl
  agrees_from_lem rf m i (suc rounds) le =
      let (k, found) = get_elem?-lt rf.match_index i (omega arith) in
      elim (Bool-cases (i == rf.me)) [
        | inl e ↦ rw e (agrees_from_lem rf m (suc i) rounds (omega arith))
        | inr other ↦
            rw (other, found, agrees_from_lem rf m (suc i) rounds (omega arith)) (ground arith)
      ]

  -- What `record_match` leaves: the log and the counters of the peer, and valid indices.
  abbrev pub Recorded : Raft C → Raft C → Type 0
  Recorded rf rf1 =
      IsValid rf1
      × (rf1.state ≡ rf.state)
      × (rf1.peers ≡ rf.peers)
      × (rf1.me ≡ rf.me)
      × (rf1.log ≡ rf.log)
      × (rf1.commit_index ≡ rf.commit_index)
      × (rf1.current_term ≡ rf.current_term)
      × (rf1.has_committed ≡ rf.has_committed)

  pub record_match_lem :
      (server expected : ℕ) (args : AppendEntriesArgs C) (rf : Raft C)
      → IsValid rf
      → rf.state ≡ leader
      → server < rf.peers
      → expected ≤ length rf.log
      → (rf1 : Raft C) × (record_match server expected args rf ≡ done rf1)
        × Recorded rf rf1
        × Matched server expected args rf rf1
  unfolding record_match
  record_match_lem server expected args rf v leads lt le =
      let (next, found) = get_elem?-lt rf.next_index server (omega arith) in
      let (low, high) =
        All-get_elem? (λ k. (1 ≤ k) × (k ≤ length rf.log)) rf.next_index server (v.next_valid leads)
          found in
      elim (Bool-cases (next + length args.entries == expected)) [
        | inr stale ↦ (
          rf,
          rw (found, stale),
          (v, refl, refl, refl, refl, refl, refl, refl),
          (next, found, rw stale, rw stale),
        )
        | inl fresh ↦
            let pos : 1 ≤ expected = ground arith in
            (
              record rf {
                next_index = set rf.next_index server expected;
                match_index = set rf.match_index server (expected - 1);
              },
              rw (found, fresh, before_lem expected pos),
              (
                record {
                  logged = v.logged;
                  committed = v.committed;
                  applied = v.applied;
                  nexts = length-set rf.next_index server expected ∙ v.nexts;
                  matches = length-set rf.match_index server (expected - 1) ∙ v.matches;
                  next_valid = λ _.
                      All-set (λ k. (1 ≤ k) × (k ≤ length rf.log)) rf.next_index server expected
                        (v.next_valid leads) (pos, le);
                  match_valid = λ _.
                      All-set (λ k. k < length rf.log) rf.match_index server (expected - 1)
                        (v.match_valid leads) (omega arith);
                },
                refl,
                refl,
                refl,
                refl,
                refl,
                refl,
                refl,
              ),
              (next, found, rw fresh, rw fresh),
            )
      ]

  -- The log, the term and the role are as before.
  abbrev pub Kept : Raft C → Raft C → Type 0
  Kept rf rf' = (rf'.log ≡ rf.log) × (rf'.current_term ≡ rf.current_term) × (rf'.state ≡ rf.state)

  -- The state after a commit, or after none.
  abbrev pub Advanced : ℕ → Raft C → Raft C → Type 0
  Advanced server rf rf2 =
      IsValid rf2
      × Commits rf rf2
      × (rf2.next_index ≡ rf.next_index)
      × (rf2.match_index ≡ rf.match_index)
      × Committed server rf rf2
      × Kept rf rf2

  advance_at_majority :
      (server : ℕ) (rf : Raft C) (m : ℕ) (e : LogEntry C)
      → IsValid rf
      → get_elem? rf.match_index server ≡ some m
      → get_elem? rf.log m ≡ some e
      → (ltb (rf.peers / 2) (1 + reaching m rf.match_index (others_from rf.me 0 rf.peers))
          && e.term == rf.current_term)
        ≡ true
      → m < length rf.log
      → Advanced server rf
          (record rf { commit_index = max rf.commit_index m; has_committed = rf.has_committed + 1 })
  advance_at_majority server rf m e v recorded found agreed inside = (
    record {
      logged = v.logged;
      committed = omega arith;
      applied = omega arith;
      nexts = v.nexts;
      matches = v.matches;
      next_valid = v.next_valid;
      match_valid = v.match_valid;
    },
    elim (dec_lt rf.commit_index m) [
      | no below ↦ inl (omega arith)
      | yes above ↦
          let at_m : max rf.commit_index m ≡ m = omega arith in
          inr (rw at_m ((e, found, ground arith), ground arith))
    ],
    refl,
    refl,
    (m, e, recorded, found, rw agreed),
    (refl, refl, refl),
  )

  signal_lem :
      (rf0 : Raft C) (P : Raft C → Type 0) (rf : Raft C)
      → rf.has_committed ≡ rf0.has_committed
      → P (record rf { has_committed = rf.has_committed + 1 })
      → Ensures rf0 P (signal_committed rf)
  unfolding signal_committed
  signal_lem rf0 P rf counts p = elim (Bool-cases (ltb rf.has_committed 1000)) [
    | inl free ↦ rw free p
    | inr full ↦ rw full (ground arith)
  ]

  pub advance_commit_lem :
      (rf0 : Raft C) (server : ℕ) (rf : Raft C)
      → rf.has_committed ≡ rf0.has_committed
      → IsValid rf
      → rf.state ≡ leader
      → server < rf.peers
      → Ensures rf0 (Advanced server rf) (advance_commit server rf)
  unfolding advance_commit
  advance_commit_lem rf0 server rf counts v leads lt =
      let (m, found) = get_elem?-lt rf.match_index server (omega arith) in
      let inside =
        All-get_elem? (λ k. k < length rf.log) rf.match_index server (v.match_valid leads) found in
      let (e, at_m) = get_elem?-lt rf.log m inside in
      rw (found, agrees_from_lem rf m 0 rf.peers (omega arith), entry_at_lem rf.log m v.logged at_m)
        (elim (Bool-cases (
          ltb (rf.peers / 2) (1 + reaching m rf.match_index (others_from rf.me 0 rf.peers))
          && e.term == rf.current_term)) [
            | inr none_yet ↦
                rw none_yet
                  (v, inl refl, refl, refl, (m, e, found, at_m, rw none_yet), (refl, refl, refl))
            | inl agreed ↦ rw agreed (
                signal_lem rf0 (Advanced server rf)
                  (record rf { commit_index = max rf.commit_index m }) counts
                  (advance_at_majority server rf m e v found at_m agreed inside))
          ])
