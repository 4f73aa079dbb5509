-- ===== src/Raft/Vote/Winning.antt =====
-- Starting and winning an election, on a well-formed peer.
use building_distributed_sys.Prelude.{
  ℕ, suc, ◌+◌, ◌-◌, ◌/◌, ◌≤◌, ◌<◌, ◌≡◌, ◌≢◌, refl, ap, sym, ◌∙◌, true, some, List, [], ◌∷◌, map,
  length, arith, All,
}
use building_distributed_sys.Raft.State.{
  done, candidate, leader, Raft, RequestVoteArgs, RequestVoteReply, AppendCall, persist,
}
use building_distributed_sys.Raft.Log.{last_log_term}
use building_distributed_sys.Raft.Log.Laws.{last_entry_lem, last_log_index_lem}
use building_distributed_sys.Raft.Valid.{IsValid}
use building_distributed_sys.Raft.Replicate.{send_heartbeats}
use building_distributed_sys.Raft.Replicate.Calls.{
  AreCalls, NextsIn, others_from, send_heartbeats_lem,
}
use building_distributed_sys.Raft.Vote.{election_tick, become_leader, vote_reply}

-- The reply is counted and makes a majority.
abbrev pub Wins : {C : Type 0} → RequestVoteArgs → RequestVoteReply → ℕ → Raft C → Type 0
Wins request response total rf =
    (rf.state ≡ candidate)
    × (rf.current_term ≡ request.term)
    × (response.term ≤ rf.current_term)
    × (response.vote_granted ≡ true)
    × (rf.peers / 2 < total + 1)

length-map_const : (xs : List ℕ) (k : ℕ) → length (map (λ _. k) xs) ≡ length xs
length-map_const [] k = refl
length-map_const (x ∷ xs) k = ap suc (length-map_const xs k)

All-map_const : (P : ℕ → Type 0) (xs : List ℕ) (k : ℕ) → P k → All P (map (λ _. k) xs)
All-map_const P [] k p = tt
All-map_const P (x ∷ xs) k p = (p, All-map_const P xs k p)

module _ {C : Type 0} where
  become_leader-NextsIn : (rf : Raft C) → IsValid rf → NextsIn (become_leader rf)
  unfolding become_leader
  become_leader-NextsIn rf v =
      All-map_const (λ k. (1 ≤ k) × (k ≤ length rf.log)) rf.next_index (rf.commit_index + 1)
        (omega arith, omega (arith, v.committed))

  -- The new leader and its heartbeats.
  winning :
      (rf : Raft C)
      → IsValid rf
      → (calls : List (AppendCall C)) × (send_heartbeats (become_leader rf) ≡ done calls)
        × AreCalls (become_leader rf) (others_from rf.me 0 rf.peers) calls
  unfolding become_leader
  winning rf v =
      send_heartbeats_lem (become_leader rf) v.logged (become_leader-NextsIn rf v)
        (sym (length-map_const rf.next_index (rf.commit_index + 1) ∙ v.nexts))

  -- A candidate whose last missing vote arrives becomes the leader of its term without a panic. It
  -- sends one call to each other peer, each with its log from some entry to the end; every next
  -- index is reset to the entry behind the commit index, and the match indices are those that it
  -- had before, whatever they were.
  pub winning_lem :
      (request : RequestVoteArgs) (response : RequestVoteReply) (total : ℕ) (rf : Raft C)
      → IsValid rf
      → Wins request response total rf
      → (rf' : Raft C) × (calls : List (AppendCall C)) × (vote_reply request response total rf
          ≡ done (rf', total + 1, true, calls))
        × (rf'.state ≡ leader)
        × (rf'.current_term ≡ rf.current_term)
        × (rf'.next_index ≡ map (λ _. rf.commit_index + 1) rf.next_index)
        × (rf'.match_index ≡ rf.match_index)
        × AreCalls (become_leader rf) (others_from rf.me 0 rf.peers) calls
  unfolding vote_reply
  winning_lem request response total rf v w =
      let (calls, sent, a) = winning rf v in
      (
        record (become_leader rf) { heartbeat_armed = true },
        calls,
        ground arith,
        unfold become_leader in refl,
        unfold become_leader in refl,
        unfold become_leader in refl,
        unfold become_leader in refl,
        a,
      )

  -- The election branch of `ticker` on a well-formed peer: a leader starts no election; any other
  -- peer asks for votes for itself in the next term, with the last index and term of its log.
  pub election_tick_lem :
      (rf : Raft C)
      → IsValid rf
      → rf.state ≢ leader
      → (rf' : Raft C) × (request : RequestVoteArgs) × (election_tick rf ≡ done (rf', some request))
        × IsValid rf'
        × (request.last_log_index + 1 ≡ length rf.log)
        × (some request.last_log_term ≡ last_log_term rf.log)
        × (request.term ≡ rf.current_term + 1)
        × (request.candidate_id ≡ rf.me)
  unfolding election_tick persist last_log_term
  election_tick_lem rf v other =
      let (last, found, i) = last_entry_lem 0 rf.log v.logged.indexed v.logged.holds_sentinel in
      (
        record rf {
          persister =
              some
                (record { current_term = rf.current_term; voted_for = rf.voted_for; log = rf.log });
          current_term = rf.current_term + 1;
          state = candidate;
          voted_for = some rf.me;
          election_armed = true;
        },
        record {
          term = rf.current_term + 1;
          candidate_id = rf.me;
          last_log_index = length rf.log - 1;
          last_log_term = last.term;
        },
        ground (arith, last_log_index_lem rf.log v.logged),
        record {
          logged = v.logged;
          committed = v.committed;
          applied = v.applied;
          nexts = v.nexts;
          matches = v.matches;
          next_valid = λ e. ground arith;
          match_valid = λ e. ground arith;
        },
        omega (arith, v.logged.holds_sentinel),
        ground (arith, found),
        refl,
        refl,
      )
