-- ===== src/Raft/Crash.antt =====
-- A peer of raft.go that crashes and is made again from what it persisted.
use building_distributed_sys.Prelude.{◌<◌, ◌≡◌, refl, true, some, arith, sym}
use building_distributed_sys.Raft.State.{done, follower, Persisted, Raft, RequestVoteArgs, persist}
use building_distributed_sys.Raft.Vote.{request_vote, adopt_term, grant, up_to_date}
use building_distributed_sys.Raft.Node.{make, read_persist}

module _ {C : Type 0} where
  -- The crash loses all but the persister.
  abbrev pub restart : Raft C → Raft C
  restart rf = make rf.peers rf.me rf.persister

  -- `rf` grants the vote asked for, and becomes `rf'`.
  abbrev pub Grants : RequestVoteArgs → Raft C → Raft C → Type 0
  Grants args rf rf' =
      request_vote args rf ≡ done (rf', record { term = rf.current_term; vote_granted = true })

  -- What was persisted before the last change is what a restart brings back: term, vote and log.
  pub restart-persist :
      (rf : Raft C)
      → ((restart (persist rf)).current_term ≡ rf.current_term)
        × ((restart (persist rf)).voted_for ≡ rf.voted_for)
        × ((restart (persist rf)).log ≡ rf.log)
  unfolding make read_persist persist
  restart-persist rf = (refl, refl, refl)

  -- `RequestVote` does not persist. A peer whose saved log is its log votes for one candidate of a
  -- later term, crashes, and then votes in that same term for any other candidate whose log is
  -- up to date.
  pub two_votes_after_restart :
      (rf : Raft C) (saved : Persisted C) (args args' : RequestVoteArgs)
      → rf.persister ≡ some saved
      → saved.log ≡ rf.log
      → saved.current_term < args.term
      → rf.current_term < args.term
      → args'.term ≡ args.term
      → up_to_date args rf.log ≡ done true
      → up_to_date args' rf.log ≡ done true
      → (rf1 : Raft C) × (rf2 : Raft C) × Grants args rf rf1
        × Grants args' (restart rf1) rf2
        × (rf1.current_term ≡ rf2.current_term)
        × (rf1.voted_for ≡ some args.candidate_id)
        × (rf2.voted_for ≡ some args'.candidate_id)
  unfolding request_vote grant adopt_term make read_persist
  two_votes_after_restart rf saved args args' kept same_log old later same fresh fresh' =
      let rf1 = record rf {
        current_term = args.term;
        state = follower;
        voted_for = some args.candidate_id;
        election_armed = true;
      } in
      let rf2 = record (restart rf1) {
        current_term = args'.term;
        state = follower;
        voted_for = some args'.candidate_id;
        election_armed = true;
      } in
      (rf1, rf2, ground arith, ground arith, sym same, refl, refl)
