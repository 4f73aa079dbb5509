-- ===== src/Raft/Append/Handler.antt =====
-- `AppendEntries` as a whole, on a well-formed peer.
use building_distributed_sys.Prelude.{◌≡◌, max}
use building_distributed_sys.Raft.State.{Raft, AppendEntriesArgs, AppendEntriesReply}
use building_distributed_sys.Raft.Valid.{IsValid}
use building_distributed_sys.Raft.Append.Accept.{Answers}

module _ {C : Type 0} where
  -- The result of `AppendEntries`: a well-formed peer in the later of the two terms, an answer
  -- with that term, and a log that fits the answer.
  abbrev pub Handled : AppendEntriesArgs C → Raft C → Raft C × AppendEntriesReply → Type 0
  Handled args rf r =
      IsValid r.0
      × Answers args rf r.0 r.1.success
      × (r.1.term ≡ max rf.current_term args.term)
      × (r.0.current_term ≡ max rf.current_term args.term)
