-- ===== src/Raft/Log.antt =====
-- Reads of `rf.log` in raft.go: indexing and slicing relative to `rf.log[0].Index`.
pub mod Laws
use building_distributed_sys.Prelude.{
  ℕ, ◌-◌, List, [], ◌∷◌, Option, none, some, length, get_elem?, take, ◌&&◌, drop, ltb, leb,
  if◌then◌else◌,
}
use building_distributed_sys.Raft.State.{Outcome, done, panicked, ◌>>=◌, LogEntry}

module _ {ℓ} {A : Type ℓ} where
  abbrev pub or_panic : Option A → Outcome A
  or_panic none = panicked
  or_panic (some a) = done a

module _ {C : Type 0} where
  -- `log[0].Index`
  unfoldable pub base_index : List (LogEntry C) → Outcome ℕ
  base_index [] = panicked
  base_index (e ∷ log) = done e.index

  -- `i-log[0].Index`, as an index: a negative one panics where it is used
  unfoldable pub offset : List (LogEntry C) → ℕ → Outcome ℕ
  offset log i = do base ← base_index log; if ltb i base then panicked else done (i - base)

  -- `log[i-log[0].Index]`
  unfoldable pub entry_at : List (LogEntry C) → ℕ → Outcome (LogEntry C)
  entry_at log i = do k ← offset log i; or_panic (get_elem? log k)

  -- `log[i-log[0].Index:]`
  unfoldable pub suffix_from : List (LogEntry C) → ℕ → Outcome (List (LogEntry C))
  suffix_from log i = do
    k ← offset log i
    if leb k (length log) then done (drop k log) else panicked

  -- `log[:i-log[0].Index]`. Go would let the slice reach into spare capacity; here it panics.
  unfoldable pub prefix_to : List (LogEntry C) → ℕ → Outcome (List (LogEntry C))
  prefix_to log i = do k ← offset log i; if leb k (length log) then done (take k log) else panicked

  -- `log[i-log[0].Index : j-log[0].Index]`
  unfoldable pub slice : List (LogEntry C) → ℕ → ℕ → Outcome (List (LogEntry C))
  slice log i j = do
    from ← offset log i
    to ← offset log j
    if leb from to && leb to (length log) then done (take (to - from) (drop from log)) else panicked

  unfoldable pub last_entry : List (LogEntry C) → Option (LogEntry C)
  last_entry [] = none
  last_entry (e ∷ []) = some e
  last_entry (e ∷ f ∷ log) = last_entry (f ∷ log)

  -- `rf.lastLogIndex()`
  unfoldable pub last_log_index : List (LogEntry C) → Outcome ℕ
  last_log_index log = do e ← or_panic (last_entry log); done e.index

  -- `rf.lastLogTerm()`, with `none` for -1
  unfoldable pub last_log_term : List (LogEntry C) → Option ℕ
  last_log_term log = elim (last_entry log) [ none ↦ none | some e ↦ some e.term ]
