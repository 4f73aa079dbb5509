-- ===== src/Tests/SyncRuns.antt =====
-- The queue and the semaphore of lab0 in short runs.
use building_distributed_sys.Prelude.{ℕ, ◌≡◌, refl, List, [], ◌∷◌}
use building_distributed_sys.Prelude.Int.{pos}
use building_distributed_sys.Sync.Queue.{new_queue}
use building_distributed_sys.Sync.Queue.Order.{
  QueueCall, pushed, popped, results, expected, results_lem,
}
use building_distributed_sys.Sync.Semaphore.{
  Semaphore, Turns, none_yet, then_turn, post_turn, new_semaphore, undisturbed, post_add,
}
use building_distributed_sys.Sync.Semaphore as Sem
use building_distributed_sys.Sync.Semaphore.Counting.{CountsCalls, Turns-CountsCalls}
use building_distributed_sys.Sync.Semaphore.Races.{
  IsCalm, undisturbed-IsCalm, one_post_two_waits, lost_signal,
}

abbrev calls : List (QueueCall ℕ)
calls = pushed 5 ∷ popped ∷ popped ∷ []

results_lem_example : results 0 calls (record { queue = new_queue 0 }) ≡ expected 0 calls []
results_lem_example = results_lem 0 calls

Turns-CountsCalls_example : CountsCalls (post_add new_semaphore)
Turns-CountsCalls_example =
    Turns-CountsCalls (post_add new_semaphore) (then_turn none_yet post_turn)

undisturbed-IsCalm_example : IsCalm (undisturbed (Sem.Call.wait ∷ Sem.Call.post ∷ []) new_semaphore)
undisturbed-IsCalm_example = undisturbed-IsCalm (Sem.Call.wait ∷ Sem.Call.post ∷ [])

-- Two units were posted and acquired before.
abbrev used : Semaphore
used = record {
  v = pos 0;
  posting = 0;
  arriving = 0;
  waiting = 0;
  posts = 2;
  waits = 2;
  acquired = 2;
}

one_post_two_waits_example :
    (t : Semaphore) × Turns used t
    × (t.posts ≡ 3)
    × (t.waits ≡ 4)
    × (t.acquired ≡ 4)
    × (t.waiting ≡ 0)
    × (t.arriving ≡ 0)
    × (t.posting ≡ 0)
one_post_two_waits_example = one_post_two_waits used refl refl refl refl

lost_signal_example :
    (t : Semaphore) × Turns used t
    × (t.posts ≡ 3)
    × (t.waits ≡ 3)
    × (t.acquired ≡ 2)
    × (t.v ≡ pos 0)
    × (t.waiting ≡ 1)
    × (t.posting ≡ 0)
lost_signal_example = lost_signal used refl refl refl refl
