-- ===== src/Sync/Queue/Order.antt =====
-- The queue gives its items back in the order in which they came.
use building_distributed_sys.Prelude.{◌≡◌, refl, ap, Bool, true, false, List, [], ◌∷◌, ◌++◌, arith}
use building_distributed_sys.Sync.Queue.{
  ConcurrentQueue, new_queue, push, pop, push_concurrent, pop_concurrent,
}

-- Calls of a queue: a push of an item, or a pop.
pub data QueueCall (T : Type 0) : Type 0 where
  pushed : T → QueueCall T
  popped : QueueCall T

module _ {T : Type 0} (zero_value : T) where
  -- What the pops of a sequence of calls return.
  unfoldable pub results : List (QueueCall T) → ConcurrentQueue T → List (T × Bool)
  results [] q = []
  results (pushed item ∷ rest) q = results rest (push_concurrent zero_value item q)
  results (popped ∷ rest) q =
      let (next, item, ok) = pop_concurrent zero_value q in (item, ok) ∷ results rest next

  -- What a list would return.
  unfoldable pub expected : List (QueueCall T) → List T → List (T × Bool)
  expected [] items = []
  expected (pushed item ∷ rest) items = expected rest (items ++ item ∷ [])
  expected (popped ∷ rest) [] = (zero_value, false) ∷ expected rest []
  expected (popped ∷ rest) (item ∷ items) = (item, true) ∷ expected rest items

  results-from :
      (calls : List (QueueCall T)) (items : List T)
      → results calls (record { queue = record { elements = items } }) ≡ expected calls items
  unfolding results expected push_concurrent pop_concurrent push pop
  results-from [] items = refl
  results-from (pushed item ∷ rest) items = results-from rest (items ++ item ∷ [])
  results-from (popped ∷ rest) [] = ap (◌∷◌ (zero_value, false)) (results-from rest [])
  results-from (popped ∷ rest) (item ∷ items) = ground (arith, results-from rest items)

  -- Every sequence of calls of a new queue returns what a list would: each pop takes the oldest
  -- item that is left, or says that there is none.
  pub results_lem :
      (calls : List (QueueCall T))
      → results calls (record { queue = new_queue zero_value }) ≡ expected calls []
  unfolding new_queue
  results_lem calls = results-from calls []
