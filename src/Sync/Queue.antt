-- ===== src/Sync/Queue.antt =====
-- cs426-fall24/lab0/queue.go: the unbounded queue, alone and behind a second lock.
pub mod Order
use building_distributed_sys.Prelude.{
  ℕ, suc, ◌≡◌, refl, ◌∙◌, ap, Bool, true, false, List, [], ◌∷◌, ◌++◌, length, ◌==◌, if◌then◌else◌,
  arith,
}

pub record Queue (T : Type 0) : Type 0 where
  pub elements : List T

-- A `ConcurrentQueue` is a queue; its lock makes each operation one step.
pub record ConcurrentQueue (T : Type 0) : Type 0 where
  pub queue : Queue T

-- `zero_value` is Go's zero value of `T`.
module _ {T : Type 0} (zero_value : T) where
  -- `NewQueue`
  unfoldable pub new_queue : Queue T
  new_queue = record { elements = [] }

  unfoldable pub push : T → Queue T → Queue T
  push item q = record { elements = q.elements ++ item ∷ [] }

  unfoldable pub pop : Queue T → Queue T × T × Bool
  pop q = elim q.elements [
    | [] ↦ (q, zero_value, false)
    | item ∷ rest ↦ (record { elements = rest }, item, true)
  ]

  -- `ConcurrentQueue.Push`
  unfoldable pub push_concurrent : T → ConcurrentQueue T → ConcurrentQueue T
  push_concurrent item q = record { queue = push item q.queue }

  -- `ConcurrentQueue.Pop`, with its own test of the length
  unfoldable pub pop_concurrent : ConcurrentQueue T → ConcurrentQueue T × T × Bool
  pop_concurrent q =
      if length q.queue.elements == 0
      then (q, zero_value, false)
      else (let (rest, item, ok) = pop q.queue in (record { queue = rest }, item, ok))
