-- ===== src/Sync/Semaphore/Races.antt =====
-- `Post` and `Wait` as the goroutines see them: undisturbed, and with another call in between.
use building_distributed_sys.Prelude.{◌+◌, ◌≡◌, refl, List, [], ◌∷◌, arith}
use building_distributed_sys.Prelude.Int.{pos, pos_part, neg_part}
use building_distributed_sys.Sync.Semaphore.{
  Semaphore, new_semaphore, post_add, post_signal, wait_add, arrive, post_turn, signal_turn,
  wait_turn, arrive_turn, Turns, none_yet, then_turn, Call, post, wait, undisturbed,
}

-- Nobody is between the counter and the channel; each unit posted was acquired or is in the
-- counter, and a negative counter is the number of those that wait.
pub record IsCalm (s : Semaphore) : Type 0 where
  nobody_posting : s.posting ≡ 0
  nobody_arriving : s.arriving ≡ 0
  units : s.acquired + pos_part s.v ≡ s.posts
  queue : s.waiting ≡ neg_part s.v

post-IsCalm : (s : Semaphore) → IsCalm s → IsCalm (post_signal s.posting (post_add s))
unfolding post_add post_signal
post-IsCalm s c = ground arith

wait-IsCalm : (s : Semaphore) → IsCalm s → IsCalm (arrive (wait_add s))
unfolding wait_add arrive
wait-IsCalm s c = ground arith

calls-IsCalm : (calls : List Call) (s : Semaphore) → IsCalm s → IsCalm (undisturbed calls s)
unfolding undisturbed
calls-IsCalm [] s c = c
calls-IsCalm (post ∷ rest) s c =
    calls-IsCalm rest (post_signal s.posting (post_add s)) (post-IsCalm s c)
calls-IsCalm (wait ∷ rest) s c = calls-IsCalm rest (arrive (wait_add s)) (wait-IsCalm s c)

-- As long as no call runs between the two halves of another and no context is cancelled, the
-- semaphore is one: after any calls, each unit that was posted was acquired once or is left in the
-- counter, and a `Wait` blocks only if no unit is left.
pub undisturbed-IsCalm : (calls : List Call) → IsCalm (undisturbed calls new_semaphore)
undisturbed-IsCalm calls =
    calls-IsCalm calls new_semaphore
      (record { nobody_posting = refl; nobody_arriving = refl; units = refl; queue = refl })

-- From every state with an empty counter and nobody inside, turns of one `Post` and two `Wait`s lead
-- to a state where nobody is inside and both `Wait`s have returned nil: one took the unit from the
-- counter and the other the signal that `Post` sent after it.
pub one_post_two_waits :
    (s : Semaphore)
    → s.v ≡ pos 0
    → s.waiting ≡ 0
    → s.arriving ≡ 0
    → s.posting ≡ 0
    → (t : Semaphore) × Turns s t
      × (t.posts ≡ s.posts + 1)
      × (t.waits ≡ s.waits + 2)
      × (t.acquired ≡ s.acquired + 2)
      × (t.waiting ≡ 0)
      × (t.arriving ≡ 0)
      × (t.posting ≡ 0)
unfolding post_add post_signal wait_add
one_post_two_waits s v q a p =
    let s3 = wait_add (wait_add (post_add s)) in
    let s4 = record s3 { arriving = 0; waiting = s3.waiting + 1 } in
    (
      post_signal 0 s4,
      then_turn
          (then_turn (then_turn (then_turn (then_turn none_yet post_turn) wait_turn) wait_turn)
            (arrive_turn 0 ground arith))
          (signal_turn 0 ground arith),
      ground arith,
      ground arith,
      ground arith,
      ground arith,
      ground arith,
      ground arith,
    )

-- From every state with an empty counter and nobody inside, turns of one `Wait` and one `Post` lead
-- to a state where nobody posts, the `Wait` has not returned and waits in the channel, and the
-- counter has no unit for it: the signal was sent before the `Wait` listened, and was lost.
pub lost_signal :
    (s : Semaphore)
    → s.v ≡ pos 0
    → s.waiting ≡ 0
    → s.arriving ≡ 0
    → s.posting ≡ 0
    → (t : Semaphore) × Turns s t
      × (t.posts ≡ s.posts + 1)
      × (t.waits ≡ s.waits + 1)
      × (t.acquired ≡ s.acquired)
      × (t.v ≡ pos 0)
      × (t.waiting ≡ 1)
      × (t.posting ≡ 0)
unfolding post_add post_signal wait_add
lost_signal s v q a p =
    let s3 = post_signal 0 (post_add (wait_add s)) in
    (
      record s3 { arriving = 0; waiting = s3.waiting + 1 },
      then_turn
          (then_turn (then_turn (then_turn none_yet wait_turn) post_turn)
            (signal_turn 0 ground arith))
          (arrive_turn 0 ground arith),
      ground arith,
      ground arith,
      ground arith,
      ground arith,
      ground arith,
      ground arith,
    )
