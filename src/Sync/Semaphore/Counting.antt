-- ===== src/Sync/Semaphore/Counting.antt =====
-- What the counter of a semaphore says of its callers.
use building_distributed_sys.Prelude.{zero, suc, ◌+◌, ◌≡◌, refl, arith}
use building_distributed_sys.Prelude.Int.{ℤ, pos, negsuc, pos_part, neg_part}
use building_distributed_sys.Sync.Semaphore.{
  Semaphore, new_semaphore, post_add, post_signal, wait_add, Turn, post_turn, signal_turn,
  wait_turn, arrive_turn, cancel_turn, Turns, none_yet, then_turn,
}
use building_distributed_sys.Prelude.Int.{add_one, take_one}

-- The counter is the calls of `Post` less the calls of `Wait`.
abbrev pub CountsCalls : Semaphore → Type 0
CountsCalls s = pos_part s.v + s.waits ≡ s.posts + neg_part s.v

add_one-parts : (v : ℤ) → pos_part (add_one v) + neg_part v ≡ pos_part v + neg_part (add_one v) + 1
add_one-parts (pos n) = omega arith
add_one-parts (negsuc zero) = omega arith
add_one-parts (negsuc (suc n)) = omega arith

take_one-parts :
    (v : ℤ) → pos_part (take_one v) + neg_part v + 1 ≡ pos_part v + neg_part (take_one v)
take_one-parts (pos zero) = omega arith
take_one-parts (pos (suc n)) = omega arith
take_one-parts (negsuc n) = omega arith

Turn-CountsCalls : (s t : Semaphore) → Turn s t → CountsCalls s → CountsCalls t
unfolding post_add post_signal wait_add
Turn-CountsCalls s t post_turn c = omega (arith, add_one-parts s.v)
Turn-CountsCalls s t (signal_turn n h) c = ground arith
Turn-CountsCalls s t wait_turn c = ground (arith, take_one-parts s.v)
Turn-CountsCalls s t (arrive_turn n h) c = c
Turn-CountsCalls s t (cancel_turn n h) c = c

-- Whatever the interleaving of `Post`, `Wait` and cancelled contexts, the counter is the number of
-- calls of `Post` less that of `Wait`: a `Wait` that gave up is never taken back.
pub Turns-CountsCalls : (s : Semaphore) → Turns new_semaphore s → CountsCalls s
Turns-CountsCalls s none_yet = refl
Turns-CountsCalls s (then_turn {t} steps step) =
    Turn-CountsCalls t s step (Turns-CountsCalls t steps)
