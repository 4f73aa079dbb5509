-- ===== src/Sync/Semaphore.antt =====
-- cs426-fall24/lab0/semaphore.go: the counter and the channel, and the goroutines between the two.
pub mod Counting
pub mod Races
use building_distributed_sys.Prelude.{
  ℕ, zero, suc, ◌+◌, ◌≡◌, Bool, true, false, ◌==◌, List, [], ◌∷◌, if◌then◌else◌,
}
use building_distributed_sys.Prelude.Int.{ℤ, pos, negsuc, add_one, take_one}

abbrev pub is_negative : ℤ → Bool
is_negative (pos n) = false
is_negative (negsuc n) = true

-- The semaphore and its callers: `posting` are in `Post` between the counter and the channel,
-- `arriving` in `Wait` between the two, `waiting` in the `select` of `Wait`. `posts` and `waits` are the
-- calls so far, `acquired` the calls of `Wait` that returned nil. The source's counter is an int64;
-- here it has no bound, so the model stands for fewer than 2^63 calls.
pub record Semaphore : Type 0 where
  pub v : ℤ
  pub posting : ℕ
  pub arriving : ℕ
  pub waiting : ℕ
  pub posts : ℕ
  pub waits : ℕ
  pub acquired : ℕ

-- `NewSemaphore`
abbrev pub new_semaphore : Semaphore
new_semaphore = record {
  v = pos 0;
  posting = 0;
  arriving = 0;
  waiting = 0;
  posts = 0;
  waits = 0;
  acquired = 0;
}

-- `s.v.Add(1)` in `Post`
unfoldable pub post_add : Semaphore → Semaphore
post_add s = record s { v = add_one s.v; posting = s.posting + 1; posts = s.posts + 1 }

-- The `select` of `Post`: the signal goes to one that waits in the channel, or nowhere.
unfoldable pub post_signal : ℕ → Semaphore → Semaphore
post_signal posting s = elim s.waiting [
  | zero ↦ record s { posting = posting }
  | suc waiting ↦ record s { posting = posting; waiting = waiting; acquired = s.acquired + 1 }
]

-- `s.v.Add(-1) < 0` in `Wait`
unfoldable pub wait_add : Semaphore → Semaphore
wait_add s =
    if is_negative (take_one s.v)
    then record s { v = take_one s.v; arriving = s.arriving + 1; waits = s.waits + 1 }
    else record s { v = take_one s.v; acquired = s.acquired + 1; waits = s.waits + 1 }

-- A turn of one of the goroutines that share the semaphore.
pub data Turn (s : Semaphore) : Semaphore → Type 0 where
  post_turn : Turn s (post_add s)
  signal_turn : (n : ℕ) → s.posting ≡ suc n → Turn s (post_signal n s)
  wait_turn : Turn s (wait_add s)
  arrive_turn :
      (n : ℕ) → s.arriving ≡ suc n → Turn s (record s { arriving = n; waiting = s.waiting + 1 })
  cancel_turn : (n : ℕ) → s.waiting ≡ suc n → Turn s (record s { waiting = n })

pub data Turns (s : Semaphore) : Semaphore → Type 0 where
  none_yet : Turns s s
  then_turn : {t u : Semaphore} → Turns s t → Turn t u → Turns s u

-- `Post` and `Wait` where nothing comes between their two halves.
pub data Call : Type 0 where
  post wait : Call

unfoldable pub arrive : Semaphore → Semaphore
arrive s = elim s.arriving [ zero ↦ s | suc n ↦ record s { arriving = n; waiting = s.waiting + 1 } ]

unfoldable pub undisturbed : List Call → Semaphore → Semaphore
undisturbed [] s = s
undisturbed (post ∷ rest) s = undisturbed rest (post_signal s.posting (post_add s))
undisturbed (wait ∷ rest) s = undisturbed rest (arrive (wait_add s))
