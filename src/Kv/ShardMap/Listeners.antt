-- ===== src/Kv/ShardMap/Listeners.antt =====
-- The listeners of a `ShardMap`: who is notified, and that ids are not used twice.
use building_distributed_sys.Prelude.{
  ℕ, ◌+◌, ◌<◌, ◌≡◌, refl, ◌∙◌, none, some, List, [], ◌∷◌, map, ◌==◌, if◌then◌else◌, arith, ==_iff,
}
use building_distributed_sys.Prelude.Maps.{nat_eq, lookup, insert, remove, lookup-insert}
use building_distributed_sys.Kv.ShardMap.{
  ShardMapState, ShardMap, make_listener, update_state, close, notify,
}

-- The ids are those that the counter has passed.
abbrev pub IsBelow : ℕ → List (ℕ × ℕ) → Type 0
IsBelow counter [] = Unit
IsBelow counter ((id, n) ∷ rest) = (id < counter) × IsBelow counter rest

abbrev pub IsFresh : ShardMap → Type 0
IsFresh sm = IsBelow sm.update_channel_counter sm.update_channels

IsBelow-more : (c : ℕ) (m : List (ℕ × ℕ)) → IsBelow c m → IsBelow (c + 1) m
IsBelow-more c [] b = tt
IsBelow-more c ((id, n) ∷ rest) b = ground (arith, IsBelow-more c rest)

insert-IsBelow : (c id n : ℕ) (m : List (ℕ × ℕ)) → IsBelow c m → id < c → IsBelow c (insert id n m)
unfolding insert
insert-IsBelow c id n [] b lt = ground arith
insert-IsBelow c id n ((i, k) ∷ rest) b lt = ground (arith, insert-IsBelow c id n rest)

remove-IsBelow : (c id : ℕ) (m : List (ℕ × ℕ)) → IsBelow c m → IsBelow c (remove id m)
unfolding remove
remove-IsBelow c id [] b = tt
remove-IsBelow c id ((i, k) ∷ rest) b = ground (arith, remove-IsBelow c id rest)

map-IsBelow : (c : ℕ) (m : List (ℕ × ℕ)) → IsBelow c m → IsBelow c (map notify m)
map-IsBelow c [] b = tt
map-IsBelow c ((i, k) ∷ rest) b = (b.0, map-IsBelow c rest b.1)

remove-insert : (c : ℕ) (n : ℕ) (m : List (ℕ × ℕ)) → IsBelow c m → remove c (insert c n m) ≡ m
unfolding remove insert
remove-insert c n [] b = ground arith
remove-insert c n ((i, k) ∷ rest) b = ground (arith, ==_iff i c, remove-insert c n rest)

lookup-map :
    (k : ℕ) (m : List (ℕ × ℕ))
    → lookup k (map notify m) ≡ elim (lookup k m) [ none ↦ none | some n ↦ some (n + 1) ]
unfolding lookup
lookup-map k [] = refl
lookup-map k ((i, n) ∷ rest) = ground (arith, lookup-map k rest)

-- Making a listener, an update and closing a listener keep all ids below the counter.
pub listeners-IsFresh :
    (sm : ShardMap) (st : ShardMapState) (id : ℕ)
    → IsFresh sm
    → IsFresh (make_listener sm).0 × IsFresh (update_state st sm) × IsFresh (close id sm)
unfolding make_listener update_state close
listeners-IsFresh sm st id b = (
  insert-IsBelow (sm.update_channel_counter + 1) sm.update_channel_counter 0 sm.update_channels
      (IsBelow-more sm.update_channel_counter sm.update_channels b) (omega arith),
  map-IsBelow sm.update_channel_counter sm.update_channels b,
  remove-IsBelow sm.update_channel_counter id sm.update_channels b,
)

-- A new listener, once closed, leaves the other listeners and their notifications as they were.
-- While it is open, an update installs the new state and gives each listener, the new one
-- included, one more notification.
pub listener_lem :
    (sm : ShardMap) (st : ShardMapState)
    → IsFresh sm
    → ((close (make_listener sm).1 (make_listener sm).0).update_channels ≡ sm.update_channels)
      × ((update_state st (make_listener sm).0).state ≡ st)
      × ((k : ℕ)
          → lookup k (update_state st (make_listener sm).0).update_channels ≡ (
              if (make_listener sm).1 == k
              then some 1
              else elim (lookup k sm.update_channels) [ none ↦ none | some n ↦ some (n + 1) ]))
unfolding make_listener update_state close
listener_lem sm st b = (
  remove-insert sm.update_channel_counter 0 sm.update_channels b,
  refl,
  λ k.
      lookup-map k (insert sm.update_channel_counter 0 sm.update_channels)
      ∙ ground (arith, lookup-insert sm.update_channel_counter k 0 sm.update_channels),
)
