-- ===== src/Kv/Server/Shards.antt =====
-- The shards that `handleShardMapUpdate` adds and removes.
use building_distributed_sys.Prelude.{
  ℕ, ◌≡◌, refl, Bool, true, false, some, List, [], ◌∷◌, not, ◌&&◌, ◌||◌, arith, ==_iff,
  Option-cases, inl, inr,
}
use building_distributed_sys.Prelude.Maps.{
  string_eq, nat_eq, lookup, insert, remove, DistinctKeys, lookup-insert, lookup-remove, beq_refl,
}
use building_distributed_sys.Kv.ShardMap.{is_some}
use building_distributed_sys.Kv.Server.{
  ShardData, to_int32, marked, in_map, shards_to_add, shards_to_remove, add_empty, remove_shards,
}

abbrev pub holds : ℕ → List (ℕ × ShardData) → Bool
holds shard available = is_some (lookup shard available)

pub marked-shards_to_add :
    (shard : ℕ) (mapped : List ℕ) (available : List (ℕ × ShardData))
    → marked shard (shards_to_add mapped available)
      ≡ (in_map shard mapped && not (holds shard available))
unfolding marked shards_to_add in_map
marked-shards_to_add shard [] available = refl
marked-shards_to_add shard (s ∷ rest) available = ground (
  arith,
  marked-shards_to_add shard rest available,
  marked-shards_to_add (to_int32 s) rest available,
  ==_iff (to_int32 s) shard,
)

pub holds-add_empty :
    (shard : ℕ) (added : List ℕ) (available : List (ℕ × ShardData))
    → holds shard (add_empty added available) ≡ (marked shard added || holds shard available)
unfolding marked add_empty
holds-add_empty shard [] available = refl
holds-add_empty shard (s ∷ rest) available =
    ground (
      arith,
      holds-add_empty shard rest (insert s [] available),
      lookup-insert s shard [] available,
    )

pub marked-shards_to_remove :
    (shard : ℕ) (mapped : List ℕ) (available : List (ℕ × ShardData))
    → marked shard (shards_to_remove (λ i. mapped) available)
      ≡ (holds shard available && not (in_map shard mapped))
unfolding marked shards_to_remove lookup
marked-shards_to_remove shard mapped [] = refl
marked-shards_to_remove shard mapped ((s, contents) ∷ rest) =
    ground (arith, marked-shards_to_remove shard mapped rest, ==_iff s shard)

pub holds-remove_shards :
    (shard : ℕ) (removed : List ℕ) (available kept : List (ℕ × ShardData))
    → remove_shards removed available ≡ some kept
    → holds shard kept ≡ (holds shard available && not (marked shard removed))
unfolding marked remove_shards
holds-remove_shards shard [] available kept h = ground arith
holds-remove_shards shard (s ∷ rest) available kept h = elim (Option-cases (lookup s available)) [
  | inl gone ↦ ground arith
  | inr (contents, held) ↦ ground (
    arith,
    holds-remove_shards shard rest (remove s available) kept,
    lookup-remove s shard available,
  )
]

-- The shards are held, each once.
abbrev pub Removable : List ℕ → List (ℕ × ShardData) → Type 0
Removable [] available = Unit
Removable (s ∷ rest) available =
    (holds s available ≡ true) × (marked s rest ≡ false) × Removable rest available

Removable-remove :
    (s : ℕ) (removed : List ℕ) (available : List (ℕ × ShardData))
    → Removable removed available
    → marked s removed ≡ false
    → Removable removed (remove s available)
unfolding marked
Removable-remove s [] available r m = tt
Removable-remove s (x ∷ rest) available r m =
    ground (arith, lookup-remove s x available, Removable-remove s rest available)

pub remove_shards-Removable :
    (removed : List ℕ) (available : List (ℕ × ShardData))
    → Removable removed available
    → (kept : List (ℕ × ShardData)) × (remove_shards removed available ≡ some kept)
unfolding remove_shards
remove_shards-Removable [] available r = (available, refl)
remove_shards-Removable (s ∷ rest) available r =
    let (kept, h) =
      remove_shards-Removable rest (remove s available)
        (Removable-remove s rest available r.2 r.1) in
    (
      kept,
      elim (Option-cases (lookup s available)) [
        | inl gone ↦ ground arith
        | inr (contents, held) ↦ ground arith
      ],
    )

Removable-more :
    (s : ℕ) (contents : ShardData) (removed : List ℕ) (available : List (ℕ × ShardData))
    → Removable removed available
    → Removable removed ((s, contents) ∷ available)
unfolding lookup
Removable-more s contents [] available r = tt
Removable-more s contents (x ∷ rest) available r =
    ground (arith, Removable-more s contents rest available)

pub shards_to_remove-Removable :
    (mapped : List ℕ) (available : List (ℕ × ShardData))
    → DistinctKeys available
    → Removable (shards_to_remove (λ i. mapped) available) available
unfolding shards_to_remove lookup
shards_to_remove-Removable mapped [] d = tt
shards_to_remove-Removable mapped ((s, contents) ∷ rest) d = ground (
  arith,
  beq_refl s,
  ==_iff s s,
  marked-shards_to_remove s mapped rest,
  Removable-more s contents (shards_to_remove (λ i. mapped) rest) rest,
  shards_to_remove-Removable mapped rest,
)

pub Removable-same :
    (removed : List ℕ) (a b : List (ℕ × ShardData))
    → ((shard : ℕ) → holds shard a ≡ true → holds shard b ≡ true)
    → Removable removed a
    → Removable removed b
Removable-same [] a b same r = tt
Removable-same (s ∷ rest) a b same r = (same s r.0, r.1, Removable-same rest a b same r.2)

-- A shard that is held stays held with other contents, and no other shard comes or goes.
pub holds-insert :
    (sh shard : ℕ) (old new : ShardData) (available : List (ℕ × ShardData))
    → lookup sh available ≡ some old
    → holds shard (insert sh new available) ≡ holds shard available
holds-insert sh shard old new available h =
    ground (arith, ==_iff sh shard, lookup-insert sh shard new available)
