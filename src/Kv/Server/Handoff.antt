-- ===== src/Kv/Server/Handoff.antt =====
-- How a shard goes from one server to another: `GetShardContents` there, the copies here.
use building_distributed_sys.Prelude.{
  ℕ, ◌+◌, ◌-◌, ◌*◌, ◌/◌, ◌≤◌, ◌≡◌, ◌↔◌, refl, ◌∙◌, sym, ap, String, false, none, some, List, [],
  ◌∷◌, if◌then◌else◌, arith, Bool-cases, Option-cases, inl, inr, All,
}
use building_distributed_sys.Prelude.Int.{ℤ, pos, negsuc, leb_ℤ}
use building_distributed_sys.Prelude.Maps.{
  string_eq, nat_eq, lookup, insert, DistinctKeys, lookup-insert, insert-insert, insert-same,
  beq_refl,
}
use building_distributed_sys.Kv.ShardMap.{same_name, get_shard_for_key}
use building_distributed_sys.Kv.Server.{
  Code, CacheItem, ShardData, KvServer, GetShardValue, to_int32, elapsed_ms, expired, read,
  live_values, remaining, get_shard_contents, get, miss, not_found, copy_value, copy_values,
}

abbrev pub stored : ℕ → GetShardValue → CacheItem
stored t v = record { value = v.value; ttl = v.ttl_ms_remaining; time_elapsed = t }

-- The copies put into one shard.
unfoldable pub fill : ℕ → List GetShardValue → ShardData → ShardData
fill t [] contents = contents
fill t (v ∷ vs) contents = fill t vs (insert v.key (stored t v) contents)

lookup-fill :
    (now t : ℕ) (key : String) (src contents : ShardData)
    → DistinctKeys src
    → lookup key (fill t (live_values now src) contents) ≡ elim (lookup key src) [
      | none ↦ lookup key contents
      | some item ↦
          if expired now item
          then lookup key contents
          else some (record {
            value = item.value;
            ttl = remaining item.ttl (elapsed_ms now item);
            time_elapsed = t;
          })
    ]
unfolding fill live_values lookup
lookup-fill now t key [] contents d = refl
lookup-fill now t key ((k, item) ∷ rest) contents d = elim (Bool-cases (expired now item)) [
  | inl over ↦ ground (arith, string_eq.beq_iff k key, lookup-fill now t key rest contents d.1)
  | inr live ↦ ground (
    arith,
    string_eq.beq_iff k key,
    lookup-fill now t key rest
        (insert k
          (record {
            value = item.value;
            ttl = remaining item.ttl (elapsed_ms now item);
            time_elapsed = t;
          })
          contents)
        d.1,
    lookup-insert k key
        (record {
          value = item.value;
          ttl = remaining item.ttl (elapsed_ms now item);
          time_elapsed = t;
        })
        contents,
  )
]

-- Every value of the shard was written by then.
abbrev pub WrittenBy : ℕ → String × CacheItem → Type 0
WrittenBy now (key, item) = item.time_elapsed ≤ now

looked_up-WrittenBy :
    (now : ℕ) (key : String) (item : CacheItem) (src : ShardData)
    → All (WrittenBy now) src
    → lookup key src ≡ some item
    → item.time_elapsed ≤ now
unfolding lookup
looked_up-WrittenBy now key item [] w h = ground arith
looked_up-WrittenBy now key item ((k, i) ∷ rest) w h =
    ground (arith, looked_up-WrittenBy now key item rest)

same_age :
    (now t ms : ℕ) (value : String) (ttl : ℤ) (written : ℕ)
    → written ≤ now
    → leb_ℤ ttl (pos ((now - written) / 1000000)) ≡ false
    → leb_ℤ (remaining ttl ((now - written) / 1000000)) (pos ((t + ms * 1000000 - t) / 1000000))
      ≡ leb_ℤ ttl (pos ((now + ms * 1000000 - written) / 1000000))
same_age now t ms value (pos n) written le live = ground arith
same_age now t ms value (negsuc n) written le live = ground arith

read-fill :
    (now t ms : ℕ) (key : String) (src : ShardData)
    → DistinctKeys src
    → All (WrittenBy now) src
    → read (t + ms * 1000000) key (fill t (live_values now src) [])
      ≡ read (now + ms * 1000000) key src
unfolding read expired lookup
read-fill now t ms key src d w = elim (Option-cases (lookup key src)) [
  | inl gone ↦ ground (arith, lookup-fill now t key src [] d)
  | inr (item, found) ↦ ground (
    arith,
    lookup-fill now t key src [] d,
    looked_up-WrittenBy now key item src w found,
    same_age now t ms item.value item.ttl item.time_elapsed,
  )
]

module _ (sum32 : String → ℕ) (num_shards : ℕ) where
  -- The copied value belongs to the shard.
  abbrev pub BelongsTo : ℕ → GetShardValue → Type 0
  BelongsTo shard v = get_shard_for_key sum32 v.key num_shards ≡ some shard

  copy_values-fill :
      (t shard : ℕ) (vs : List GetShardValue) (contents : ShardData)
      (available : List (ℕ × ShardData))
      → All (BelongsTo shard) vs
      → lookup (to_int32 shard) available ≡ some contents
      → copy_values sum32 num_shards t vs available
        ≡ some (insert (to_int32 shard) (fill t vs contents) available)
  unfolding copy_values copy_value fill
  copy_values-fill t shard [] contents available b h =
      ap some (sym (insert-same (to_int32 shard) contents available h))
  copy_values-fill t shard (v ∷ vs) contents available b h = ground (
    arith,
    copy_values-fill t shard vs (insert v.key (stored t v) contents)
        (insert (to_int32 shard) (insert v.key (stored t v) contents) available) b.1,
    lookup-insert (to_int32 shard) (to_int32 shard) (insert v.key (stored t v) contents) available,
    beq_refl (to_int32 shard),
    insert-insert (to_int32 shard) (fill t vs (insert v.key (stored t v) contents))
        (insert v.key (stored t v) contents) available,
  )

  -- The keys of a shard's contents belong to it.
  abbrev pub KeyIn : ℕ → String × CacheItem → Type 0
  KeyIn shard (key, item) = get_shard_for_key sum32 key num_shards ≡ some shard

  live_values-BelongsTo :
      (now shard : ℕ) (src : ShardData)
      → All (KeyIn shard) src
      → All (BelongsTo shard) (live_values now src)
  unfolding live_values
  live_values-BelongsTo now shard [] k = tt
  live_values-BelongsTo now shard ((key, item) ∷ rest) k =
      ground (arith, live_values-BelongsTo now shard rest)

  -- A server that hosts the shard answers `GetShardContents`, and another server that holds the
  -- shard empty takes the answer over without a panic. Then each key reads there, any number of
  -- milliseconds after the copy, as it reads at the first server that long after its answer: the
  -- same values are found, and each expires at its time.
  pub handoff_lem :
      (now t shard : ℕ) (source : KvServer) (contents : ShardData)
      (available : List (ℕ × ShardData))
      → lookup (to_int32 shard) source.available_shards ≡ some contents
      → DistinctKeys contents
      → All (WrittenBy now) contents
      → All (KeyIn shard) contents
      → lookup (to_int32 shard) available ≡ some []
      → (values : List GetShardValue) × (taken : List (ℕ × ShardData)) × (copy : ShardData)
        × (get_shard_contents now shard source ≡ some (values, none))
        × (copy_values sum32 num_shards t values available ≡ some taken)
        × (lookup (to_int32 shard) taken ≡ some copy)
        × ((key : String) (ms : ℕ)
            → read (t + ms * 1000000) key copy ≡ read (now + ms * 1000000) key contents)
  unfolding get_shard_contents
  handoff_lem now t shard source contents available held d w k empty = (
    live_values now contents,
    insert (to_int32 shard) (fill t (live_values now contents) []) available,
    fill t (live_values now contents) [],
    ground arith,
    copy_values-fill t shard (live_values now contents) [] available
        (live_values-BelongsTo now shard contents k) empty,
    lookup-insert (to_int32 shard) (to_int32 shard) (fill t (live_values now contents) []) available
        ∙ ground (arith, beq_refl (to_int32 shard)),
    λ key ms. read-fill now t ms key contents d w,
  )

  -- `GetShardContents` panics for exactly the shards for whose keys `Get` answers `NotFound`, and
  -- never answers with an error itself: its own `NotFound` cannot be reached.
  pub get_shard_contents_lem :
      (now shard : ℕ) (key : String) (s : KvServer)
      → same_name key "" ≡ false
      → get_shard_for_key sum32 key num_shards ≡ some shard
      → ((get_shard_contents now shard s ≡ none)
          ↔ (get sum32 num_shards now key s ≡ some (miss, some not_found)))
        × ¬ (
            (values : List GetShardValue) × (e : Code) × (get_shard_contents now shard s
              ≡ some (values, some e)))
  unfolding get_shard_contents get
  get_shard_contents_lem now shard key s named hash =
      elim (Option-cases (lookup (to_int32 shard) s.available_shards)) [
        | inl gone ↦ ((λ h. ground arith, λ h. ground arith), λ (values, e, h). ground arith)
        | inr (contents, held) ↦
            ((λ h. ground arith, λ h. ground arith), λ (values, e, h). ground arith)
      ]
