-- ===== src/Kv/Server/Update.antt =====
-- `handleShardMapUpdate` from both ends: the shards that are held afterwards, and what a `Set`
-- that comes in during the wait is worth.
use building_distributed_sys.Prelude.{
  ℕ, ◌≡◌, refl, ◌∙◌, String, true, Option, some, List, [], ◌∷◌, ◌||◌, arith, Option-cases, inl, inr,
  All,
}
use building_distributed_sys.Prelude.Int.{ℤ}
use building_distributed_sys.Prelude.Maps.{string_eq, nat_eq, lookup, insert, remove, DistinctKeys}
use building_distributed_sys.Kv.ShardMap.{ShardMapState, get_shard_for_key, shards_for_node}
use building_distributed_sys.Kv.Server.{
  Code, CacheItem, ShardData, KvServer, GetShardValue, to_int32, in_map, shards_to_add,
  shards_to_remove, begin_update, finish_update, copy_value, copy_values, set_value, delete,
}
use building_distributed_sys.Kv.Server.Shards.{
  holds, marked-shards_to_add, holds-add_empty, marked-shards_to_remove, holds-remove_shards,
  remove_shards-Removable, shards_to_remove-Removable, Removable-same, holds-insert,
}

-- The shards that the map gives the server.
abbrev pub mapped_to : ShardMapState → KvServer → List ℕ
mapped_to st s = shards_for_node s.node_name st

holds-begin_update :
    (st : ShardMapState) (s : KvServer) (shard : ℕ)
    → holds shard (begin_update (λ i. st) s).0.available_shards
      ≡ (in_map shard (mapped_to st s) || holds shard s.available_shards)
unfolding begin_update
holds-begin_update st s shard = ground (
  arith,
  holds-add_empty shard (shards_to_add (mapped_to st s) s.available_shards) s.available_shards,
  marked-shards_to_add shard (mapped_to st s) s.available_shards,
)

module _ (sum32 : String → ℕ) (num_shards : ℕ) where
  -- The writes that the server answers while the update waits for its copies.
  pub data During : KvServer → KvServer → Type 0 where
    done : (s : KvServer) → During s s
    set_during :
        (s t u : KvServer) (now : ℕ) (key value : String) (ttl : ℤ) (e : Option Code)
        → set_value sum32 num_shards now key value ttl s ≡ some (t, e)
        → During t u
        → During s u
    delete_during :
        (s t u : KvServer) (key : String) (e : Option Code)
        → delete sum32 num_shards key s ≡ some (t, e)
        → During t u
        → During s u

  holds-set_value :
      (now shard : ℕ) (key value : String) (ttl : ℤ) (s t : KvServer) (e : Option Code)
      → set_value sum32 num_shards now key value ttl s ≡ some (t, e)
      → holds shard t.available_shards ≡ holds shard s.available_shards
  unfolding set_value
  holds-set_value now shard key value ttl s t e h =
      elim (Option-cases (get_shard_for_key sum32 key num_shards)) [
        | inl panics ↦ ground arith
        | inr (sh, hash) ↦ elim (Option-cases (lookup (to_int32 sh) s.available_shards)) [
          | inl gone ↦ ground arith
          | inr (contents, held) ↦ ground (
            arith,
            holds-insert (to_int32 sh) shard contents
                (insert key (record { value = value; ttl = ttl; time_elapsed = now }) contents)
                s.available_shards,
          )
        ]
      ]

  holds-delete :
      (shard : ℕ) (key : String) (s t : KvServer) (e : Option Code)
      → delete sum32 num_shards key s ≡ some (t, e)
      → holds shard t.available_shards ≡ holds shard s.available_shards
  unfolding delete
  holds-delete shard key s t e h = elim (Option-cases (get_shard_for_key sum32 key num_shards)) [
    | inl panics ↦ ground arith
    | inr (sh, hash) ↦ elim (Option-cases (lookup (to_int32 sh) s.available_shards)) [
      | inl gone ↦ ground arith
      | inr (contents, held) ↦ ground (
        arith,
        holds-insert (to_int32 sh) shard contents (remove key contents) s.available_shards,
      )
    ]
  ]

  holds-During :
      (shard : ℕ) (s u : KvServer)
      → During s u
      → holds shard u.available_shards ≡ holds shard s.available_shards
  holds-During shard s u (done s') = refl
  holds-During shard s u (set_during s' t u' now key value ttl e h w) =
      holds-During shard t u w ∙ holds-set_value now shard key value ttl s t e h
  holds-During shard s u (delete_during s' t u' key e h w) =
      holds-During shard t u w ∙ holds-delete shard key s t e h

  -- The shard of the copied value is one of the map's for this server.
  abbrev pub IsMapped : List ℕ → GetShardValue → Type 0
  IsMapped mapped v =
      (shard : ℕ) × (get_shard_for_key sum32 v.key num_shards ≡ some shard)
      × (in_map (to_int32 shard) mapped ≡ true)

  copy_values-holds :
      (now : ℕ) (mapped : List ℕ) (copies : List GetShardValue) (available : List (ℕ × ShardData))
      → All (IsMapped mapped) copies
      → ((shard : ℕ) → in_map shard mapped ≡ true → holds shard available ≡ true)
      → (filled : List (ℕ × ShardData)) × (copy_values sum32 num_shards now copies available
          ≡ some filled)
        × ((shard : ℕ) → holds shard filled ≡ holds shard available)
  unfolding copy_values copy_value
  copy_values-holds now mapped [] available m has = (available, refl, λ shard. refl)
  copy_values-holds now mapped (v ∷ vs) available ((sh, hash, here), m) has =
      elim (Option-cases (lookup (to_int32 sh) available)) [
        | inl gone ↦ ground (arith, has (to_int32 sh) here)
        | inr (contents, held) ↦
            let item : CacheItem = record {
              value = v.value;
              ttl = v.ttl_ms_remaining;
              time_elapsed = now;
            } in
            let next : List (ℕ × ShardData) =
              insert (to_int32 sh) (insert v.key item contents) available in
            let kept = λ (shard : ℕ).
              holds-insert (to_int32 sh) shard contents (insert v.key item contents) available
                held in
            let (filled, h, same) =
              copy_values-holds now mapped vs next m
                (λ shard given. kept shard ∙ has shard given) in
            (filled, ground arith, λ shard. same shard ∙ kept shard)
      ]

  -- A shard map update of a server that hosts each shard once, while the shard map stays the same,
  -- with any writes answered during the wait and with copies of keys whose shards the map gives
  -- the server, returns without a panic. The server then holds exactly the shards that the map
  -- gives it.
  pub update_lem :
      (now : ℕ) (st : ShardMapState) (copies : List GetShardValue) (s u : KvServer)
      → DistinctKeys s.available_shards
      → During (begin_update (λ i. st) s).0 u
      → All (IsMapped (mapped_to st s)) copies
      → (t : KvServer) × (finish_update sum32 num_shards now copies (begin_update (λ i. st) s).2 u
          ≡ some t)
        × ((shard : ℕ) → holds shard t.available_shards ≡ in_map shard (mapped_to st s))
  unfolding finish_update begin_update
  update_lem now st copies s u d during m =
      let removed = shards_to_remove (λ i. mapped_to st s) s.available_shards in
      let held = λ (shard : ℕ).
        holds-During shard (begin_update (λ i. st) s).0 u during ∙ holds-begin_update st s shard in
      let (filled, copied, same) =
        copy_values-holds now (mapped_to st s) copies u.available_shards m
          (λ shard given. held shard ∙ ground arith) in
      let removable =
        Removable-same removed s.available_shards filled
          (λ shard has. same shard ∙ held shard ∙ ground arith)
          (shards_to_remove-Removable (mapped_to st s) s.available_shards d) in
      let (kept, dropped) = remove_shards-Removable removed filled removable in
      (
        record u { available_shards = kept },
        ground arith,
        λ shard. ground (
          arith,
          holds-remove_shards shard removed filled kept dropped,
          same shard,
          held shard,
          marked-shards_to_remove shard (mapped_to st s) s.available_shards,
        ),
      )
