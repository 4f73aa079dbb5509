-- ===== src/Kv/Server/Overwrite.antt =====
-- `handleShardMapUpdate` lets its lock go while it waits for the copies: a `Set` of that time
-- against the copies that come later.
use building_distributed_sys.Prelude.{ℕ, ◌-◌, ◌≡◌, refl, ◌∙◌, String, none, some, [], ◌∷◌, arith}
use building_distributed_sys.Prelude.Int.{ℤ}
use building_distributed_sys.Prelude.Maps.{string_eq, nat_eq, insert, lookup-insert, beq_refl}
use building_distributed_sys.Kv.Server.{
  CacheItem, ShardData, KvServer, to_int32, remove_shards, finish_update, copy_value, copy_values,
  get, set_value,
}
use building_distributed_sys.Kv.Server.Access.{IsHosted, fresh, get_filled, read-insert}

module _ (sum32 : String → ℕ) (num_shards : ℕ) where
  -- A `Set` that a server answers without an error while a shard map update waits is lost if a
  -- copy of its key arrives: after the update, `Get` finds the copied value, not the newer one.
  pub copy_overwrites_set :
      (now t : ℕ) (key value old : String) (ttl old_ttl : ℤ) (contents : ShardData) (s : KvServer)
      → IsHosted sum32 num_shards key contents s
      → (u v : KvServer) × (set_value sum32 num_shards now key value ttl s ≡ some (u, none))
        × (finish_update sum32 num_shards t
              (record { key = key; value = old; ttl_ms_remaining = old_ttl } ∷ [])
              []
              u
            ≡ some v)
        × ((later : ℕ)
            → get sum32 num_shards later key v ≡ some (fresh old old_ttl (later - t), none))
  unfolding set_value finish_update copy_values copy_value remove_shards
  copy_overwrites_set now t key value old ttl old_ttl contents s (shard, named, hash, held) =
      let newer : ShardData =
        insert key (record { value = value; ttl = ttl; time_elapsed = now }) contents in
      let item : CacheItem = record { value = old; ttl = old_ttl; time_elapsed = t } in
      let u : KvServer = record s {
        available_shards = insert (to_int32 shard) newer s.available_shards;
      } in
      let here =
        lookup-insert (to_int32 shard) (to_int32 shard) newer s.available_shards
        ∙ ground (arith, beq_refl (to_int32 shard)) in
      (
        u,
        record u {
          available_shards = insert (to_int32 shard) (insert key item newer) u.available_shards;
        },
        ground arith,
        ground arith,
        λ later.
            get_filled sum32 num_shards later key key newer (insert key item newer) u
              (shard, named, hash, here) refl
            ∙ ground (arith, read-insert sum32 num_shards later key key item newer, beq_refl key),
      )
