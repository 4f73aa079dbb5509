-- ===== src/Kv/Server/Access.antt =====
-- `Get`, `Set` and `Delete` together: what a write leaves for the reads after it, and their errors.
use building_distributed_sys.Prelude.{
  ℕ, ◌-◌, ◌/◌, ◌≡◌, ◌⊎◌, ◌∙◌, String, true, false, Option, none, some, if◌then◌else◌, arith, ==_iff,
  Bool-cases, Option-cases, inl, inr,
}
use building_distributed_sys.Prelude.Int.{ℤ, pos, leb_ℤ}
use building_distributed_sys.Prelude.Maps.{
  string_eq, nat_eq, lookup, insert, remove, lookup-insert, lookup-remove, beq_refl,
}
use building_distributed_sys.Kv.ShardMap.{same_name, get_shard_for_key}
use building_distributed_sys.Kv.Server.{
  Code, CacheItem, ShardData, KvServer, GetResponse, to_int32, expired, miss, read, get, set_value,
  delete,
}

-- What is found of a value: nothing from the moment that its lifetime is over.
abbrev pub fresh : String → ℤ → ℕ → GetResponse
fresh value ttl age =
    if leb_ℤ ttl (pos (age / 1000000)) then miss else record { value = value; was_found = true }

-- The error with which a handler answers, if it answers.
abbrev pub error_of {ℓ} : {A : Type ℓ} → Option (A × Option Code) → Option (Option Code)
error_of none = none
error_of (some (a, e)) = some e

module _ (sum32 : String → ℕ) (num_shards : ℕ) where
  -- The key is not empty, and the server hosts its shard with these contents.
  abbrev pub IsHosted : String → ShardData → KvServer → Type 0
  IsHosted key contents s =
      (shard : ℕ) × (same_name key "" ≡ false)
      × (get_shard_for_key sum32 key num_shards ≡ some shard)
      × (lookup (to_int32 shard) s.available_shards ≡ some contents)

  pub get_hosted :
      (now : ℕ) (key : String) (contents : ShardData) (s : KvServer)
      → IsHosted key contents s
      → get sum32 num_shards now key s ≡ some (read now key contents, none)
  unfolding get
  get_hosted now key contents s (shard, named, hash, held) = ground arith

  pub read-insert :
      (now : ℕ) (key k : String) (item : CacheItem) (contents : ShardData)
      → read now k (insert key item contents) ≡ (
          if same_name key k
          then fresh item.value item.ttl (now - item.time_elapsed)
          else read now k contents)
  unfolding read expired
  read-insert now key k item contents = ground (arith, lookup-insert key k item contents)

  read-remove :
      (now : ℕ) (key k : String) (contents : ShardData)
      → read now k (remove key contents) ≡ (if same_name key k then miss else read now k contents)
  unfolding read
  read-remove now key k contents = ground (arith, lookup-remove key k contents)

  -- A `Get` after another content was given to one shard.
  get_replaced :
      (now sh : ℕ) (k : String) (old new : ShardData) (s : KvServer)
      → lookup sh s.available_shards ≡ some old
      → (read now k new ≡ read now k old)
      → get sum32 num_shards now k
          (record s { available_shards = insert sh new s.available_shards })
        ≡ get sum32 num_shards now k s
  unfolding get
  get_replaced now sh k old new s h same =
      elim (Option-cases (get_shard_for_key sum32 k num_shards)) [
        | inl gone ↦ ground arith
        | inr (shard, hash) ↦ ground (
          arith,
          ==_iff sh (to_int32 shard),
          lookup-insert sh (to_int32 shard) new s.available_shards,
        )
      ]

  -- A `Get` of a key that is hosted, after the content of its shard has changed
  pub get_filled :
      (now : ℕ) (key k : String) (old new : ShardData) (s : KvServer)
      → (h : IsHosted key old s) → (key ≡ k)
      → get sum32 num_shards now k
          (record s { available_shards = insert (to_int32 h.0) new s.available_shards })
        ≡ some (read now k new, none)
  unfolding get
  get_filled now key k old new s (shard, named, hash, held) same = ground (
    arith,
    lookup-insert (to_int32 shard) (to_int32 shard) new s.available_shards,
    beq_refl (to_int32 shard),
  )

  -- `Set` on a server that hosts the shard of the key succeeds. From then on `Get` of the key
  -- finds the value until its lifetime has passed, and `Get` of another key answers as before.
  pub get-set_value :
      (now : ℕ) (key value : String) (ttl : ℤ) (contents : ShardData) (s : KvServer)
      → IsHosted key contents s
      → (t : KvServer) × (set_value sum32 num_shards now key value ttl s ≡ some (t, none))
        × ((later : ℕ) (k : String)
            → get sum32 num_shards later k t ≡ (
                if same_name key k
                then some (fresh value ttl (later - now), none)
                else get sum32 num_shards later k s))
  unfolding set_value
  get-set_value now key value ttl contents s (shard, named, hash, held) = (
    record s {
      available_shards =
          insert (to_int32 shard)
            (insert key (record { value = value; ttl = ttl; time_elapsed = now }) contents)
            s.available_shards;
    },
    ground arith,
    λ later k. elim (Bool-cases (same_name key k)) [
      | inl same ↦
          get_filled later key k contents
            (insert key (record { value = value; ttl = ttl; time_elapsed = now }) contents) s
            (shard, named, hash, held) ((string_eq.beq_iff key k).0 same)
          ∙ ground (
            arith,
            read-insert later key k (record { value = value; ttl = ttl; time_elapsed = now })
                contents,
          )
      | inr differs ↦
          get_replaced later (to_int32 shard) k contents
            (insert key (record { value = value; ttl = ttl; time_elapsed = now }) contents) s held
            (ground (
              arith,
              read-insert later key k (record { value = value; ttl = ttl; time_elapsed = now })
                  contents,
            ))
          ∙ ground arith
    ],
  )

  -- `Delete` on a server that hosts the shard of the key succeeds. `Get` of the key then finds
  -- nothing, and `Get` of another key answers as before.
  pub get-delete :
      (key : String) (contents : ShardData) (s : KvServer)
      → IsHosted key contents s
      → (t : KvServer) × (delete sum32 num_shards key s ≡ some (t, none))
        × ((later : ℕ) (k : String)
            → get sum32 num_shards later k t
              ≡ (if same_name key k then some (miss, none) else get sum32 num_shards later k s))
  unfolding delete
  get-delete key contents s (shard, named, hash, held) = (
    record s {
      available_shards = insert (to_int32 shard) (remove key contents) s.available_shards;
    },
    ground arith,
    λ later k. elim (Bool-cases (same_name key k)) [
      | inl same ↦
          get_filled later key k contents (remove key contents) s (shard, named, hash, held)
            ((string_eq.beq_iff key k).0 same)
          ∙ ground (arith, read-remove later key k contents)
      | inr differs ↦
          get_replaced later (to_int32 shard) k contents (remove key contents) s held
            (ground (arith, read-remove later key k contents))
          ∙ ground arith
    ],
  )

  -- `Get`, `Set` and `Delete` of a key fail alike: all three panic, or all three answer with the
  -- same error or none.
  pub same_errors :
      (now : ℕ) (key value : String) (ttl : ℤ) (s : KvServer)
      → (error_of (set_value sum32 num_shards now key value ttl s)
          ≡ error_of (get sum32 num_shards now key s))
        × (error_of (delete sum32 num_shards key s) ≡ error_of (get sum32 num_shards now key s))
  unfolding get set_value delete
  same_errors now key value ttl s = (ground arith, ground arith)

  -- A write that fails leaves the server as it was.
  pub failed_write :
      (now : ℕ) (key value : String) (ttl : ℤ) (s t : KvServer) (e : Code)
      → (set_value sum32 num_shards now key value ttl s ≡ some (t, some e))
        ⊎ (delete sum32 num_shards key s ≡ some (t, some e))
      → t ≡ s
  unfolding set_value delete
  failed_write now key value ttl s t e (inl h) = ground arith
  failed_write now key value ttl s t e (inr h) = ground arith
