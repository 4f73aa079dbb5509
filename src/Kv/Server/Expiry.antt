-- ===== src/Kv/Server/Expiry.antt =====
-- The lifetime of values: what the ticker of a shard deletes and what `GetShardContents` copies.
use building_distributed_sys.Prelude.{ℕ, ◌≤◌, ◌≡◌, refl, String, true, none, [], ◌∷◌, arith}
use building_distributed_sys.Prelude.Maps.{string_eq, lookup, DistinctKeys}
use building_distributed_sys.Kv.Server.{CacheItem, ShardData, expired, miss, read, sweep}

expired_later :
    (now later : ℕ) (item : CacheItem)
    → now ≤ later
    → expired now item ≡ true
    → expired later item ≡ true
unfolding expired
expired_later now later item le h = ground arith

read_absent :
    (now : ℕ) (key : String) (contents : ShardData)
    → lookup key contents ≡ none
    → read now key contents ≡ miss
unfolding read
read_absent now key contents h = ground arith

lookup_swept :
    (now : ℕ) (key : String) (contents : ShardData)
    → lookup key contents ≡ none
    → lookup key (sweep now contents) ≡ none
unfolding sweep lookup
lookup_swept now key [] h = refl
lookup_swept now key ((k, item) ∷ rest) h = ground (arith, lookup_swept now key rest)

-- The ticker deletes nothing that a `Get` at that time or later would still find: each key reads
-- as if it had not run.
pub read-sweep :
    (now later : ℕ) (key : String) (contents : ShardData)
    → now ≤ later
    → DistinctKeys contents
    → read later key (sweep now contents) ≡ read later key contents
unfolding read sweep lookup
read-sweep now later key [] le d = refl
read-sweep now later key ((k, item) ∷ rest) le d = ground (
  arith,
  string_eq.beq_iff k key,
  expired_later now later item le,
  read-sweep now later key rest le d.1,
  lookup_swept now key rest,
)

pub sweep-DistinctKeys :
    (now : ℕ) (contents : ShardData) → DistinctKeys contents → DistinctKeys (sweep now contents)
unfolding sweep
sweep-DistinctKeys now [] d = tt
sweep-DistinctKeys now ((k, item) ∷ rest) d =
    ground (arith, lookup_swept now k rest, sweep-DistinctKeys now rest)
