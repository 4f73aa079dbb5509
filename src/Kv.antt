-- ===== src/Kv.antt =====
-- lab4/kv: a sharded key-value cache with expiry, its servers and its client.
pub mod Partial
pub mod ShardMap
pub mod Server
pub mod Client
pub mod ClientPool
