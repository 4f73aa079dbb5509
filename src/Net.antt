-- ===== src/Net.antt =====
-- cs426-fall24/lab3/lab3: the simulated network (labrpc/labrpc.go), the test harness (raft/config.go) and the persister
-- (raft/persister.go).
pub mod Names
pub mod Server
pub mod Network
pub mod Deliver
pub mod Persister
pub mod Harness
