-- ===== src/Raft.antt =====
-- lab3/lab3/raft: one Raft peer, handler by handler, and the cluster of peers.
pub mod State
pub mod Log
pub mod Replicate
pub mod Vote
pub mod Append
pub mod Node
pub mod Terms
pub mod Votes
pub mod Cluster
pub mod Timers
pub mod Crash
pub mod Valid
