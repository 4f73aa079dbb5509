-- ===== src/Raft/Cluster/Invariant.antt =====
-- The invariant of elections: who may have voted for whom, and what the counts mean.
mod Defs
mod Local
mod Election
mod Ballots
mod Steps
pub use Defs.*
pub use Steps.*
