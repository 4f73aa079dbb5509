-- ===== src/Tests.antt =====
-- Concrete runs: the theorems at inputs that exercise the code, and tests of the definitions.
mod RaftCluster
mod RaftPeer
mod RaftHandlers
mod KvServer
mod KvClient
mod SyncRuns
mod VideoRecRuns
mod NetRuns
mod CheckerRuns
mod HarnessRuns
