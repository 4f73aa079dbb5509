-- ===== src/Net/Persister.antt =====
-- cs426-fall24/lab3/lab3/raft/persister.go: the saved state of a peer and its snapshot. `clone` makes a copy
-- of a slice, so that a saved value shares no memory with the caller's; byte lists share none.
use building_distributed_sys.Prelude.{ℕ, ◌≡◌, refl, [], length}
use building_distributed_sys.Net.Names.{Bytes}

pub record Persister : Type 0 where
  pub raftstate : Bytes
  pub snapshot : Bytes

-- `MakePersister`
unfoldable pub make_persister : Persister
make_persister = record { raftstate = []; snapshot = [] }

-- `Copy`
unfoldable pub copy : Persister → Persister
copy ps = record make_persister { raftstate = ps.raftstate; snapshot = ps.snapshot }

unfoldable pub save_raft_state : Bytes → Persister → Persister
save_raft_state state ps = record ps { raftstate = state }

unfoldable pub read_raft_state : Persister → Bytes
read_raft_state ps = ps.raftstate

unfoldable pub raft_state_size : Persister → ℕ
raft_state_size ps = length ps.raftstate

-- `SaveStateAndSnapshot`
unfoldable pub save_state_and_snapshot : Bytes → Bytes → Persister → Persister
save_state_and_snapshot state snapshot ps = record ps { raftstate = state; snapshot = snapshot }

unfoldable pub read_snapshot : Persister → Bytes
read_snapshot ps = ps.snapshot

unfoldable pub snapshot_size : Persister → ℕ
snapshot_size ps = length ps.snapshot

-- A copy reads as the original did when it was made, in both values and both sizes, whatever is
-- saved in the original afterwards: the old peer of a crash cannot change what the new one reads.
pub copy-reads :
    (ps : Persister) (state snapshot : Bytes)
    → (read_raft_state (copy (save_state_and_snapshot state snapshot ps)) ≡ state)
      × (read_snapshot (copy (save_state_and_snapshot state snapshot ps)) ≡ snapshot)
      × (read_snapshot (copy (save_raft_state state ps)) ≡ read_snapshot ps)
      × (raft_state_size (copy (save_raft_state state ps))
          ≡ length (read_raft_state (save_raft_state state ps)))
unfolding copy save_raft_state read_raft_state raft_state_size save_state_and_snapshot read_snapshot
    make_persister
copy-reads ps state snapshot = (refl, refl, refl, refl)
