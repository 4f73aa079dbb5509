-- ===== src/Tests/HarnessRuns.antt =====
-- Two peers in the test harness.
use building_distributed_sys.Prelude.{
  ℕ, ◌+◌, ◌*◌, ◌<◌, ◌≡◌, refl, Bool, true, false, Option, some, none, [], ◌∷◌, ◌==◌, ==_iff, arith,
}
use building_distributed_sys.Prelude.Maps.{lookup, insert, nat_eq}
use building_distributed_sys.Net.Network.{make_network, or_false}
use building_distributed_sys.Net.Harness.{
  Config, put, end_of, move_peers, disagrees, check_logs, apply_msg, n_committed,
}
use building_distributed_sys.Net.Harness.Connections.{
  AllNamed, DistinctEnds, IsLinked, move_peers-IsLinked,
}
use building_distributed_sys.Net.Harness.Agreement.{Agree, apply_all, apply_all-Agree}

abbrev config : Config ℕ ℕ
config = record {
  net = make_network;
  n = 2;
  rafts = λ i. none;
  connected = λ i. false;
  saved = λ i. none;
  endnames = λ i. some (λ j. 2 * i + j);
  logs = λ i. [];
  max_index = 0;
}

config-AllNamed : AllNamed config
config-AllNamed i below = (λ j. 2 * i + j, refl)

config-DistinctEnds : DistinctEnds config
unfolding end_of
config-DistinctEnds i j k l name hi hj hk hl first second =
    let total : 2 * i + j ≡ name = ground arith in
    let again : 2 * k + l ≡ name = ground arith in (omega arith, omega arith)

config-IsLinked : IsLinked config
unfolding make_network lookup or_false
config-IsLinked a b name below_a below_b named = refl

move_peers-IsLinked_example :
    (after : Config ℕ ℕ) × (move_peers ((0, true) ∷ (1, true) ∷ (0, false) ∷ []) config
      ≡ some after)
    × IsLinked after
move_peers-IsLinked_example =
    move_peers-IsLinked ((0, true) ∷ (1, true) ∷ (0, false) ∷ []) config
      (omega arith, (omega arith, (omega arith, tt))) config-AllNamed config-DistinctEnds
      config-IsLinked

abbrev same : ℕ → ℕ → Bool
same a b = a == b

config-Agree : Agree same ==_iff 2 config.logs
unfolding lookup
config-Agree i j index a b below_i below_j has_i has_j = absurd (ground (arith, has_i))

abbrev applied : Config ℕ ℕ
applied = record config {
  logs =
      put 1 (insert 1 7 (put 0 (insert 1 7 []) config.logs 1)) (put 0 (insert 1 7 []) config.logs);
  max_index = 1;
}

all_applied : apply_all same ==_iff ((0, 1, 7) ∷ (1, 1, 7) ∷ []) config ≡ some applied
unfolding apply_msg check_logs disagrees lookup insert put
all_applied = refl

apply_all-Agree_example :
    Agree same ==_iff 2 applied.logs
    × ((index : ℕ)
        → (count : ℕ) × (cmd : Option ℕ) × (n_committed same index applied.logs 2
            ≡ some (count, cmd))
          × ((j v : ℕ) → j < 2 → lookup index (applied.logs j) ≡ some v → cmd ≡ some v))
apply_all-Agree_example =
    apply_all-Agree same ==_iff ((0, 1, 7) ∷ (1, 1, 7) ∷ []) config applied config-Agree all_applied

-- A second command for the same index is reported.
reported : apply_all same ==_iff ((0, 1, 7) ∷ (1, 1, 8) ∷ []) config ≡ none
unfolding apply_msg check_logs disagrees lookup insert put
reported = refl
