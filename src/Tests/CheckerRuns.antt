-- ===== src/Tests/CheckerRuns.antt =====
-- One write and one read beside the checker.
use building_distributed_sys.Prelude.{◌≡◌, refl, true, false, some, none, [], ◌∷◌, arith}
use building_distributed_sys.Prelude.Int.{pos}
use building_distributed_sys.Prelude.Maps.{lookup, insert}
use building_distributed_sys.Checker.{
  Flags, ConsistencyChecker, make_consistency_checker, values_of, version_of, rc_of, is_number,
  has_value, begin_write, new_value, record_value, count_write, overwrite_all, complete_write,
  begin_read, judge, judge_found, check_read_correct, no_value,
}
use building_distributed_sys.Checker.Runs.{
  Pending, Run, idle, sampled, Turns, no_turns, then_turn, begin_turn, apply_turn, complete_turn,
  begin_read_turn, sample_turn,
}
use building_distributed_sys.Checker.Soundness.{IsNew, IsFair, check_read_correct-IsFair}
use building_distributed_sys.Checker.Alarms.{failed_write_alarm}

abbrev flags : Flags
flags = record { check_correctness = true; check_ttl = true; ttl_check_buffer = 10 }

abbrev new_run : Run
new_run = record { cc = make_consistency_checker; register = none; pending = []; reading = idle }

new_run-IsNew : IsNew flags "k" refl new_run
unfolding make_consistency_checker rc_of lookup
new_run-IsNew = (refl, refl, refl, refl)

abbrev begun : Run
begun = record new_run {
  cc = (begin_write flags "k" new_run.cc).0;
  pending =
      record {
        value = "v";
        initial_version = (begin_write flags "k" new_run.cc).1;
        applied = false;
      }
      ∷ [];
}

abbrev taken : Pending
taken = record {
  value = "v";
  initial_version = (begin_write flags "k" new_run.cc).1;
  applied = true;
}

abbrev checker : ConsistencyChecker
checker = record {
  checks_run = 0;
  values = ("k", ("v", new_value flags 5 "v" false 100 200) ∷ []) ∷ [];
  overwritten_values = ("k", []) ∷ [];
  version = ("k", 1) ∷ [];
  rc = ("k", pos 0) ∷ [];
}

completed :
    complete_write flags 5 "k" "v" false taken.initial_version 100 200 begun.cc ≡ some checker
unfolding complete_write count_write record_value begin_write make_consistency_checker new_value
    overwrite_all values_of version_of rc_of is_number has_value lookup insert
completed = refl

abbrev read : Run
read = record begun {
  cc = checker;
  register = some "v";
  pending = [];
  reading = sampled (begin_read flags "k" checker).0 (begin_read flags "k" checker).1 (some "v");
}

abbrev turns : Turns flags "k" new_run read
turns =
    then_turn
      (then_turn
        (then_turn
          (then_turn (then_turn no_turns (begin_turn "v")) (
            apply_turn [] []
              (record {
                value = "v";
                initial_version = (begin_write flags "k" new_run.cc).1;
                applied = false;
              })
              refl))
          (complete_turn [] [] taken false 5 100 200 checker refl (λ ok. refl) completed))
        begin_read_turn)
      (sample_turn (begin_read flags "k" checker).0 (begin_read flags "k" checker).1 refl)

check_read_correct-IsFair_example :
    IsFair flags "k" refl
      (check_read_correct flags 50 20 "k"
        (some "v")
        (begin_read flags "k" checker).0
        (begin_read flags "k" checker).1
        checker).1
check_read_correct-IsFair_example =
    check_read_correct-IsFair flags "k" refl new_run read 50 20 (begin_read flags "k" checker).0
      (begin_read flags "k" checker).1 "v" new_run-IsNew turns refl

-- The read is checked, and found right.
read_checked :
    check_read_correct flags 50 20 "k" (some "v") 1 false checker
    ≡ (record checker { checks_run = 1 }, none)
unfolding check_read_correct judge judge_found values_of version_of rc_of is_number has_value
    new_value lookup
read_checked = refl

failed_write_alarm_example :
    (begun1 cc1 : ConsistencyChecker) × (begin_write flags "k" make_consistency_checker
      ≡ (begun1, 0))
    × (complete_write flags 5 "k" "v" true 0 100 200 begun1 ≡ some cc1)
    × (begin_read flags "k" cc1 ≡ (1, false))
    × ((check_read_correct flags 50 20 "k" none 1 false cc1).1 ≡ some no_value)
failed_write_alarm_example = failed_write_alarm flags "k" "v" 5 50 20 100 200 refl (omega arith)
