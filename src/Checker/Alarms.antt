-- ===== src/Checker/Alarms.antt =====
-- Where the checker reports a store that did nothing wrong.
use building_distributed_sys.Prelude.{ℕ, ◌≤◌, ◌≡◌, true, false, none, some, [], ◌∷◌, String, arith}
use building_distributed_sys.Prelude.Int.{pos}
use building_distributed_sys.Prelude.Maps.{lookup, insert, string_eq, beq_refl}
use building_distributed_sys.Checker.{
  Flags, StateValue, ConsistencyChecker, make_consistency_checker, values_of, version_of, rc_of,
  is_number, has_value, begin_write, new_value, record_value, count_write, complete_write,
  begin_read, is_empty, some_expired, judge, check_read_correct, no_value,
}

abbrev key_refl : (key : String) → string_eq.beq key key ≡ true
key_refl key = beq_refl key

-- The checker while the only write of a key is pending, and after it has failed.
abbrev pub writing : String → ConsistencyChecker
writing key = record {
  checks_run = 0;
  values = [];
  overwritten_values = [];
  version = [];
  rc = (key, pos 1) ∷ [];
}

abbrev pub failed_once : String → StateValue → ConsistencyChecker
failed_once key new = record {
  checks_run = 0;
  values = (key, (new.value, new) ∷ []) ∷ [];
  overwritten_values = [];
  version = (key, 1) ∷ [];
  rc = (key, pos 0) ∷ [];
}

module _ (flags : Flags) (key value : String) (checks : flags.check_correctness ≡ true) where
  begun_lem : begin_write flags key make_consistency_checker ≡ (writing key, 0)
  unfolding begin_write make_consistency_checker rc_of version_of lookup insert
  begun_lem = ground arith

  failed_lem :
      (written maybe definitely : ℕ)
      → complete_write flags written key value true 0 maybe definitely (writing key)
        ≡ some (failed_once key (new_value flags written value true maybe definitely))
  unfolding complete_write count_write record_value new_value values_of version_of rc_of has_value
      lookup insert
  failed_lem written maybe definitely = ground (arith, key_refl key)

  read_lem : (new : StateValue) → begin_read flags key (failed_once key new) ≡ (1, false)
  unfolding begin_read version_of rc_of is_number lookup
  read_lem new = ground (arith, key_refl key)

  alarm_lem :
      (now start_time : ℕ) (new : StateValue)
      → now ≤ new.maybe_expired_by
      → (check_read_correct flags now start_time key none 1 false (failed_once key new)).1
        ≡ some no_value
  unfolding check_read_correct judge values_of version_of rc_of is_number is_empty some_expired
      lookup
  alarm_lem now start_time new fresh = ground (arith, key_refl key)

-- A Set of a new key that fails before the store has taken it, and a Get after it that rightly finds
-- nothing: until the value would have expired, the checker reports that a value is missing.
pub failed_write_alarm :
    (flags : Flags) (key value : String) (written now start_time maybe definitely : ℕ)
    → flags.check_correctness ≡ true
    → now ≤ maybe
    → (begun cc : ConsistencyChecker) × (begin_write flags key make_consistency_checker
        ≡ (begun, 0))
      × (complete_write flags written key value true 0 maybe definitely begun ≡ some cc)
      × (begin_read flags key cc ≡ (1, false))
      × ((check_read_correct flags now start_time key none 1 false cc).1 ≡ some no_value)
unfolding new_value
failed_write_alarm flags key value written now start_time maybe definitely checks fresh =
    let new = new_value flags written value true maybe definitely in
    (
      writing key,
      failed_once key new,
      begun_lem flags key value checks,
      failed_lem flags key value checks written maybe definitely,
      read_lem flags key value checks new,
      alarm_lem flags key value checks now start_time new fresh,
    )
