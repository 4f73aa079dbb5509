-- ===== src/Checker.antt =====
-- cs426-fall24/lab4/checker/checker.go: what the stress tester records of its writes, and how it judges
-- a read. Times are nanoseconds; versions are counts that a run does not exhaust.
pub mod Views
pub mod Runs
pub mod Writes
pub mod Invariant
pub mod Completion
pub mod Soundness
pub mod Alarms
use building_distributed_sys.Prelude.{
  ℕ, zero, suc, ◌+◌, Bool, true, false, not, ◌&&◌, ◌||◌, Option, none, some, List, [], ◌∷◌, ltb,
  ◌==◌, if◌then◌else◌, String, add64,
}
use building_distributed_sys.Prelude.Int.{ℤ, pos, negsuc, add_one, take_one}
use building_distributed_sys.Prelude.Maps.{lookup, insert, string_eq}

-- The command line flags.
pub record Flags : Type 0 where
  pub check_correctness : Bool
  pub check_ttl : Bool
  pub ttl_check_buffer : ℕ

pub record StateValue : Type 0 where
  pub value : String
  pub written_at : ℕ
  pub maybe_expired_by : ℕ
  pub definitely_expired_by : ℕ
  pub failed : Bool
  pub overwritten_at : ℕ

abbrev pub Values : Type 0
Values = List (String × StateValue)

pub record ConsistencyChecker : Type 0 where
  pub checks_run : ℕ
  pub values : List (String × Values)
  pub overwritten_values : List (String × Values)
  pub version : List (String × ℕ)
  pub rc : List (String × ℤ)

-- `MakeConsistencyChecker`
unfoldable pub make_consistency_checker : ConsistencyChecker
make_consistency_checker = record {
  checks_run = 0;
  values = [];
  overwritten_values = [];
  version = [];
  rc = [];
}

-- `m[key]`, with the zero value of a key that is not there: a nil map, which reads as an empty one, or 0.
unfoldable pub values_of : String → List (String × Values) → Values
values_of key m = elim (lookup key m) [ none ↦ [] | some vals ↦ vals ]

unfoldable pub version_of : String → ConsistencyChecker → ℕ
version_of key cc = elim (lookup key cc.version) [ none ↦ 0 | some n ↦ n ]

unfoldable pub rc_of : String → ConsistencyChecker → ℤ
rc_of key cc = elim (lookup key cc.rc) [ none ↦ pos 0 | some n ↦ n ]

unfoldable pub is_number : ℕ → ℤ → Bool
is_number n (pos m) = m == n
is_number n (negsuc m) = false

unfoldable pub has_value : String → Values → Bool
has_value value vals = elim (lookup value vals) [ none ↦ false | some val ↦ true ]

unfoldable pub begin_write : Flags → String → ConsistencyChecker → ConsistencyChecker × ℕ
begin_write flags key cc =
    if flags.check_correctness
    then (record cc { rc = insert key (add_one (rc_of key cc)) cc.rc }, version_of key cc)
    else (cc, 0)

-- `newVal` of `CompleteWrite`
unfoldable pub new_value : Flags → ℕ → String → Bool → ℕ → ℕ → StateValue
new_value flags now value failed maybe_expired_by definitely_expired_by = record {
  value = value;
  written_at = now;
  maybe_expired_by = maybe_expired_by;
  definitely_expired_by = definitely_expired_by + flags.ttl_check_buffer;
  failed = failed;
  overwritten_at = 0;
}

-- The loop over the values that are overwritten.
unfoldable pub overwrite_all : Values → Values → Values
overwrite_all [] old = old
overwrite_all ((name, val) ∷ vals) old = overwrite_all vals (insert val.value val old)

-- `CompleteWrite` between its two checks for duplicates and the counters
unfoldable pub record_value : String → ℕ → StateValue → ConsistencyChecker → ConsistencyChecker
record_value key initial_version new cc =
    if not new.failed && (initial_version == version_of key cc) && is_number 1 (rc_of key cc)
    then record cc {
      overwritten_values =
          insert key (overwrite_all (values_of key cc.values) (values_of key cc.overwritten_values))
            cc.overwritten_values;
      values = insert key ((new.value, new) ∷ []) cc.values;
    }
    else record cc {
      values = insert key (insert new.value new (values_of key cc.values)) cc.values;
    }

-- The end of `CompleteWrite`.
unfoldable pub count_write : String → ConsistencyChecker → ConsistencyChecker
count_write key cc = record cc {
  rc = insert key (take_one (rc_of key cc)) cc.rc;
  version = insert key (version_of key cc + 1) cc.version;
}

-- `CompleteWrite`; `none` is its panic on a value that the key has had
unfoldable pub complete_write :
    Flags → ℕ → String → String → Bool → ℕ → ℕ → ℕ → ConsistencyChecker → Option ConsistencyChecker
complete_write flags now key value failed initial_version maybe_expired_by definitely_expired_by
      cc =
    if flags.check_correctness
    then (if has_value value (values_of key cc.values)
          || has_value value (values_of key cc.overwritten_values)
        then none
        else some (
            count_write key (
              record_value key initial_version
                (new_value flags now value failed maybe_expired_by definitely_expired_by) cc)))
    else some cc

unfoldable pub begin_read : Flags → String → ConsistencyChecker → ℕ × Bool
begin_read flags key cc =
    if flags.check_correctness
    then (version_of key cc, not (is_number 0 (rc_of key cc)))
    else (0, false)

-- The errors of `CheckReadCorrect`.
pub data Report : Type 0 where
  no_value was_overwritten never_written has_expired : Report

-- The loop over the values of a key that was not found.
unfoldable pub some_expired : ℕ → Values → Bool
some_expired now [] = false
some_expired now ((name, val) ∷ vals) = ltb val.maybe_expired_by now || some_expired now vals

unfoldable pub is_empty : Values → Bool
is_empty [] = true
is_empty (entry ∷ vals) = false

-- A value that was found, with the key's record of it, if any, and whether it was overwritten.
unfoldable pub judge_found : Flags → ℕ → Option StateValue → Bool → Option Report
judge_found flags start_time (some val) overwritten =
    if flags.check_ttl && not val.failed && ltb val.definitely_expired_by start_time
    then some has_expired
    else none
judge_found flags start_time none overwritten =
    if overwritten then some was_overwritten else some never_written

-- `CheckReadCorrect` once it has decided to check; `found` is the value, if there was one
unfoldable pub judge : Flags → ℕ → ℕ → String → Option String → ConsistencyChecker → Option Report
judge flags now start_time key none cc =
    let vals = values_of key cc.values in
    if is_empty vals || some_expired now vals then none else some no_value
judge flags now start_time key (some value) cc =
    judge_found flags start_time (lookup value (values_of key cc.values))
      (has_value value (values_of key cc.overwritten_values))

-- `CheckReadCorrect`, with the checker whose count of checks it may raise
unfoldable pub check_read_correct :
    Flags
    → ℕ
    → ℕ
    → String
    → Option String
    → ℕ
    → Bool
    → ConsistencyChecker
    → ConsistencyChecker × Option Report
check_read_correct flags now start_time key found initial_version writes_pending cc =
    if flags.check_correctness
    then (if not (version_of key cc == initial_version)
          || writes_pending
          || not (is_number 0 (rc_of key cc))
        then (cc, none)
        else (
          record cc { checks_run = add64 cc.checks_run 1 },
          judge flags now start_time key found cc,
        ))
    else (cc, none)
