-- ===== src/Checker/Runs.antt =====
-- Runs of the checker beside a store, seen from one key: writes that are pending, take effect and
-- complete, and one read.
use building_distributed_sys.Prelude.{
  ℕ, ◌≡◌, Bool, true, false, Option, none, some, List, ◌∷◌, ◌++◌, String,
}
use building_distributed_sys.Prelude.Maps.{string_eq}
use building_distributed_sys.Checker.{
  Flags, ConsistencyChecker, values_of, version_of, rc_of, begin_write, complete_write, begin_read,
}

-- A write between `BeginWrite` and `CompleteWrite`, and whether the store has taken it.
pub record Pending : Type 0 where
  pub value : String
  pub initial_version : ℕ
  pub applied : Bool

-- The read: not begun, between `BeginRead` and the store, with the store's answer.
pub data Reading : Type 0 where
  idle : Reading
  asked : ℕ → Bool → Reading
  sampled : ℕ → Bool → Option String → Reading

-- The checker, what the store holds for the key, the writes to it and the read.
pub record Run : Type 0 where
  pub cc : ConsistencyChecker
  pub register : Option String
  pub pending : List Pending
  pub reading : Reading

-- What a checker knows of a key.
abbrev pub SameView : String → ConsistencyChecker → ConsistencyChecker → Type 0
SameView key cc cd =
    (values_of key cd.values ≡ values_of key cc.values)
    × (version_of key cd ≡ version_of key cc)
    × (rc_of key cd ≡ rc_of key cc)

module _ (flags : Flags) (key : String) where
  pub data Turn : Run → Run → Type 0 where
    begin_turn :
        {s : Run} (value : String)
        → Turn s (record s {
          cc = (begin_write flags key s.cc).0;
          pending =
              record {
                value = value;
                initial_version = (begin_write flags key s.cc).1;
                applied = false;
              }
              ∷ s.pending;
        })
    -- The store takes a pending write, perhaps again.
    apply_turn :
        {s : Run} (before after : List Pending) (p : Pending)
        → s.pending ≡ before ++ p ∷ after
        → Turn s (record s {
          register = some p.value;
          pending = before ++ record p { applied = true } ∷ after;
        })
    -- The store drops the value, expired or deleted.
    drop_turn : {s : Run} → Turn s (record s { register = none })
    -- A write completes; one that did not fail has been taken.
    complete_turn :
        {s : Run} (before after : List Pending) (p : Pending) (failed : Bool)
        (now maybe definitely : ℕ) (cc : ConsistencyChecker)
        → s.pending ≡ before ++ p ∷ after
        → (failed ≡ false → p.applied ≡ true)
        → complete_write flags now key p.value failed p.initial_version maybe definitely s.cc
          ≡ some cc
        → Turn s (record s { cc = cc; pending = before ++ after })
    begin_read_turn :
        {s : Run}
        → Turn s (record s {
          reading = asked (begin_read flags key s.cc).0 (begin_read flags key s.cc).1;
        })
    sample_turn :
        {s : Run} (version : ℕ) (pending : Bool)
        → s.reading ≡ asked version pending
        → Turn s (record s { reading = sampled version pending s.register })
    -- Other keys and other reads.
    other_turn :
        {s : Run} (cc : ConsistencyChecker) → SameView key s.cc cc → Turn s (record s { cc = cc })

  pub data Turns (s : Run) : Run → Type 0 where
    no_turns : Turns s s
    then_turn : {t u : Run} → Turns s t → Turn t u → Turns s u
