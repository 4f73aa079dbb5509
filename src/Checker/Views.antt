-- ===== src/Checker/Views.antt =====
-- What the operations of the checker change of the key that they are called for.
use building_distributed_sys.Prelude.{
  ℕ, ◌+◌, ◌≡◌, refl, ◌∙◌, subst, sym, ap, Bool, true, false, not, ◌&&◌, Bool-cases, none, some,
  List, [], ◌∷◌, ◌==◌, ◌⊎◌, inl, inr, if◌then◌else◌, String, arith,
}
use building_distributed_sys.Prelude.Int.{ℤ, pos, negsuc, add_one, take_one}
use building_distributed_sys.Prelude.Maps.{lookup, insert, string_eq, lookup-insert, beq_refl}
use building_distributed_sys.Checker.{
  Flags, StateValue, Values, ConsistencyChecker, values_of, version_of, rc_of, is_number,
  begin_write, new_value, record_value, count_write, complete_write, begin_read,
}

-- The key has this value.
abbrev pub HasValue : String → String → ConsistencyChecker → Type 0
HasValue key value cc = (val : StateValue) × (lookup value (values_of key cc.values) ≡ some val)

lookup-insert-same :
    {V : Type 0} (key : String) (v : V) (m : List (String × V))
    → lookup key (insert key v m) ≡ some v
lookup-insert-same key v m =
    lookup-insert key key v m ∙ ap (λ b. if b then some v else lookup key m) (beq_refl key)

values_of-insert :
    (key : String) (vals : Values) (m : List (String × Values))
    → values_of key (insert key vals m) ≡ vals
unfolding values_of
values_of-insert key vals m =
    ap (λ found. elim found as (λ x. Values) [ none ↦ [] | some vs ↦ vs ])
      (lookup-insert-same key vals m)

rc_of-insert :
    (key : String) (n : ℤ) (cc : ConsistencyChecker)
    → rc_of key (record cc { rc = insert key n cc.rc }) ≡ n
unfolding rc_of
rc_of-insert key n cc =
    ap (λ found. elim found as (λ x. ℤ) [ none ↦ pos 0 | some k ↦ k ])
      (lookup-insert-same key n cc.rc)

-- Whether a write settles what the key has.
abbrev pub Settles : String → Bool → ℕ → ConsistencyChecker → Type 0
Settles key failed initial_version cc =
    (failed ≡ false) × (initial_version ≡ version_of key cc) × (rc_of key cc ≡ pos 1)

-- The values of a key after one more write of it.
abbrev pub Recorded : String → String → Bool → ℕ → ConsistencyChecker → Values → Type 0
Recorded key value failed initial_version cc vals =
    ((new : StateValue) × Settles key failed initial_version cc × (vals ≡ (value, new) ∷ []))
    ⊎ ((new : StateValue) × (vals ≡ insert value new (values_of key cc.values)))

is_number_one : (n : ℤ) → is_number 1 n ≡ true → n ≡ pos 1
unfolding is_number
is_number_one (pos m) h = ap pos (ground arith)
is_number_one (negsuc m) h = absurd (ground arith)

record_value_lem :
    (key : String) (initial_version : ℕ) (new : StateValue) (cc : ConsistencyChecker)
    → Recorded key new.value new.failed initial_version cc
        (values_of key (record_value key initial_version new cc).values)
unfolding record_value
record_value_lem key initial_version new cc =
    elim (Bool-cases
      (not new.failed && (initial_version == version_of key cc) && is_number 1 (rc_of key cc))) [
        | inl settles ↦ rw (settles) (
            inl (
              new,
              (ground arith, ground arith, is_number_one (rc_of key cc) (ground arith)),
              values_of-insert key ((new.value, new) ∷ []) cc.values,
            ))
        | inr open_still ↦ rw (open_still) (
            inr (
              new,
              values_of-insert key (insert new.value new (values_of key cc.values)) cc.values,
            ))
      ]

record_value-counts :
    (key : String) (initial_version : ℕ) (new : StateValue) (cc : ConsistencyChecker)
    → (rc_of key (record_value key initial_version new cc) ≡ rc_of key cc)
      × (version_of key (record_value key initial_version new cc) ≡ version_of key cc)
unfolding record_value rc_of version_of
record_value-counts key initial_version new cc =
    elim (Bool-cases
      (not new.failed && (initial_version == version_of key cc) && is_number 1 (rc_of key cc))) [
        | inl settles ↦ rw (settles) (refl, refl)
        | inr open_still ↦ rw (open_still) (refl, refl)
      ]

count_write_lem :
    (key : String) (cc : ConsistencyChecker)
    → (rc_of key (count_write key cc) ≡ take_one (rc_of key cc))
      × (version_of key (count_write key cc) ≡ version_of key cc + 1)
      × ((count_write key cc).values ≡ cc.values)
unfolding count_write rc_of version_of
count_write_lem key cc = (
  ap (λ found. elim found as (λ x. ℤ) [ none ↦ pos 0 | some k ↦ k ])
      (lookup-insert-same key (take_one (rc_of key cc)) cc.rc),
  ap (λ found. elim found as (λ x. ℕ) [ none ↦ 0 | some k ↦ k ])
      (lookup-insert-same key (version_of key cc + 1) cc.version),
  refl,
)

module _ (flags : Flags) (key : String) (checks : flags.check_correctness ≡ true) where
  pub begin_write_lem :
      (cc : ConsistencyChecker)
      → begin_write flags key cc
        ≡ (record cc { rc = insert key (add_one (rc_of key cc)) cc.rc }, version_of key cc)
  unfolding begin_write
  begin_write_lem cc = ground arith

  pub rc_of-begin_write :
      (cc : ConsistencyChecker)
      → rc_of key (record cc { rc = insert key (add_one (rc_of key cc)) cc.rc })
        ≡ add_one (rc_of key cc)
  rc_of-begin_write cc = rc_of-insert key (add_one (rc_of key cc)) cc

  pub begin_read_lem : (cc : ConsistencyChecker) → (begin_read flags key cc).0 ≡ version_of key cc
  unfolding begin_read
  begin_read_lem cc = ground arith

  complete_write_is :
      (now : ℕ) (value : String) (failed : Bool) (initial_version maybe definitely : ℕ)
      (cc cd : ConsistencyChecker)
      → complete_write flags now key value failed initial_version maybe definitely cc ≡ some cd
      → count_write key
          (record_value key initial_version (new_value flags now value failed maybe definitely) cc)
        ≡ cd
  unfolding complete_write
  complete_write_is now value failed initial_version maybe definitely cc cd h = grind arith

  -- A write that completes is no longer pending, and makes a new version.
  pub complete_write_lem :
      (now : ℕ) (value : String) (failed : Bool) (initial_version maybe definitely : ℕ)
      (cc cd : ConsistencyChecker)
      → complete_write flags now key value failed initial_version maybe definitely cc ≡ some cd
      → (rc_of key cd ≡ take_one (rc_of key cc))
        × (version_of key cd ≡ version_of key cc + 1)
        × Recorded key value failed initial_version cc (values_of key cd.values)
  unfolding new_value
  complete_write_lem now value failed initial_version maybe definitely cc cd h =
      let new = new_value flags now value failed maybe definitely in
      let recorded = record_value key initial_version new cc in
      let counted = count_write_lem key recorded in
      let (same_rc, same_version) = record_value-counts key initial_version new cc in
      subst
        (λ c.
          (rc_of key c ≡ take_one (rc_of key cc))
          × (version_of key c ≡ version_of key cc + 1)
          × Recorded key value failed initial_version cc (values_of key c.values))
        (complete_write_is now value failed initial_version maybe definitely cc cd h)
        (
          counted.0 ∙ ap take_one same_rc,
          counted.1 ∙ ap (λ n. n + 1) same_version,
          subst (λ v. Recorded key value failed initial_version cc (values_of key v))
              (sym counted.2) (record_value_lem key initial_version new cc),
        )
