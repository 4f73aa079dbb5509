-- ===== src/Checker/Completion.antt =====
-- The completion of a write keeps what holds in every run.
use building_distributed_sys.Prelude.{
  ℕ, suc, ◌≡◌, ◌∙◌, sym, ap, subst, Bool, true, false, Bool-cases, none, some, List, [], ◌∷◌, ◌++◌,
  length, All, ◌⊎◌, inl, inr, if◌then◌else◌, String, arith,
}
use building_distributed_sys.Prelude.Int.{pos, pos_part, take_one}
use building_distributed_sys.Prelude.Maps.{lookup, insert, string_eq, lookup-insert}
use building_distributed_sys.Checker.{
  Flags, StateValue, Values, ConsistencyChecker, values_of, version_of, complete_write,
}
use building_distributed_sys.Checker.Views.{complete_write_lem, Recorded}
use building_distributed_sys.Checker.Runs.{Pending, Run}
use building_distributed_sys.Checker.Writes.{
  Holds, Holds-middle, length-middle, All-middle, All-map,
}
use building_distributed_sys.Checker.Invariant.{Has, Began, Latest, Sound, answered_later}

module _ (flags : Flags) (key : String) (checks : flags.check_correctness ≡ true) where
  Has-insert :
      (value : String) (new : StateValue) (vals : Values) (x : String)
      → (value ≡ x) ⊎ Has x vals
      → Has x (insert value new vals)
  Has-insert value new vals x (inl same) = (
    new,
    lookup-insert value x new vals
        ∙ ap (λ b. if b then some new else lookup x vals) ((string_eq.beq_iff value x).1 same),
  )
  Has-insert value new vals x (inr (val, there)) = elim (Bool-cases (string_eq.beq value x)) [
    | inl same ↦
        (new, lookup-insert value x new vals ∙ ap (λ b. if b then some new else lookup x vals) same)
    | inr other ↦ (
      val,
      lookup-insert value x new vals
          ∙ ap (λ b. if b then some new else lookup x vals) other
          ∙ there,
    )
  ]

  Has-only :
      (value : String) (new : StateValue) (x : String) → value ≡ x → Has x ((value, new) ∷ [])
  unfolding lookup
  Has-only value new x same =
      (new, ap (λ b. if b then some new else none) ((string_eq.beq_iff value x).1 same))

  -- What the store holds is a value of the key, or one of the other pending writes'.
  complete_held :
      (s : Run) (before after : List Pending) (p : Pending) (failed : Bool) (vals : Values)
      → s.pending ≡ before ++ p ∷ after
      → (failed ≡ false → p.applied ≡ true)
      → Latest (version_of key s.cc) (length s.pending) s.register p
      → Recorded key p.value failed p.initial_version s.cc vals
      → Sound key s
      → (value : String) → s.register ≡ some value
      → Has value vals ⊎ Holds value (before ++ after)
  complete_held s before after p failed vals at taken latest (inl (new, settles, only)) i value h =
      let alone : length s.pending ≡ 1 = ap pos_part (sym i.counted ∙ settles.2) in
      elim (latest (taken settles.0)) [
        | inl (inl last) ↦
            inl (subst (Has value) (sym only) (Has-only p.value new value (last value h)))
        | inl (inr rivals) ↦ absurd (omega (arith, rivals, alone))
        | inr old ↦ absurd (omega (arith, old, settles.1))
      ]
  complete_held s before after p failed vals at taken latest (inr (new, more)) i value h =
      let recorded : (p.value ≡ value) ⊎ Has value (values_of key s.cc.values) → Has value vals =
        λ has.
          subst (Has value) (sym more)
            (Has-insert p.value new (values_of key s.cc.values) value has) in
      elim (i.held value h) [
        | inl has ↦ inl (recorded (inr has))
        | inr holds ↦ elim (Holds-middle value before after p (subst (Holds value) at holds)) [
          | inl mine ↦ inl (recorded (inl mine))
          | inr other ↦ inr other
        ]
      ]

  pub complete-Sound :
      (s : Run) (before after : List Pending) (p : Pending) (failed : Bool)
      (now maybe definitely : ℕ) (cc : ConsistencyChecker)
      → s.pending ≡ before ++ p ∷ after
      → (failed ≡ false → p.applied ≡ true)
      → complete_write flags now key p.value failed p.initial_version maybe definitely s.cc
        ≡ some cc
      → Sound key s
      → Sound key (record s { cc = cc; pending = before ++ after })
  complete-Sound s before after p failed now maybe definitely cc at taken h i =
      let version = version_of key s.cc in
      let (counts, later, recorded) =
        complete_write_lem flags key checks now p.value failed p.initial_version maybe definitely
          s.cc cc h in
      let one_less : length s.pending ≡ suc (length (before ++ after)) =
        ap length at ∙ length-middle before after p in
      let began =
        All-middle (Began version) before after p (subst (All (Began version)) at i.began) in
      let latest =
        All-middle (Latest version (length s.pending) s.register) before after p
          (subst (All (Latest version (length s.pending) s.register)) at i.latest) in
      record {
        counted = counts ∙ ap take_one (i.counted ∙ ap pos one_less);
        began =
            All-map (Began version) (Began (version_of key cc)) (before ++ after)
              (λ q b. omega (arith, b, later)) began.1;
        held =
            complete_held s before after p failed (values_of key cc.values) at taken latest.0
              recorded i;
        latest =
            All-map (Began version)
              (Latest (version_of key cc) (length (before ++ after)) s.register) (before ++ after)
              (λ q b taken. inr (omega (arith, b, later))) began.1;
        answered =
            answered_later flags key checks version (version_of key cc) (values_of key s.cc.values)
              (values_of key cc.values) s.pending (before ++ after) s.reading (omega (arith, later))
              i.answered;
      }
