-- ===== src/Checker/Invariant.antt =====
-- What holds in every run of the checker beside an atomic store.
use building_distributed_sys.Prelude.{
  ℕ, suc, ◌≤◌, ◌<◌, ◌≡◌, ◌∙◌, sym, ap, subst, true, false, Option, none, some, List, ◌∷◌, ◌++◌,
  length, All, ◌⊎◌, inl, inr, String, arith,
}
use building_distributed_sys.Prelude.Int.{pos, add_one}
use building_distributed_sys.Prelude.Maps.{lookup, insert, string_eq}
use building_distributed_sys.Checker.{Flags, StateValue, Values, values_of, version_of, rc_of}
use building_distributed_sys.Checker.Views.{rc_of-begin_write}
use building_distributed_sys.Checker.Runs.{Pending, Reading, idle, asked, sampled, Run}
use building_distributed_sys.Checker.Writes.{
  Holds, Holds-here, length-middle, All-middle, All-fill, All-some, All-map,
}

-- A list of values that has one of this name.
abbrev pub Has : String → Values → Type 0
Has value vals = (val : StateValue) × (lookup value vals ≡ some val)

-- A pending write began at a version that is not later.
abbrev pub Began : ℕ → Pending → Type 0
Began version p = p.initial_version ≤ version

-- A taken write without a rival, then or since, is the last that the store has taken.
abbrev pub Latest : ℕ → ℕ → Option String → Pending → Type 0
Latest version count register p =
    p.applied ≡ true
    → (((value : String) → register ≡ some value → p.value ≡ value) ⊎ (2 ≤ count))
      ⊎ (p.initial_version < version)

-- A read that found a value before a version began that is still the last.
abbrev pub Answered : ℕ → Values → List Pending → Reading → Type 0
Answered version vals pending idle = Unit
Answered version vals pending (asked began busy) = began ≤ version
Answered version vals pending (sampled began busy none) = began ≤ version
Answered version vals pending (sampled began busy (some value)) =
    (began ≤ version) × ((Has value vals ⊎ (0 < length pending)) ⊎ (began < version))

pub record Sound (key : String) (s : Run) : Type 0 where
  pub counted : rc_of key s.cc ≡ pos (length s.pending)
  pub began : All (Began (version_of key s.cc)) s.pending
  pub held :
      (value : String)
      → s.register ≡ some value
      → Has value (values_of key s.cc.values) ⊎ Holds value s.pending
  pub latest : All (Latest (version_of key s.cc) (length s.pending) s.register) s.pending
  pub answered : Answered (version_of key s.cc) (values_of key s.cc.values) s.pending s.reading

module _ (flags : Flags) (key : String) (checks : flags.check_correctness ≡ true) where
  pub drop-Sound : (s : Run) → Sound key s → Sound key (record s { register = none })
  drop-Sound s i = record {
    counted = i.counted;
    began = i.began;
    held = λ value h. absurd (ground (arith, h));
    latest =
        All-map (Latest (version_of key s.cc) (length s.pending) s.register)
          (Latest (version_of key s.cc) (length s.pending) none) s.pending
          (λ p l taken. inl (inl (λ value h. absurd (ground (arith, h))))) i.latest;
    answered = i.answered;
  }

  -- More pending writes leave an answer as good as it was.
  answered_more :
      (version : ℕ) (vals : Values) (pending more : List Pending) (reading : Reading)
      → 0 < length more
      → Answered version vals pending reading
      → Answered version vals more reading
  answered_more version vals pending more idle some_more a = a
  answered_more version vals pending more (asked began busy) some_more a = a
  answered_more version vals pending more (sampled began busy none) some_more a = a
  answered_more version vals pending more (sampled began busy (some value)) some_more a =
      (a.0, inl (inr some_more))

  -- A new version leaves any answer behind.
  pub answered_later :
      (version later : ℕ) (vals vals1 : Values) (pending rest : List Pending) (reading : Reading)
      → version < later
      → Answered version vals pending reading
      → Answered later vals1 rest reading
  answered_later version later vals vals1 pending rest idle h a = a
  answered_later version later vals vals1 pending rest (asked began busy) h a = omega (arith, a)
  answered_later version later vals vals1 pending rest (sampled began busy none) h a =
      omega (arith, a)
  answered_later version later vals vals1 pending rest (sampled began busy (some value)) h a =
      (omega (arith, a.0), inr (omega (arith, a.0)))

  pub apply-Sound :
      (s : Run) (before after : List Pending) (p : Pending)
      → s.pending ≡ before ++ p ∷ after
      → Sound key s
      → Sound key (record s {
        register = some p.value;
        pending = before ++ record p { applied = true } ∷ after;
      })
  apply-Sound s before after p at i =
      let version = version_of key s.cc in
      let q = record p { applied = true } in
      let count : length s.pending ≡ length (before ++ q ∷ after) =
        ap length at ∙ length-middle before after p ∙ sym (length-middle before after q) in
      let split =
        All-middle (Began version) before after p (subst (All (Began version)) at i.began) in
      let now = Latest version (length (before ++ q ∷ after)) (some p.value) in
      record {
        counted = i.counted ∙ ap pos count;
        began = All-fill (Began version) before after q split.0 split.1;
        held = λ value h. inr (
            subst (λ v. Holds v (before ++ q ∷ after)) (ground (arith, h))
              (Holds-here before after q));
        latest =
            All-fill now before after q (λ taken. inl (inl (λ value h. ground (arith, h))))
              (All-some now (before ++ after)
                (λ others r taken. inl (inr (omega (arith, length-middle before after q)))));
        answered =
            answered_more version (values_of key s.cc.values) s.pending (before ++ q ∷ after)
              s.reading (omega (arith, length-middle before after q)) i.answered;
      }

  add_one_pos : (n : ℕ) → add_one (pos n) ≡ pos (suc n)
  add_one_pos n = ap pos (omega arith)

  pub begin-Sound :
      (s : Run) (value : String)
      → Sound key s
      → Sound key (record s {
        cc = record s.cc { rc = insert key (add_one (rc_of key s.cc)) s.cc.rc };
        pending =
            record { value = value; initial_version = version_of key s.cc; applied = false }
            ∷ s.pending;
      })
  unfolding version_of
  begin-Sound s value i =
      let version = version_of key s.cc in
      let more = record { value = value; initial_version = version; applied = false } ∷ s.pending in
      record {
        counted =
            rc_of-begin_write flags key checks s.cc
            ∙ ap add_one i.counted
            ∙ add_one_pos (length s.pending);
        began = (omega arith, i.began);
        held = λ x h. elim (i.held x h) [ inl has ↦ inl has | inr holds ↦ inr (inr holds) ];
        latest = (
          λ taken. absurd (ground (arith, taken)),
          All-map (Latest version (length s.pending) s.register)
              (Latest version (length more) s.register) s.pending
              (λ p l taken. elim (l taken) [
                | inl (inl last) ↦ inl (inl last)
                | inl (inr rivals) ↦ inl (inr (omega (arith, rivals)))
                | inr old ↦ inr old
              ])
              i.latest,
        );
        answered =
            answered_more version (values_of key s.cc.values) s.pending more s.reading (omega arith)
              i.answered;
      }
