-- ===== src/Checker/Soundness.antt =====
-- The checker accepts what an atomic store answers.
use building_distributed_sys.Prelude.{
  ℕ, ◌≤◌, ◌≡◌, refl, ◌∙◌, sym, ap, subst, Bool, true, false, not, ◌&&◌, ◌||◌, ltb, Bool-cases,
  Option, none, some, List, [], ◌∷◌, length, All, ◌⊎◌, inl, inr, ◌==◌, String, arith,
}
use building_distributed_sys.Prelude.Int.{pos}
use building_distributed_sys.Prelude.Maps.{string_eq}
use building_distributed_sys.Checker.{
  Flags, StateValue, Values, ConsistencyChecker, values_of, version_of, rc_of, is_number, has_value,
  begin_read, judge_found, judge, check_read_correct, Report, has_expired,
}
use building_distributed_sys.Checker.Views.{begin_write_lem, begin_read_lem}
use building_distributed_sys.Checker.Runs.{
  Pending, idle, asked, sampled, Run, Turn, begin_turn, apply_turn, drop_turn, complete_turn,
  begin_read_turn, sample_turn, other_turn, Turns, no_turns, then_turn, SameView,
}
use building_distributed_sys.Checker.Writes.{Holds, Holds-nonempty}
use building_distributed_sys.Checker.Completion.{complete-Sound}
use building_distributed_sys.Checker.Invariant.{
  Has, Began, Latest, Answered, Sound, drop-Sound, apply-Sound, begin-Sound,
}

module _ (flags : Flags) (key : String) (checks : flags.check_correctness ≡ true) where
  read_lem :
      (s : Run)
      → Sound key s
      → Answered
          (version_of key s.cc)
          (values_of key s.cc.values)
          s.pending
          (asked (begin_read flags key s.cc).0 (begin_read flags key s.cc).1)
  read_lem s i = omega (arith, begin_read_lem flags key checks s.cc)

  sample_lem :
      (version : ℕ) (vals : Values) (pending : List Pending) (register : Option String) (began : ℕ)
      (busy : Bool)
      → began ≤ version
      → ((value : String) → register ≡ some value → Has value vals ⊎ Holds value pending)
      → Answered version vals pending (sampled began busy register)
  sample_lem version vals pending none began busy b held = b
  sample_lem version vals pending (some value) began busy b held = (
    b,
    elim (held value refl) [
      | inl has ↦ inl (inl has)
      | inr holds ↦ inl (inr (Holds-nonempty value pending holds))
    ],
  )

  other-Sound :
      (s : Run) (cc : ConsistencyChecker)
      → SameView key s.cc cc
      → Sound key s
      → Sound key (record s { cc = cc })
  other-Sound s cc (values, version, rc) i = record {
    counted = rc ∙ i.counted;
    began = subst (λ n. All (Began n) s.pending) (sym version) i.began;
    held = λ value h.
        subst (λ vals. Has value vals ⊎ Holds value s.pending) (sym values) (i.held value h);
    latest =
        subst (λ n. All (Latest n (length s.pending) s.register) s.pending) (sym version) i.latest;
    answered =
        subst (λ n. Answered n (values_of key cc.values) s.pending s.reading) (sym version)
          (subst (λ vals. Answered (version_of key s.cc) vals s.pending s.reading) (sym values)
            i.answered);
  }

  Turn-Sound : (s t : Run) → Turn flags key s t → Sound key s → Sound key t
  Turn-Sound s t (begin_turn value) i =
      subst
        (λ begun. Sound key (record s {
          cc = begun.0;
          pending =
              record { value = value; initial_version = begun.1; applied = false } ∷ s.pending;
        }))
        (sym (begin_write_lem flags key checks s.cc)) (begin-Sound flags key checks s value i)
  Turn-Sound s t (apply_turn before after p at) i =
      apply-Sound flags key checks s before after p at i
  Turn-Sound s t drop_turn i = drop-Sound flags key checks s i
  Turn-Sound s t (complete_turn before after p failed now maybe definitely cc at taken h) i =
      complete-Sound flags key checks s before after p failed now maybe definitely cc at taken h i
  Turn-Sound s t begin_read_turn i = record {
    counted = i.counted;
    began = i.began;
    held = i.held;
    latest = i.latest;
    answered = read_lem s i;
  }
  Turn-Sound s t (sample_turn version busy at) i =
      let began =
        subst (Answered (version_of key s.cc) (values_of key s.cc.values) s.pending) at
          i.answered in
      record {
        counted = i.counted;
        began = i.began;
        held = i.held;
        latest = i.latest;
        answered =
            sample_lem (version_of key s.cc) (values_of key s.cc.values) s.pending s.register
              version busy began i.held;
      }
  Turn-Sound s t (other_turn cc same) i = other-Sound s cc same i

  Turns-Sound : (s t : Run) → Turns flags key s t → Sound key s → Sound key t
  Turns-Sound s t no_turns i = i
  Turns-Sound s t (then_turn {t = mid} turns turn) i =
      Turn-Sound mid t turn (Turns-Sound s mid turns i)

  -- The start: a new checker, an empty store.
  abbrev pub IsNew : Run → Type 0
  IsNew s = (rc_of key s.cc ≡ pos 0) × (s.register ≡ none) × (s.pending ≡ []) × (s.reading ≡ idle)

  new-Sound : (s : Run) → IsNew s → Sound key s
  new-Sound s (rc, empty, none_pending, no_read) = record {
    counted = rc ∙ ap (λ ps. pos (length ps)) (sym none_pending);
    began = subst (All (Began (version_of key s.cc))) (sym none_pending) tt;
    held = λ value h. absurd (ground (arith, sym empty ∙ h));
    latest =
        subst (λ ps. All (Latest (version_of key s.cc) (length ps) s.register) ps)
          (sym none_pending) tt;
    answered =
        subst (Answered (version_of key s.cc) (values_of key s.cc.values) s.pending) (sym no_read)
          tt;
  }

  -- What the checker may say of a value that was found.
  abbrev pub IsFair : Option Report → Type 0
  IsFair report = (report ≡ none) ⊎ (report ≡ some has_expired)

  judge_found-IsFair :
      (start_time : ℕ) (val : StateValue) (overwritten : Bool)
      → IsFair (judge_found flags start_time (some val) overwritten)
  unfolding judge_found
  judge_found-IsFair start_time val overwritten =
      elim (Bool-cases
        (flags.check_ttl && not val.failed && ltb val.definitely_expired_by start_time)) [
          | inl late ↦ rw (late) (inr refl)
          | inr fresh ↦ rw (fresh) (inl refl)
        ]

  judge-IsFair :
      (now start_time : ℕ) (value : String) (cc : ConsistencyChecker)
      → Has value (values_of key cc.values)
      → IsFair (judge flags now start_time key (some value) cc)
  unfolding judge
  judge-IsFair now start_time value cc (val, there) =
      let overwritten = has_value value (values_of key cc.overwritten_values) in
      subst (λ found. IsFair (judge_found flags start_time found overwritten)) (sym there)
        (judge_found-IsFair start_time val overwritten)

  -- Whether a read is not checked.
  abbrev skips : ℕ → Bool → ConsistencyChecker → Bool
  skips began busy cc = not (version_of key cc == began) || busy || not (is_number 0 (rc_of key cc))

  skipped_lem :
      (now start_time began : ℕ) (busy : Bool) (found : Option String) (cc : ConsistencyChecker)
      → skips began busy cc ≡ true
      → (check_read_correct flags now start_time key found began busy cc).1 ≡ none
  unfolding check_read_correct
  skipped_lem now start_time began busy found cc h = rw (checks, h) refl

  checked_lem :
      (now start_time began : ℕ) (busy : Bool) (found : Option String) (cc : ConsistencyChecker)
      → skips began busy cc ≡ false
      → (check_read_correct flags now start_time key found began busy cc).1
        ≡ judge flags now start_time key found cc
  unfolding check_read_correct
  checked_lem now start_time began busy found cc h = ground arith

  no_number : (n : ℕ) → is_number 0 (pos n) ≡ true → n ≡ 0
  unfolding is_number
  no_number n h = ground arith

  -- Beside a store that is atomic for the key, with any pending, failed, repeated, expiring and deleted writes and
  -- anything done to other keys, a read that found a value and is then checked is never reported as
  -- overwritten or never written.
  pub check_read_correct-IsFair :
      (s t : Run) (now start_time began : ℕ) (busy : Bool) (value : String)
      → IsNew s
      → Turns flags key s t
      → t.reading ≡ sampled began busy (some value)
      → IsFair (check_read_correct flags now start_time key (some value) began busy t.cc).1
  check_read_correct-IsFair s t now start_time began busy value new turns at =
      let i = Turns-Sound s t turns (new-Sound s new) in
      let answered =
        subst (Answered (version_of key t.cc) (values_of key t.cc.values) t.pending) at
          i.answered in
      elim (Bool-cases (skips began busy t.cc)) [
        | inl skipped ↦ inl (skipped_lem now start_time began busy (some value) t.cc skipped)
        | inr checked ↦
            let same : version_of key t.cc ≡ began = ground arith in
            let quiet : length t.pending ≡ 0 =
              no_number (length t.pending)
                (subst (λ n. is_number 0 n ≡ true) i.counted (ground arith)) in
            elim answered.1 [
              | inl (inl has) ↦
                  subst IsFair
                    (sym (checked_lem now start_time began busy (some value) t.cc checked))
                    (judge-IsFair now start_time value t.cc has)
              | inl (inr some_pending) ↦ absurd (omega (arith, some_pending, quiet))
              | inr old ↦ absurd (omega (arith, old, same))
            ]
      ]
