-- ===== src/Net/Harness/Links.antt =====
-- What the loops of `connect` and `disconnect` do to one end.
use building_distributed_sys.Prelude.{
  ℕ, zero, suc, ◌<◌, ◌≡◌, refl, ◌∙◌, sym, ap, subst, Bool, true, false, Bool-cases, Option-cases,
  Option, some, ◌==◌, ==_iff, ◌⊎◌, inl, inr, if◌then◌else◌, arith,
}
use building_distributed_sys.Prelude.Maps.{lookup, nat_eq, lookup-insert}
use building_distributed_sys.Net.Network.{Network, enable, or_false}
use building_distributed_sys.Net.Harness.{enable_ends, disable_end, disable_ends}

some_same : {a b : ℕ} → some a ≡ some b → a ≡ b
some_same h = ground arith

true_or_false : (b : Bool) → b ≡ true → b ≡ false → ⊥
true_or_false b t f = ground arith

both_up : (b up : Bool) → up ≡ true → (if b then true else up) ≡ true
both_up b up h = ground arith

both_down : (b up : Bool) → up ≡ false → (if b then false else up) ≡ false
both_down b up h = ground arith

below_last : (j k : ℕ) → j < suc k → (j == k) ≡ false → j < k
below_last j k below differ = ground arith

not_last :
    (j k name end : ℕ) (ends : ℕ → Option ℕ)
    → ends j ≡ some name
    → ends k ≡ some end
    → (end == name) ≡ false
    → (j == k) ≡ false
not_last j k name end ends named named_k miss = elim (Bool-cases (j == k)) [
  | inr differ ↦ differ
  | inl same ↦ absurd (
      true_or_false (end == name)
        ((==_iff end name).1
          (some_same (sym named_k ∙ ap ends (sym ((==_iff j k).0 same)) ∙ named)))
        miss)
]

module _ {World : Type 0} where
  -- Whether an end of this name is enabled.
  abbrev pub is_up : ℕ → Network World → Bool
  is_up name net = or_false (lookup name net.enabled)

  is_up-enable :
      (name end : ℕ) (up : Bool) (net : Network World)
      → is_up name (enable end up net) ≡ (if end == name then up else is_up name net)
  unfolding enable or_false
  is_up-enable name end up net =
      ap or_false (lookup-insert end name up net.enabled) ∙ (ground arith)

  enable_same : (name : ℕ) (up : Bool) (net : Network World) → is_up name (enable name up net) ≡ up
  enable_same name up net =
      is_up-enable name name up net
      ∙ ap (λ b. if b then up else is_up name net) ((==_iff name name).1 refl)

  enable_other :
      (name end : ℕ) (up : Bool) (net : Network World)
      → (end ≡ name → ⊥)
      → is_up name (enable end up net) ≡ is_up name net
  enable_other name end up net other = elim (Bool-cases (end == name)) [
    | inl same ↦ absurd (other ((==_iff end name).0 same))
    | inr differ ↦ is_up-enable name end up net ∙ ap (λ b. if b then up else is_up name net) differ
  ]

  enable_down :
      (name end : ℕ) (net : Network World)
      → is_up name net ≡ false
      → is_up name (enable end false net) ≡ false
  enable_down name end net down =
      is_up-enable name end false net ∙ both_down (end == name) (is_up name net) down

  -- One round of the loop.
  abbrev Round : (ℕ → Option ℕ) → (ℕ → Bool) → ℕ → Network World → Network World → Type 0
  Round ends only k before after =
      ((only k ≡ false) × (before ≡ after))
      ⊎ ((name : ℕ) × (only k ≡ true) × (ends k ≡ some name) × (enable name true before ≡ after))

  enable-Round :
      (ends : ℕ → Option ℕ) (only : ℕ → Bool) (k : ℕ) (net after : Network World)
      → enable_ends ends only (suc k) net ≡ some after
      → (before : Network World) × (enable_ends ends only k net ≡ some before)
        × Round ends only k before after
  unfolding enable_ends
  enable-Round ends only k net after h = elim (Option-cases (enable_ends ends only k net)) [
    | inl failed ↦ absurd (ground arith)
    | inr (before, done) ↦ (
      before,
      done,
      elim (Bool-cases (only k)) [
        | inr off ↦ inl (off, ground arith)
        | inl on ↦ elim (Option-cases (ends k)) [
          | inl nameless ↦ absurd (ground arith)
          | inr (name, named) ↦ inr (name, on, named, ground arith)
        ]
      ],
    )
  ]

  -- An end that the loop does not name stays as it is.
  pub enable_ends-other :
      (name : ℕ) (ends : ℕ → Option ℕ) (only : ℕ → Bool) (k : ℕ) (net after : Network World)
      → ((j : ℕ) → j < k → only j ≡ true → ends j ≡ some name → ⊥)
      → enable_ends ends only k net ≡ some after
      → is_up name after ≡ is_up name net
  unfolding enable_ends
  enable_ends-other name ends only zero net after other h =
      let same : net ≡ after = ground arith in ap (is_up name) (sym same)
  enable_ends-other name ends only (suc k) net after other h =
      let (before, done, round) = enable-Round ends only k net after h in
      let rest =
        enable_ends-other name ends only k net before (λ j below. other j (omega arith)) done in
      elim round [
        | inl (off, same) ↦ ap (is_up name) (sym same) ∙ rest
        | inr (end, on, named, same) ↦
            ap (is_up name) (sym same)
            ∙ enable_other name end true before (λ e. other k (omega arith) on (named ∙ ap some e))
            ∙ rest
      ]

  -- An end that the loop names is enabled.
  pub enable_ends-named :
      (name : ℕ) (ends : ℕ → Option ℕ) (only : ℕ → Bool) (k j : ℕ) (net after : Network World)
      → j < k
      → only j ≡ true
      → ends j ≡ some name
      → enable_ends ends only k net ≡ some after
      → is_up name after ≡ true
  enable_ends-named name ends only zero j net after below on named h = absurd (omega arith)
  enable_ends-named name ends only (suc k) j net after below on named h =
      let (before, done, round) = enable-Round ends only k net after h in
      elim round [
        | inl (off, same) ↦ elim (Bool-cases (j == k)) [
          | inl last ↦
              absurd
                (true_or_false (only k) (subst (λ i. only i ≡ true) ((==_iff j k).0 last) on) off)
          | inr earlier ↦
              ap (is_up name) (sym same)
              ∙ enable_ends-named name ends only k j net before (below_last j k below earlier) on
                  named done
        ]
        | inr (end, on_k, named_k, same) ↦ elim (Bool-cases (end == name)) [
          | inl hit ↦
              ap (is_up name) (sym same)
              ∙ subst (λ e. is_up name (enable e true before) ≡ true)
                  (sym ((==_iff end name).0 hit)) (enable_same name true before)
          | inr miss ↦
              ap (is_up name) (sym same)
              ∙ enable_other name end true before
                  (λ e. true_or_false (end == name) ((==_iff end name).1 e) miss)
              ∙ enable_ends-named name ends only k j net before
                  (below_last j k below (not_last j k name end ends named named_k miss)) on named
                  done
        ]
      ]

  pub disable_ends-other :
      (name : ℕ) (ends : ℕ → Option ℕ) (k : ℕ) (net : Network World)
      → ((j : ℕ) → j < k → ends j ≡ some name → ⊥)
      → is_up name (disable_ends ends k net) ≡ is_up name net
  unfolding disable_ends disable_end
  disable_ends-other name ends zero net other = refl
  disable_ends-other name ends (suc k) net other =
      let rest = disable_ends-other name ends k net (λ j below. other j (omega arith)) in
      elim (Option-cases (ends k)) [
        | inl nameless ↦
            ap (λ e. is_up name (disable_end e (disable_ends ends k net))) nameless ∙ rest
        | inr (end, named) ↦
            ap (λ e. is_up name (disable_end e (disable_ends ends k net))) named
            ∙ (enable_other name end false (disable_ends ends k net)
                  (λ e. other k (omega arith) (named ∙ ap some e))
                ∙ rest)
      ]

  -- An end that is down stays down, and one that the loop names goes down.
  pub disable_ends-down :
      (name : ℕ) (ends : ℕ → Option ℕ) (k : ℕ) (net : Network World)
      → is_up name net ≡ false
      → is_up name (disable_ends ends k net) ≡ false
  unfolding disable_ends disable_end
  disable_ends-down name ends zero net down = down
  disable_ends-down name ends (suc k) net down =
      let rest = disable_ends-down name ends k net down in
      elim (Option-cases (ends k)) [
        | inl nameless ↦
            ap (λ e. is_up name (disable_end e (disable_ends ends k net))) nameless ∙ rest
        | inr (end, named) ↦
            ap (λ e. is_up name (disable_end e (disable_ends ends k net))) named
            ∙ (enable_down name end (disable_ends ends k net) rest)
      ]

  pub disable_ends-named :
      (name : ℕ) (ends : ℕ → Option ℕ) (k j : ℕ) (net : Network World)
      → j < k
      → ends j ≡ some name
      → is_up name (disable_ends ends k net) ≡ false
  unfolding disable_ends disable_end
  disable_ends-named name ends zero j net below named = absurd (omega arith)
  disable_ends-named name ends (suc k) j net below named = elim (Bool-cases (j == k)) [
    | inl last ↦
        ap (λ e. is_up name (disable_end e (disable_ends ends k net)))
          (subst (λ i. ends i ≡ some name) ((==_iff j k).0 last) named)
        ∙ (enable_same name false (disable_ends ends k net))
    | inr earlier ↦
        let rest = disable_ends-named name ends k j net (below_last j k below earlier) named in
        elim (Option-cases (ends k)) [
          | inl nameless ↦
              ap (λ e. is_up name (disable_end e (disable_ends ends k net))) nameless ∙ rest
          | inr (end, end_named) ↦
              ap (λ e. is_up name (disable_end e (disable_ends ends k net))) end_named
              ∙ (enable_down name end (disable_ends ends k net) rest)
        ]
  ]

  pub enable_ends-up :
      (name : ℕ) (ends : ℕ → Option ℕ) (only : ℕ → Bool) (k : ℕ) (net after : Network World)
      → is_up name net ≡ true
      → enable_ends ends only k net ≡ some after
      → is_up name after ≡ true
  unfolding enable_ends
  enable_ends-up name ends only zero net after up h =
      let same : net ≡ after = ground arith in ap (is_up name) (sym same) ∙ up
  enable_ends-up name ends only (suc k) net after up h =
      let (before, done, round) = enable-Round ends only k net after h in
      let rest = enable_ends-up name ends only k net before up done in
      elim round [
        | inl (off, same) ↦ ap (is_up name) (sym same) ∙ rest
        | inr (end, on, named, same) ↦
            ap (is_up name) (sym same)
            ∙ is_up-enable name end true before
            ∙ both_up (end == name) (is_up name before) rest
      ]

  -- The loop returns where every peer has names.
  pub enable_ends-returns :
      (ends : ℕ → Option ℕ) (only : ℕ → Bool) (k : ℕ) (net : Network World)
      → ((j : ℕ) → j < k → (name : ℕ) × (ends j ≡ some name))
      → (after : Network World) × (enable_ends ends only k net ≡ some after)
  unfolding enable_ends
  enable_ends-returns ends only zero net named = (net, refl)
  enable_ends-returns ends only (suc k) net named =
      let (before, done) = enable_ends-returns ends only k net (λ j below. named j (omega arith)) in
      let (name, has) = named k (omega arith) in
      elim (Bool-cases (only k)) [
        | inl on ↦ (enable name true before, ground arith)
        | inr off ↦ (before, ground arith)
      ]
