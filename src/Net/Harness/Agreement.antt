-- ===== src/Net/Harness/Agreement.antt =====
-- The logs that the harness collects agree as long as it reports no error.
use building_distributed_sys.Prelude.{
  ℕ, zero, suc, ◌+◌, ◌<◌, ◌≡◌, refl, ◌∙◌, sym, ap, subst, Bool, true, false, max, Bool-cases,
  Option-cases, Option, none, some, List, [], ◌∷◌, ◌==◌, ==_iff, ◌⊎◌, ◌↔◌, inl, inr, arith,
}
use building_distributed_sys.Prelude.Maps.{lookup, insert, nat_eq, lookup-insert}
use building_distributed_sys.Net.Harness.{
  Config, put, disagrees, n_committed, check_logs, apply_msg,
}

none_or_some : {A : Type 0} {a : A} → none ≡ some a → ⊥
none_or_some h = ground (arith, h)

module _ {Command : Type 0} (same : Command → Command → Bool)
    (same_iff : (a b : Command) → (same a b ≡ true) ↔ (a ≡ b)) where
  -- Two peers below a number that have applied an index have applied the same command there.
  abbrev pub Agree : ℕ → (ℕ → List (ℕ × Command)) → Type 0
  Agree n logs =
      (i j index : ℕ) (a b : Command)
      → i < n
      → j < n
      → lookup index (logs i) ≡ some a
      → lookup index (logs j) ≡ some b
      → a ≡ b

  disagrees_lem :
      (index : ℕ) (v : Command) (logs : ℕ → List (ℕ × Command)) (k j : ℕ) (old : Command)
      → disagrees same index v logs k ≡ false
      → j < k
      → lookup index (logs j) ≡ some old
      → old ≡ v
  unfolding disagrees
  disagrees_lem index v logs zero j old h below has = absurd (omega arith)
  disagrees_lem index v logs (suc k) j old h below has = elim (Bool-cases (j == k)) [
    | inl last ↦
        let has_k = subst (λ i. lookup index (logs i) ≡ some old) ((==_iff j k).0 last) has in
        (same_iff old v).0 (ground arith)
    | inr earlier ↦ disagrees_lem index v logs k j old (ground arith) (ground arith) has
  ]

  -- An entry of the new logs is the one that came, or was there.
  entry_lem :
      (i index x at : ℕ) (v a : Command) (logs : ℕ → List (ℕ × Command))
      → lookup at (put i (insert index v (logs i)) logs x) ≡ some a
      → ((at ≡ index) × (a ≡ v)) ⊎ (lookup at (logs x) ≡ some a)
  unfolding put
  entry_lem i index x at v a logs has = elim (Bool-cases (i == x)) [
    | inr other ↦ inr (ground arith)
    | inl mine ↦
        let x_is : i ≡ x = (==_iff i x).0 mine in
        let there = lookup-insert index at v (logs i) in
        elim (Bool-cases (index == at)) [
          | inl here ↦ inl (sym ((==_iff index at).0 here), ground arith)
          | inr elsewhere ↦
              let kept : lookup at (logs i) ≡ some a = ground arith in
              inr (subst (λ j. lookup at (logs j) ≡ some a) x_is kept)
        ]
  ]

  put_log-Agree :
      (n i index : ℕ) (v : Command) (logs : ℕ → List (ℕ × Command))
      → Agree n logs
      → ((j : ℕ) (old : Command) → j < n → lookup index (logs j) ≡ some old → old ≡ v)
      → Agree n (put i (insert index v (logs i)) logs)
  put_log-Agree n i index v logs agree fits x y at a b x_below y_below has_x has_y =
      let entry_x = entry_lem i index x at v a logs has_x in
      let entry_y = entry_lem i index y at v b logs has_y in
      elim entry_x [
        | inl (at_x, is_x) ↦ elim entry_y [
          | inl (at_y, is_y) ↦ is_x ∙ sym is_y
          | inr old_y ↦
              is_x ∙ sym (fits y b y_below (subst (λ k. lookup k (logs y) ≡ some b) at_x old_y))
        ]
        | inr old_x ↦ elim entry_y [
          | inl (at_y, is_y) ↦
              fits x a x_below (subst (λ k. lookup k (logs x) ≡ some a) at_y old_x) ∙ sym is_y
          | inr old_y ↦ agree x y at a b x_below y_below old_x old_y
        ]
      ]

  -- Where the logs agree, the count of `nCommitted` does not stop, and its command is that of every peer
  -- that has the index.
  abbrev Counts : ℕ → ℕ → (ℕ → List (ℕ × Command)) → Option Command → Type 0
  Counts index k logs cmd =
      (j : ℕ) (v : Command) → j < k → lookup index (logs j) ≡ some v → cmd ≡ some v

  pub n_committed_lem :
      (index n k : ℕ) (logs : ℕ → List (ℕ × Command))
      → Agree n logs
      → k < suc n
      → (count : ℕ) × (cmd : Option Command) × (n_committed same index logs k ≡ some (count, cmd))
        × Counts index k logs cmd
        × ((v : Command) → cmd ≡ some v → (j : ℕ) × (j < n) × (lookup index (logs j) ≡ some v))
  unfolding n_committed
  n_committed_lem index n zero logs agree within =
      (0, none, refl, λ j v below h. absurd (omega arith), λ v h. absurd (ground (arith, h)))
  n_committed_lem index n (suc k) logs agree within =
      let (count, cmd, done, counts, source) = n_committed_lem index n k logs agree (omega arith) in
      elim (Option-cases (lookup index (logs k))) [
        | inl nothing ↦ (
          count,
          cmd,
          ground arith,
          λ j v below h. elim (Bool-cases (j == k)) [
            | inl last ↦ absurd (
                none_or_some (
                  sym nothing
                  ∙ subst (λ i. lookup index (logs i) ≡ some v) ((==_iff j k).0 last) h))
            | inr earlier ↦ counts j v (ground arith) h
          ],
          source,
        )
        | inr (cmd1, has) ↦ elim (Option-cases cmd) [
          | inl first ↦ (
            count + 1,
            some cmd1,
            ground arith,
            λ j v below h. ap some (agree k j index cmd1 v (omega arith) (omega arith) has h),
            λ v h. (k, omega arith, has ∙ h),
          )
          | inr (cmd0, later) ↦
              let (j, j_below, j_has) = source cmd0 later in
              let agreed : same cmd0 cmd1 ≡ true =
                (same_iff cmd0 cmd1).1
                  (agree j k index cmd0 cmd1 j_below (omega arith) j_has has) in
              (
                count + 1,
                some cmd1,
                ground arith,
                λ j1 v below h. ap some (agree k j1 index cmd1 v (omega arith) (omega arith) has h),
                λ v h. (k, omega arith, has ∙ h),
              )
        ]
      ]

module _ {World Command : Type 0} (same : Command → Command → Bool)
    (same_iff : (a b : Command) → (same a b ≡ true) ↔ (a ≡ b)) where
  apply_msg_lem :
      (i index : ℕ) (v : Command) (cfg next : Config World Command)
      → apply_msg same i index v cfg ≡ some next
      → (disagrees same index v cfg.logs cfg.n ≡ false)
        × (record cfg {
          logs = put i (insert index v (cfg.logs i)) cfg.logs;
          max_index = max cfg.max_index index;
        }
            ≡ next)
  unfolding apply_msg check_logs
  apply_msg_lem i index v cfg next h = ground arith

  -- Messages of peers below `n` that are applied one after the other.
  abbrev pub apply_all :
      List (ℕ × ℕ × Command) → Config World Command → Option (Config World Command)
  apply_all [] cfg = some cfg
  apply_all ((i, index, v) ∷ msgs) cfg = elim (apply_msg same i index v cfg) [
    | none ↦ none
    | some next ↦ apply_all msgs next
  ]

  kept-Agree :
      (msgs : List (ℕ × ℕ × Command)) (cfg after : Config World Command)
      → Agree same same_iff cfg.n cfg.logs
      → apply_all msgs cfg ≡ some after
      → Agree same same_iff after.n after.logs
  kept-Agree [] cfg after agree h =
      let same_cfg : cfg ≡ after = ground arith in
      subst (λ c. Agree same same_iff c.n c.logs) same_cfg agree
  kept-Agree ((i, index, v) ∷ msgs) cfg after agree h =
      elim (Option-cases (apply_msg same i index v cfg)) [
        | inl failed ↦ absurd (ground arith)
        | inr (next, done) ↦
            let (fits, same_next) = apply_msg_lem i index v cfg next done in
            let later : apply_all msgs next ≡ some after = ground arith in
            kept-Agree msgs next after
              (subst (λ c. Agree same same_iff c.n c.logs) same_next
                (put_log-Agree same same_iff cfg.n i index v cfg.logs agree (λ j old below has.
                  disagrees_lem same same_iff index v cfg.logs cfg.n j old fits below has)))
              later
      ]

  -- As long as no message is reported, the peers' logs agree; `nCommitted` then never stops a test, and the
  -- command that it returns is the one that every peer with the index has applied.
  pub apply_all-Agree :
      (msgs : List (ℕ × ℕ × Command)) (cfg after : Config World Command)
      → Agree same same_iff cfg.n cfg.logs
      → apply_all msgs cfg ≡ some after
      → Agree same same_iff after.n after.logs
        × ((index : ℕ)
            → (count : ℕ) × (cmd : Option Command) × (n_committed same index after.logs after.n
                ≡ some (count, cmd))
              × ((j : ℕ) (v : Command)
                  → j < after.n
                  → lookup index (after.logs j) ≡ some v
                  → cmd ≡ some v))
  apply_all-Agree msgs cfg after agree h =
      let agreed = kept-Agree msgs cfg after agree h in
      (
        agreed,
        λ index.
            let (count, cmd, done, counts, source) =
              n_committed_lem same same_iff index after.n after.n after.logs agreed (omega arith) in
            (count, cmd, done, counts),
      )
