-- ===== src/Raft/Append/Merge.antt =====
-- The entry loop of `AppendEntries`: what it makes of a well-formed log.
use building_distributed_sys.Prelude.{
  ℕ, zero, suc, ◌+◌, ◌≤◌, ◌<◌, ◌≡◌, ◌⊎◌, inl, inr, refl, true, false, not, ap, subst, ◌∙◌, none,
  some, List, [], ◌∷◌, ◌++◌, length, get_elem?, take, length-append, length-take, lt_of_get_elem?,
  Option-cases, Bool-cases, ◌==◌, arith,
}
use building_distributed_sys.Raft.State.{done, LogEntry}
use building_distributed_sys.Raft.Log.Laws.{
  Indexed, IsLog, Indexed-append, Indexed-take, offset_lem, entry_at_lem, prefix_to_lem,
  get_elem?-take, get_elem?-append_left, get_elem?-append_right,
}
use building_distributed_sys.Raft.Append.{conflicts, merge_entries}

-- The log has an entry of the given term at the index.
abbrev pub HasTerm : {C : Type 0} → List (LogEntry C) → ℕ → ℕ → Type 0
HasTerm {C} log i t = (e : LogEntry C) × (get_elem? log i ≡ some e) × (e.term ≡ t)

-- From index `p` on the log has the terms of the entries.
abbrev pub Carries : {C : Type 0} → List (LogEntry C) → ℕ → List (LogEntry C) → Type 0
Carries log p [] = Unit
Carries log p (e ∷ es) = HasTerm log p e.term × Carries log (suc p) es

-- `log'` is `log` with the entries from `p` on merged in.
pub record Merged {C : Type 0} (log : List (LogEntry C)) (p : ℕ) (entries : List (LogEntry C))
    (log' : List (LogEntry C)) : Type 0 where
  pub valid : IsLog log'
  pub keeps_prefix : (i : ℕ) → i < p → get_elem? log' i ≡ get_elem? log i
  pub carries : Carries log' p entries
  pub unchanged : Carries log p entries → log' ≡ log
  pub cut : (log' ≡ log) ⊎ (length log' ≡ p + length entries)
  pub reaches : p + length entries ≤ length log'

module _ {C : Type 0} where
  pub Carries-at :
      (log : List (LogEntry C)) (p : ℕ) (ys : List (LogEntry C))
      → ((i : ℕ) → get_elem? log (p + i) ≡ get_elem? ys i)
      → Carries log p ys
  Carries-at log p [] h = tt
  Carries-at log p (y ∷ ys) h = (
    (y, ap (get_elem? log) (omega arith) ∙ h 0, refl),
    Carries-at log (suc p) ys (λ i. ap (get_elem? log) (omega arith) ∙ h (suc i)),
  )

  -- The log up to `p`, and the entries behind it.
  cut_log :
      (log : List (LogEntry C)) (p : ℕ) (entries : List (LogEntry C))
      → IsLog log
      → 0 < p
      → p ≤ length log
      → Indexed p entries
      → ¬ Carries log p entries
      → Merged log p entries (take p log ++ entries)
  cut_log log p entries h pos le ix differs = record {
    valid = record {
      holds_sentinel = omega (arith, size);
      indexed =
          Indexed-append 0 (take p log) entries (Indexed-take 0 p log h.indexed)
            (subst (λ j. Indexed j entries) (omega (arith, kept)) ix);
    };
    keeps_prefix = λ i lt.
        get_elem?-append_left (take p log) entries i (omega (arith, kept))
        ∙ get_elem?-take p log i lt;
    carries = Carries-at (take p log ++ entries) p entries (λ i.
        ap (get_elem? (take p log ++ entries)) (omega (arith, kept))
        ∙ get_elem?-append_right (take p log) entries i);
    unchanged = λ c. absurd (differs c);
    cut = inr size;
    reaches = omega (arith, size);
  }
    where
      kept : length (take p log) ≡ p
      kept = omega (arith, length-take p log)

      size : length (take p log ++ entries) ≡ p + length entries
      size = omega (arith, kept, length-append (take p log) entries)

  beyond_conflicts :
      (log : List (LogEntry C)) (e : LogEntry C)
      → IsLog log
      → length log ≤ e.index
      → conflicts log e ≡ done true
  unfolding conflicts
  beyond_conflicts log e h le = rw (offset_lem log e.index h) (ground arith)

  old_conflicts :
      (log : List (LogEntry C)) (e old : LogEntry C)
      → IsLog log
      → get_elem? log e.index ≡ some old
      → conflicts log e ≡ done (not (old.term == e.term))
  unfolding conflicts
  old_conflicts log e old h g =
      rw (offset_lem log e.index h)
        (ground (arith, entry_at_lem log e.index h g, lt_of_get_elem? log e.index g))

  merge_cut :
      (log : List (LogEntry C)) (e : LogEntry C) (rest : List (LogEntry C))
      → IsLog log
      → e.index ≤ length log
      → conflicts log e ≡ done true
      → merge_entries log (e ∷ rest) ≡ done (take e.index log ++ e ∷ rest)
  unfolding merge_entries
  merge_cut log e rest h le c = rw (c, prefix_to_lem log e.index h le)

  merge_skip :
      (log : List (LogEntry C)) (e : LogEntry C) (rest : List (LogEntry C))
      → conflicts log e ≡ done false
      → merge_entries log (e ∷ rest) ≡ merge_entries log rest
  unfolding merge_entries
  merge_skip log e rest c = rw c

  length_of_missing : (log : List (LogEntry C)) (p : ℕ) → get_elem? log p ≡ none → length log ≤ p
  length_of_missing [] p h = omega arith
  length_of_missing (x ∷ log) zero h = absurd (ground arith)
  length_of_missing (x ∷ log) (suc p) h = omega (arith, length_of_missing log p h)

  -- The loop returns, with a log that has the entries merged in.
  abbrev Merges : List (LogEntry C) → ℕ → List (LogEntry C) → Type 0
  Merges log p entries =
      (log' : List (LogEntry C)) × (merge_entries log entries ≡ done log')
      × Merged log p entries log'

  merged_cut :
      (log : List (LogEntry C)) (p : ℕ) (e : LogEntry C) (rest : List (LogEntry C))
      → IsLog log
      → 0 < p
      → p ≤ length log
      → Indexed p (e ∷ rest)
      → conflicts log e ≡ done true
      → ¬ Carries log p (e ∷ rest)
      → Merges log p (e ∷ rest)
  merged_cut log p e rest h pos le ix c differs = (
    take p log ++ e ∷ rest,
    subst (λ q. merge_entries log (e ∷ rest) ≡ done (take q log ++ e ∷ rest)) ix.0
        (merge_cut log e rest h (omega arith) c),
    cut_log log p (e ∷ rest) h pos le ix differs,
  )

  skipped :
      (log : List (LogEntry C)) (p : ℕ) (e : LogEntry C) (rest log' : List (LogEntry C))
      (old : LogEntry C)
      → get_elem? log p ≡ some old
      → old.term ≡ e.term
      → Merged log (suc p) rest log'
      → Merged log p (e ∷ rest) log'
  skipped log p e rest log' old found same m = record {
    valid = m.valid;
    keeps_prefix = λ i lt. m.keeps_prefix i (omega arith);
    carries = ((old, m.keeps_prefix p (omega arith) ∙ found, same), m.carries);
    unchanged = λ c. m.unchanged c.1;
    cut = elim m.cut [ inl keep ↦ inl keep | inr size ↦ inr (omega arith) ];
    reaches = omega arith;
  }

  -- On a well-formed log, entries whose indices go on from `p` within the log or at its end are
  -- merged without a panic: the result is well-formed, unchanged below `p`, has the terms of all
  -- the entries, and is the old log if that had them already, else ends with the last entry.
  pub merge_entries_lem :
      (log : List (LogEntry C)) (p : ℕ) (entries : List (LogEntry C))
      → IsLog log
      → 0 < p
      → p ≤ length log
      → Indexed p entries
      → Merges log p entries
  merge_entries_lem log p [] h pos le ix = (
    log,
    unfold merge_entries in refl,
    record {
      valid = h;
      keeps_prefix = λ i lt. refl;
      carries = tt;
      unchanged = λ c. refl;
      cut = inl refl;
      reaches = omega arith;
    },
  )
  merge_entries_lem log p (e ∷ rest) h pos le ix = elim (Option-cases (get_elem? log p)) [
    | inl missing ↦
        merged_cut log p e rest h pos le ix
          (beyond_conflicts log e h (omega (arith, length_of_missing log p missing)))
          (λ c. ground arith)
    | inr (old, found) ↦
        let at_index : get_elem? log e.index ≡ some old = rw ix.0 found in
        let verdict = old_conflicts log e old h at_index in
        elim (Bool-cases (old.term == e.term)) [
          | inl same ↦
              let (log', merges, m) =
                merge_entries_lem log (suc p) rest h (omega arith)
                  (omega (arith, lt_of_get_elem? log p found)) ix.1 in
              (
                log',
                merge_skip log e rest (rw same at verdict) ∙ merges,
                skipped log p e rest log' old found (ground arith) m,
              )
          | inr other ↦
              merged_cut log p e rest h pos le ix (rw other at verdict) (λ c. ground arith)
        ]
  ]
