-- ===== src/Raft/Log/Laws.antt =====
-- Well-formed logs of raft.go: from index 0 on, each entry at its index. Their reads never panic.
use building_distributed_sys.Prelude.{
  ℕ, zero, suc, ◌+◌, ◌-◌, ◌≤◌, ◌<◌, ◌≡◌, refl, ap, subst, some, List, [], ◌∷◌, ◌++◌, length,
  get_elem?, take, drop, arith,
}
use building_distributed_sys.Raft.State.{done, LogEntry}
use building_distributed_sys.Raft.Log.{
  base_index, offset, entry_at, suffix_from, prefix_to, slice, last_entry, last_log_index,
}

-- Entries with consecutive indices, from `k` on.
abbrev pub Indexed : {C : Type 0} → ℕ → List (LogEntry C) → Type 0
Indexed k [] = Unit
Indexed k (e ∷ es) = (e.index ≡ k) × Indexed (suc k) es

-- A log with the sentinel at index 0.
pub record IsLog {C : Type 0} (log : List (LogEntry C)) : Type 0 where
  pub holds_sentinel : 0 < length log
  pub indexed : Indexed 0 log

module _ {ℓ} {A : Type ℓ} where
  pub get_elem?-append_left :
      (xs ys : List A) (i : ℕ) → i < length xs → get_elem? (xs ++ ys) i ≡ get_elem? xs i
  get_elem?-append_left [] ys i h = absurd (omega arith)
  get_elem?-append_left (x ∷ xs) ys zero h = refl
  get_elem?-append_left (x ∷ xs) ys (suc i) h = get_elem?-append_left xs ys i (omega arith)

  pub get_elem?-append_right :
      (xs ys : List A) (i : ℕ) → get_elem? (xs ++ ys) (length xs + i) ≡ get_elem? ys i
  get_elem?-append_right [] ys i = ap (get_elem? ys) (omega arith)
  get_elem?-append_right (x ∷ xs) ys i =
      let e : suc (length xs) + i ≡ suc (length xs + i) = omega arith in
      rw e (get_elem?-append_right xs ys i)

  pub get_elem?-take :
      (n : ℕ) (xs : List A) (i : ℕ) → i < n → get_elem? (take n xs) i ≡ get_elem? xs i
  get_elem?-take zero xs i h = absurd (omega arith)
  get_elem?-take (suc n) [] i h = refl
  get_elem?-take (suc n) (x ∷ xs) zero h = refl
  get_elem?-take (suc n) (x ∷ xs) (suc i) h = get_elem?-take n xs i (omega arith)

  pub get_elem?-drop :
      (n : ℕ) (xs : List A) (i : ℕ) → get_elem? (drop n xs) i ≡ get_elem? xs (n + i)
  get_elem?-drop zero xs i = ap (get_elem? xs) (omega arith)
  get_elem?-drop (suc n) [] i = refl
  get_elem?-drop (suc n) (x ∷ xs) i =
      let e : suc n + i ≡ suc (n + i) = omega arith in rw e (get_elem?-drop n xs i)

module _ {C : Type 0} where
  pub Indexed-index :
      (k : ℕ) (log : List (LogEntry C)) (i : ℕ) {e : LogEntry C}
      → Indexed k log
      → get_elem? log i ≡ some e
      → e.index ≡ k + i
  Indexed-index k [] i h e = absurd (ground arith)
  Indexed-index k (x ∷ log) zero h e = ground arith
  Indexed-index k (x ∷ log) (suc i) h e = omega (arith, Indexed-index (suc k) log i h.1 e)

  pub Indexed-append :
      (k : ℕ) (xs ys : List (LogEntry C))
      → Indexed k xs
      → Indexed (k + length xs) ys
      → Indexed k (xs ++ ys)
  Indexed-append k [] ys h g = subst (λ j. Indexed j ys) (omega arith) g
  Indexed-append k (x ∷ xs) ys h g =
      (h.0, Indexed-append (suc k) xs ys h.1 (subst (λ j. Indexed j ys) (omega arith) g))

  pub Indexed-take : (k n : ℕ) (log : List (LogEntry C)) → Indexed k log → Indexed k (take n log)
  Indexed-take k zero log h = tt
  Indexed-take k (suc n) [] h = tt
  Indexed-take k (suc n) (x ∷ log) h = (h.0, Indexed-take (suc k) n log h.1)

  pub Indexed-drop :
      (k n : ℕ) (log : List (LogEntry C)) → Indexed k log → Indexed (k + n) (drop n log)
  Indexed-drop k zero log h = subst (λ j. Indexed j log) (omega arith) h
  Indexed-drop k (suc n) [] h = tt
  Indexed-drop k (suc n) (x ∷ log) h =
      subst (λ j. Indexed j (drop n log)) (omega arith) (Indexed-drop (suc k) n log h.1)

  pub base_index_lem : (log : List (LogEntry C)) → IsLog log → base_index log ≡ done 0
  unfolding base_index
  base_index_lem [] h = absurd (omega (arith, h.holds_sentinel))
  base_index_lem (e ∷ log) h = ground (arith, h.indexed)

  -- On a well-formed log an offset is the index itself.
  pub offset_lem : (log : List (LogEntry C)) (i : ℕ) → IsLog log → offset log i ≡ done i
  unfolding offset base_index
  offset_lem [] i h = absurd (omega (arith, h.holds_sentinel))
  offset_lem (e ∷ log) i h = ground (arith, h.indexed)

  pub entry_at_lem :
      (log : List (LogEntry C)) (i : ℕ) {e : LogEntry C}
      → IsLog log
      → get_elem? log i ≡ some e
      → entry_at log i ≡ done e
  unfolding entry_at
  entry_at_lem log i h g = rw (offset_lem log i h) (rw g refl)

  pub suffix_from_lem :
      (log : List (LogEntry C)) (i : ℕ)
      → IsLog log
      → i ≤ length log
      → suffix_from log i ≡ done (drop i log)
  unfolding suffix_from
  suffix_from_lem log i h le = rw (offset_lem log i h) (ground arith)

  pub prefix_to_lem :
      (log : List (LogEntry C)) (i : ℕ)
      → IsLog log
      → i ≤ length log
      → prefix_to log i ≡ done (take i log)
  unfolding prefix_to
  prefix_to_lem log i h le = rw (offset_lem log i h) (ground arith)

  pub slice_lem :
      (log : List (LogEntry C)) (i j : ℕ)
      → IsLog log
      → i ≤ j
      → j ≤ length log
      → slice log i j ≡ done (take (j - i) (drop i log))
  unfolding slice
  slice_lem log i j h le le' = rw (offset_lem log i h, offset_lem log j h) (ground arith)

  pub last_entry_lem :
      (k : ℕ) (log : List (LogEntry C))
      → Indexed k log
      → 0 < length log
      → (e : LogEntry C) × (last_entry log ≡ some e) × (e.index + 1 ≡ k + length log)
  unfolding last_entry
  last_entry_lem k [] h pos = absurd (omega arith)
  last_entry_lem k (e ∷ []) h pos = (e, refl, omega arith)
  last_entry_lem k (e ∷ f ∷ log) h pos =
      let (x, last, i) = last_entry_lem (suc k) (f ∷ log) h.1 (omega arith) in
      (x, last, omega arith)

  -- The last index of a well-formed log is its length less one.
  pub last_log_index_lem :
      (log : List (LogEntry C)) → IsLog log → last_log_index log ≡ done (length log - 1)
  unfolding last_log_index
  last_log_index_lem log h =
      let (x, last, i) = last_entry_lem 0 log h.indexed h.holds_sentinel in
      rw last (ap done (omega arith))
