-- ===== src/Checker/Writes.antt =====
-- The pending writes of a run, as lists.
use building_distributed_sys.Prelude.{
  suc, ◌<◌, ◌≡◌, refl, List, [], ◌∷◌, ◌++◌, length, length-append, All, ◌⊎◌, inl, inr, String,
  arith,
}
use building_distributed_sys.Checker.Runs.{Pending}

-- Some pending write that the store has taken has this value.
abbrev pub Holds : String → List Pending → Type 0
Holds value [] = ⊥
Holds value (p ∷ ps) = (p.value ≡ value) ⊎ Holds value ps

-- The write in the middle, or one of the others.
pub Holds-middle :
    (value : String) (before after : List Pending) (p : Pending)
    → Holds value (before ++ p ∷ after)
    → (p.value ≡ value) ⊎ Holds value (before ++ after)
Holds-middle value [] after p h = h
Holds-middle value (q ∷ before) after p (inl here) = inr (inl here)
Holds-middle value (q ∷ before) after p (inr there) =
    elim (Holds-middle value before after p there) [
      | inl mine ↦ inl mine
      | inr other ↦ inr (inr other)
    ]

pub Holds-here : (before after : List Pending) (p : Pending) → Holds p.value (before ++ p ∷ after)
Holds-here [] after p = inl refl
Holds-here (q ∷ before) after p = inr (Holds-here before after p)

pub Holds-nonempty : (value : String) (ps : List Pending) → Holds value ps → 0 < length ps
Holds-nonempty value [] h = elim h [ ]
Holds-nonempty value (p ∷ ps) h = omega arith

pub length-middle :
    {A : Type 0} (before after : List A) (p : A)
    → length (before ++ p ∷ after) ≡ suc (length (before ++ after))
length-middle before after p =
    omega (arith, length-append before (p ∷ after), length-append before after)

module _ (P : Pending → Type 0) where
  pub All-middle :
      (before after : List Pending) (p : Pending)
      → All P (before ++ p ∷ after)
      → P p × All P (before ++ after)
  All-middle [] after p h = h
  All-middle (q ∷ before) after p h =
      let (mine, others) = All-middle before after p h.1 in (mine, (h.0, others))

  pub All-fill :
      (before after : List Pending) (p : Pending)
      → P p
      → All P (before ++ after)
      → All P (before ++ p ∷ after)
  All-fill [] after p mine others = (mine, others)
  All-fill (q ∷ before) after p mine others = (others.0, All-fill before after p mine others.1)

  -- What holds of every write if there is one.
  pub All-some : (ps : List Pending) → (0 < length ps → (p : Pending) → P p) → All P ps
  All-some [] h = tt
  All-some (p ∷ ps) h = (h (omega arith) p, All-some ps (λ some_p. h (omega arith)))

pub All-map :
    (P Q : Pending → Type 0) (ps : List Pending) → ((p : Pending) → P p → Q p) → All P ps → All Q ps
All-map P Q [] f h = tt
All-map P Q (p ∷ ps) f h = (f p h.0, All-map P Q ps f h.1)
