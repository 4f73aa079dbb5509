-- ===== src/Prelude/Sums.antt =====
-- Families indexed by number: an update at one index, and sums over the indices below a bound.
use Prim.Native.Nat.{ℕ, zero, suc, ◌+◌, ◌≤◌, ◌<◌}
use mathlib.Core.Path.{◌≡◌, refl}
use mathlib.Core.Bool.{false}
use native.Mathlib.Decide.{dec_lt}
use native.Mathlib.Omega.{arith}
use building_distributed_sys.Prelude.Tests.{◌==◌, if◌then◌else◌}

abbrev pub update {ℓ} : {A : Type ℓ} → (ℕ → A) → ℕ → A → ℕ → A
update f i a j = if i == j then a else f j

pub sum_below : ℕ → (ℕ → ℕ) → ℕ
sum_below zero w = 0
sum_below (suc n) w = sum_below n w + w n

-- Families that agree below the bound have the same sum.
pub sum_below-ext :
    (n : ℕ) (w v : ℕ → ℕ) → ((j : ℕ) → j < n → w j ≡ v j) → sum_below n w ≡ sum_below n v
unfolding sum_below
sum_below-ext zero w v h = refl
sum_below-ext (suc n) w v h =
    omega (arith, h n (omega arith), sum_below-ext n w v (λ j lt. h j (omega arith)))

-- A change at one index below the bound changes the sum by the difference.
pub sum_below-change :
    (n : ℕ) (w v : ℕ → ℕ) (i : ℕ)
    → i < n
    → ((j : ℕ) → (i == j) ≡ false → w j ≡ v j)
    → sum_below n w + v i ≡ sum_below n v + w i
unfolding sum_below
sum_below-change zero w v i lt h = absurd (omega arith)
sum_below-change (suc n) w v i lt h = elim (dec_lt i n) [
  | yes p ↦ omega (arith, sum_below-change n w v i p h, h n (ground arith))
  | no p ↦
      let e : i ≡ n = omega arith in
      rw e (omega (arith, sum_below-ext n w v (λ j q. h j (ground arith))))
]

pub sum_below-zero : (n : ℕ) (w : ℕ → ℕ) → ((j : ℕ) → w j ≡ 0) → sum_below n w ≡ 0
unfolding sum_below
sum_below-zero zero w h = refl
sum_below-zero (suc n) w h = omega (arith, h n, sum_below-zero n w h)

-- Two families that never both count an index have at most the bound together.
pub sum_below-disjoint :
    (n : ℕ) (w v : ℕ → ℕ) → ((j : ℕ) → j < n → w j + v j ≤ 1) → sum_below n w + sum_below n v ≤ n
unfolding sum_below
sum_below-disjoint zero w v h = omega arith
sum_below-disjoint (suc n) w v h =
    omega (arith, h n (omega arith), sum_below-disjoint n w v (λ j lt. h j (omega arith)))
