-- ===== src/VideoRec/Ranker.antt =====
-- cs426-fall24/lab1/ranker/ranker.go: the score of a video for a user.
use mathlib.Core.List.{Perm, foldr}
use native.Mathlib.Nat.{ℕ_set}
use mathlib.Core.List.Perm
use building_distributed_sys.Prelude.{
  add64, ℕ, ◌+◌, ◌-◌, ◌*◌, ◌%◌, ◌^◌, ◌≡◌, refl, ◌∙◌, ap, sym, Option-cases, inl, inr, Option, none,
  some, List, [], ◌∷◌, arith,
}
use building_distributed_sys.Prelude.Maps.{nat_eq, lookup}

-- The coefficients by feature; a feature id is an int32, as its bit pattern.
abbrev pub Coeffs : Type 0
Coeffs = List (ℕ × ℕ)

-- The loop of `Rank` over the user's coefficients, in one of the orders in which Go may visit them.
unfoldable pub dot_product : ℕ → Coeffs → Coeffs → ℕ
dot_product sum [] video = sum
dot_product sum ((feature, coeff) ∷ rest) video = elim (lookup feature video) [
  | none ↦ dot_product sum rest video
  | some other ↦ dot_product (add64 sum (coeff * other % 2 ^ 64)) rest video
]

-- `costHash`; `sum32` stands for hash/fnv of the printed number, and `MinCost` is 1.
unfoldable pub cost_hash : (ℕ → ℕ) → ℕ → ℕ
cost_hash sum32 id = sum32 id % (4 - 1) + 1

-- `BcryptRanker.Rank`. `bcrypt` stands for det_bcrypt of the printed number at a cost, and hash/fnv.
unfoldable pub rank : (ℕ → ℕ) → (ℕ → ℕ → ℕ) → Coeffs → Coeffs → ℕ
rank sum32 bcrypt user video =
    let product = dot_product 0 user video in bcrypt product (cost_hash sum32 product)

-- One feature of the user.
abbrev step : Coeffs → ℕ × ℕ → ℕ → ℕ
step video (feature, coeff) sum = elim (lookup feature video) [
  | none ↦ sum
  | some other ↦ add64 sum (coeff * other % 2 ^ 64)
]

add64_comm : (sum a b : ℕ) → add64 (add64 sum a) b ≡ add64 (add64 sum b) a
add64_comm sum a b = omega arith

step_comm :
    (video : Coeffs) (a b : ℕ × ℕ) (sum : ℕ)
    → step video a (step video b sum) ≡ step video b (step video a sum)
step_comm video (f, c) (g, d) sum = go (lookup f video) (lookup g video) refl refl
  where
    go :
        (x y : Option ℕ)
        → lookup f video ≡ x
        → lookup g video ≡ y
        → step video (f, c) (step video (g, d) sum) ≡ step video (g, d) (step video (f, c) sum)
    go none y p q = ground arith
    go (some u) none p q = ground arith
    go (some u) (some v) p q = ground (arith, add64_comm sum (d * v % 2 ^ 64) (c * u % 2 ^ 64))

dot_product-cons :
    (video rest : Coeffs) (a : ℕ × ℕ) (sum : ℕ)
    → dot_product sum (a ∷ rest) video ≡ dot_product (step video a sum) rest video
unfolding dot_product
dot_product-cons video rest (f, c) sum = elim (Option-cases (lookup f video)) [
  | inl gone ↦ ground arith
  | inr (other, there) ↦ ground arith
]

dot_product-step :
    (video rest : Coeffs) (a : ℕ × ℕ) (sum : ℕ)
    → dot_product (step video a sum) rest video ≡ step video a (dot_product sum rest video)
unfolding dot_product
dot_product-step video [] a sum = refl
dot_product-step video (b ∷ rest) a sum =
    dot_product-cons video rest b (step video a sum)
    ∙ ap (λ x. dot_product x rest video) (step_comm video b a sum)
    ∙ dot_product-step video rest a (step video b sum)
    ∙ ap (step video a) (sym (dot_product-cons video rest b sum))

dot_product-foldr :
    (video user : Coeffs) (sum : ℕ) → dot_product sum user video ≡ foldr (step video) sum user
unfolding dot_product
dot_product-foldr video [] sum = refl
dot_product-foldr video (a ∷ rest) sum =
    dot_product-cons video rest a sum
    ∙ dot_product-step video rest a sum
    ∙ ap (step video a) (dot_product-foldr video rest sum)

-- The score is the same in whatever order Go visits the user's coefficients, wrap-around included.
pub rank-perm :
    (sum32 : ℕ → ℕ) (bcrypt : ℕ → ℕ → ℕ) (user user' video : Coeffs)
    → Perm user user'
    → rank sum32 bcrypt user video ≡ rank sum32 bcrypt user' video
unfolding rank
rank-perm sum32 bcrypt user user' video same =
    ap (λ product. bcrypt product (cost_hash sum32 product))
      (dot_product-foldr video user 0
        ∙ Perm.foldr-eq ℕ_set (step video) (step_comm video) same 0
        ∙ sym (dot_product-foldr video user' 0))
