-- ===== src/VideoRec/Run.antt =====
-- How a piece of the services ends: it returns, panics (an index or slice out of range, a division
-- by zero), or is still in its loop when the fuel is used up.
use building_distributed_sys.Prelude.{◌≡◌, refl, arith}

pub data Run {ℓ} (A : Type ℓ) : Type ℓ where
  returned : A → Run A
  panicked : Run A
  looping : Run A

infixl 5 ◌>>=◌
abbrev pub ◌>>=◌ {ℓ κ} : {A : Type ℓ} {B : Type κ} → Run A → (A → Run B) → Run B
returned a >>= f = f a
panicked >>= f = panicked
looping >>= f = looping

-- A chain of two steps that returns has a first step that returns.
pub >>=-eq-returned {ℓ κ} :
    {A : Type ℓ} {B : Type κ} (m : Run A) (f : A → Run B) {b : B}
    → (m >>= f) ≡ returned b
    → (a : A) × (m ≡ returned a) × (f a ≡ returned b)
>>=-eq-returned (returned a) f h = (a, refl, h)
>>=-eq-returned panicked f h = absurd (ground arith)
>>=-eq-returned looping f h = absurd (ground arith)
