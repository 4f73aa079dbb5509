-- ===== src/Kv/Partial.antt =====
-- Code of lab4/kv that can panic: `none` is a panic (a nil pointer, a division by zero, an index
-- out of range).
use building_distributed_sys.Prelude.{Option, none, some}

infixl 5 ◌>>=◌
abbrev pub ◌>>=◌ {ℓ κ} : {A : Type ℓ} {B : Type κ} → Option A → (A → Option B) → Option B
none >>= f = none
some a >>= f = f a
