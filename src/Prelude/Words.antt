-- ===== src/Prelude/Words.antt =====
-- Go's arithmetic on machine integers, as bit patterns: `uint64` and `int64`, `int32`.
use Prim.Native.Nat.{ℕ, ◌+◌, ◌%◌, ◌^◌}

abbrev pub add64 : ℕ → ℕ → ℕ
add64 a b = (a + b) % 2 ^ 64

abbrev pub add32 : ℕ → ℕ → ℕ
add32 a b = (a + b) % 2 ^ 32
