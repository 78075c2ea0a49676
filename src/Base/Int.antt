-- ===== src/Base/Int.antt =====
-- Go's `int` and `time.Duration` where the program tests for negative values.
use Prim.Native.Nat.{ℕ}

-- `negsuc n` is -(n + 1).
pub data ℤ : Type 0 where
  pos : ℕ → ℤ
  negsuc : ℕ → ℤ
