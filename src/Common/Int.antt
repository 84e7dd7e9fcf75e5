-- ===== src/Common/Int.antt =====
-- The integers, for the three-way comparisons that return a signed number.
use Prim.Native.Nat.{ℕ}

-- `negsuc n` is -(n + 1).
pub data ℤ : Type 0 where
  pos : ℕ → ℤ
  negsuc : ℕ → ℤ
