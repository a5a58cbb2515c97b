-- ===== src/Base/Int.antt =====
-- The `int` values that the source also tests against 0: `negsuc n` is -(n + 1).
use Prim.Native.Nat.{ℕ}

pub data ℤ : Type 0 where
  pos : ℕ → ℤ
  negsuc : ℕ → ℤ
