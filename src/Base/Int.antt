-- ===== src/Base/Int.antt =====
-- The values of a C `int`, as far as characters need them: `negsuc n` is -(n + 1).
use Prim.Native.Nat.{ℕ}

pub data ℤ : Type 0 where
  pos : ℕ → ℤ
  negsuc : ℕ → ℤ
