-- ===== src/Prelude/Int.antt =====
-- Python's integers where a command line can give a negative one. `negsuc n` is -(n + 1).
use Prim.Native.Nat.{ℕ}

pub data ℤ : Type 0 where
  pos : ℕ → ℤ
  negsuc : ℕ → ℤ
