-- ===== src/Prelude/Int.antt =====
-- Python's integers where a value may be negative, over the native numbers.
use Prim.Native.Nat.{ℕ, zero, suc}
use mathlib.Core.Bool.{Bool, true}
use de_framework.Prelude.Tests.{ltb}

-- `negsuc n` is -(n + 1).
pub data ℤ : Type 0 where
  pos : ℕ → ℤ
  negsuc : ℕ → ℤ

-- n - 1, which is negative at 0.
abbrev pub pred_ℤ : ℕ → ℤ
pred_ℤ zero = negsuc 0
pred_ℤ (suc n) = pos n

-- n > z
abbrev pub exceeds : ℕ → ℤ → Bool
exceeds n (pos t) = ltb t n
exceeds n (negsuc t) = true
