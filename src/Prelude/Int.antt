-- ===== src/Prelude/Int.antt =====
-- The `int` options of the command lines.
use Prim.Native.Nat.{ℕ}
use mathlib.Core.Bool.{Bool, false}
use champsim_infra.Prelude.Tests.{ltb}

-- `negsuc n` is -(n + 1).
pub data ℤ : Type 0 where
  pos : ℕ → ℤ
  negsuc : ℕ → ℤ

-- `z > 0`
abbrev pub is_positive : ℤ → Bool
is_positive (pos n) = ltb 0 n
is_positive (negsuc n) = false
