-- ===== src/Prelude/Int.antt =====
-- C++ `int` values as integers; the program stores and compares them.
use Prim.Native.Nat.{ℕ}
use mathlib.Core.Bool.{Bool, false}
use lynne_social.Prelude.Tests.{◌==◌}

-- `negsuc n` is -(n + 1).
pub data ℤ : Type 0 where
  pos : ℕ → ℤ
  negsuc : ℕ → ℤ

-- operator== on int
unfoldable pub int_eq : ℤ → ℤ → Bool
int_eq (pos a) (pos b) = a == b
int_eq (negsuc a) (negsuc b) = a == b
int_eq _ _ = false
