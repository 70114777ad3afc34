-- ===== src/Prelude/Int.antt =====
-- Go's signed integers, of which the program only copies, compares and prints values.
use Prim.Native.Nat.{ℕ}
use mathlib.Core.Bool.{Bool, false}
use package.homelab_operator.Prelude.Tests.{nat_eq}

-- `negsuc n` is -(n + 1).
pub data ℤ : Type 0 where
  pos : ℕ → ℤ
  negsuc : ℕ → ℤ

abbrev pub int_eq : ℤ → ℤ → Bool
int_eq (pos m) (pos n) = nat_eq m n
int_eq (negsuc m) (negsuc n) = nat_eq m n
int_eq _ _ = false
