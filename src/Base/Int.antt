-- ===== src/Base/Int.antt =====
-- Go's signed `int`, for values that are stored and compared with small constants.
use Prim.Native.Nat.{ℕ, zero, suc}
use mathlib.Core.Bool.{Bool, true, false}
use evidra_bench.Base.Tests.{eqb}

-- `negsuc n` is -(n + 1).
pub data ℤ : Type 0 where
  pos : ℕ → ℤ
  negsuc : ℕ → ℤ

unfoldable pub is_positive : ℤ → Bool
is_positive (pos zero) = false
is_positive (pos (suc n)) = true
is_positive (negsuc n) = false

unfoldable pub is_one : ℤ → Bool
is_one (pos n) = eqb n 1
is_one (negsuc n) = false
