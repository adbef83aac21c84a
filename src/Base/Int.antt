-- ===== src/Base/Int.antt =====
-- Go's `int` and `int64`, where the source only compares them.
use Prim.Native.Nat.{ℕ, zero, suc, ◌<◌}
use mathlib.Core.Path.{◌≡◌}
use mathlib.Core.Bool.{Bool, true, false}
use native.Mathlib.Omega.{arith}
use felsen_mcp_server_postgr.Base.Order.{leb}

-- `negsuc n` is -(n + 1).
pub data ℤ : Type 0 where
  pos negsuc : ℕ → ℤ

unfoldable pub is_positive : ℤ → Bool
is_positive (pos zero) = false
is_positive (pos (suc n)) = true
is_positive (negsuc n) = false

unfoldable pub is_negative : ℤ → Bool
is_negative (pos n) = false
is_negative (negsuc n) = true

unfoldable pub int_leb : ℤ → ℤ → Bool
int_leb (pos a) (pos b) = leb a b
int_leb (pos a) (negsuc b) = false
int_leb (negsuc a) (pos b) = true
int_leb (negsuc a) (negsuc b) = leb b a

-- A number that is not negative.
unfoldable pub to_nat : ℤ → ℕ
to_nat (pos n) = n
to_nat (negsuc n) = 0

pub is_positive-to_nat : (i : ℤ) → is_positive i ≡ true → 0 < to_nat i
unfolding is_positive to_nat
is_positive-to_nat (pos zero) h = cc
is_positive-to_nat (pos (suc n)) h = omega arith
is_positive-to_nat (negsuc n) h = cc
