-- ===== src/Base/Numbers.antt =====
-- Sums that the loops over a number of rounds meet.
use Prim.Native.Nat.{ℕ, suc, ◌+◌}
use mathlib.Core.Path.{◌≡◌}
use native.Mathlib.Omega.{arith}

pub zero_add : (n : ℕ) → 0 + n ≡ n
zero_add n = omega arith

pub suc_add : (n : ℕ) → n + 1 ≡ suc n
suc_add n = omega arith

pub shift : (m n : ℕ) → suc m + n ≡ m + (n + 1)
shift m n = omega arith
