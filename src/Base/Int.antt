-- ===== src/Base/Int.antt =====
-- Integers over the native numbers: order, and division rounded down.
use Prim.Native.Nat.{ℕ, suc, ◌-◌, ◌*◌, ◌/◌}
use mathlib.Core.Path.{◌≡◌}
use mathlib.Core.Logic.{◌↔◌}
use mathlib.Core.Bool.{Bool, true, false}
use native.Mathlib.Omega.{arith}
use node_agent_rs.Base.Tests.{leb, ◌==◌, if◌then◌else◌}

-- `negsuc n` is -(n + 1).
pub data ℤ : Type 0 where
  pos : ℕ → ℤ
  negsuc : ℕ → ℤ

-- `left <= right`
abbrev pub int_le : ℤ → ℤ → Bool
int_le (pos m) (pos n) = leb m n
int_le (pos m) (negsuc n) = false
int_le (negsuc m) (pos n) = true
int_le (negsuc m) (negsuc n) = leb n m

abbrev pub int_eq : ℤ → ℤ → Bool
int_eq (pos m) (pos n) = m == n
int_eq (pos m) (negsuc n) = false
int_eq (negsuc m) (pos n) = false
int_eq (negsuc m) (negsuc n) = m == n

pub int_eq_iff : (a b : ℤ) → (int_eq a b ≡ true) ↔ (a ≡ b)
int_eq_iff a b = ground arith

pub int_le_refl : (a : ℤ) → int_le a a ≡ true
int_le_refl (pos n) = ground arith
int_le_refl (negsuc n) = ground arith

pub int_le_total : (a b : ℤ) → int_le a b ≡ false → int_le b a ≡ true
int_le_total a b h = ground arith

pub int_le_trans : (a b c : ℤ) → int_le a b ≡ true → int_le b c ≡ true → int_le a c ≡ true
int_le_trans a b c h k = ground arith

pub int_le_antisymm : (a b : ℤ) → int_le a b ≡ true → int_le b a ≡ true → a ≡ b
int_le_antisymm a b h k = ground arith

abbrev pub int_min : ℤ → ℤ → ℤ
int_min a b = if int_le a b then a else b

abbrev pub int_max : ℤ → ℤ → ℤ
int_max a b = if int_le a b then b else a

-- `div_euclid` by a positive number: the quotient rounded down.
unfoldable pub div_euclid : ℤ → ℕ → ℤ
div_euclid (pos n) d = pos (n / d)
div_euclid (negsuc n) d = negsuc (n / d)

-- Multiplication by a positive number.
unfoldable pub int_mul : ℤ → ℕ → ℤ
int_mul (pos n) d = pos (n * d)
int_mul (negsuc n) d = negsuc (suc n * d - 1)
