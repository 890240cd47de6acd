-- ===== src/Base/Int.antt =====
-- Go's `int64`: an integer, with the wrap-around of its successor written out.
use Prim.Native.Nat.{ℕ, zero, suc, ◌+◌, ◌-◌, ◌^◌, ◌<◌, ◌≤◌}
use mathlib.Core.Path.{◌≡◌}
use mathlib.Core.Logic.{◌↔◌}
use mathlib.Core.Bool.{Bool, true, false}
use native.Mathlib.Omega.{arith}
use vive_cserver.Base.Bools.{◌==◌, if◌then◌else◌}

-- `negsuc n` is -(n + 1).
pub data ℤ : Type 0 where
  pos : ℕ → ℤ
  negsuc : ℕ → ℤ

abbrev pub max_int64 : ℕ
max_int64 = 2 ^ 63 - 1

abbrev pub int_eq : ℤ → ℤ → Bool
int_eq (pos m) (pos n) = m == n
int_eq (negsuc m) (negsuc n) = m == n
int_eq _ _ = false

abbrev pub is_negative : ℤ → Bool
is_negative (pos n) = false
is_negative (negsuc n) = true

abbrev pub is_zero : ℤ → Bool
is_zero x = int_eq x (pos 0)

-- `x + 1` on an int64; the largest value wraps to the smallest.
unfoldable pub inc_int64 : ℤ → ℤ
inc_int64 (pos n) = if n == max_int64 then negsuc max_int64 else pos (n + 1)
inc_int64 (negsuc zero) = pos 0
inc_int64 (negsuc (suc n)) = negsuc n

pub inc_int64-pos : (n : ℕ) → n < max_int64 → inc_int64 (pos n) ≡ pos (n + 1)
unfolding inc_int64
inc_int64-pos n h = ground arith

pub int_eq_iff : (x y : ℤ) → (int_eq x y ≡ true) ↔ (x ≡ y)
int_eq_iff (pos m) (pos n) = ground arith
int_eq_iff (pos m) (negsuc n) = ground arith
int_eq_iff (negsuc m) (pos n) = ground arith
int_eq_iff (negsuc m) (negsuc n) = ground arith

-- m - n, which may be negative
abbrev pub sub_nat : ℕ → ℕ → ℤ
sub_nat m zero = pos m
sub_nat zero (suc n) = negsuc n
sub_nat (suc m) (suc n) = sub_nat m n

infixl 60 ◌+ℤ◌
abbrev pub ◌+ℤ◌ : ℤ → ℤ → ℤ
pos m +ℤ pos n = pos (m + n)
pos m +ℤ negsuc n = sub_nat m (suc n)
negsuc m +ℤ pos n = sub_nat n (suc m)
negsuc m +ℤ negsuc n = negsuc (suc (m + n))

abbrev pub negate : ℤ → ℤ
negate (pos zero) = pos zero
negate (pos (suc n)) = negsuc n
negate (negsuc n) = pos (suc n)

pub sub_nat-le : (m n : ℕ) → n ≤ m → sub_nat m n ≡ pos (m - n)
sub_nat-le m zero h = ground arith
sub_nat-le zero (suc n) h = absurd (omega (arith, h))
sub_nat-le (suc m) (suc n) h = ground (arith, h, sub_nat-le m n)

pub +ℤ_sub : (m n : ℕ) → n ≤ m → pos m +ℤ negate (pos n) ≡ pos (m - n)
+ℤ_sub m zero h = ground arith
+ℤ_sub m (suc n) h = sub_nat-le m (suc n) h
