-- ===== src/Prelude/Int.antt =====
-- C's `int`: integers over the native numbers. Arithmetic that leaves the range of a 32-bit `int`
-- is undefined in C, and has no value here.
use Prim.Native.Nat.{ℕ, zero, suc, ◌+◌, ◌-◌, ◌^◌}
use mathlib.Core.Path.{◌≡◌}
use mathlib.Core.Bool.{Bool, true, false}
use mathlib.Core.Option.{Option, none, some}
use native.Mathlib.Omega.{arith}
use my_apue.Prelude.Tests.{ltb, ◌==◌, if◌then◌else◌}

-- `negsuc n` is -(n + 1).
pub data ℤ : Type 0 where
  pos : ℕ → ℤ
  negsuc : ℕ → ℤ

abbrev pub int_max : ℕ
int_max = 2 ^ 31 - 1

-- The values of errors that the programs return.
abbrev pub minus_one : ℤ
minus_one = negsuc 0

-- `n + 1` and `n - 1` on `int`.
abbrev pub int_suc : ℤ → Option ℤ
int_suc (pos n) = if ltb n int_max then some (pos (n + 1)) else none
int_suc (negsuc zero) = some (pos 0)
int_suc (negsuc (suc n)) = some (negsuc n)

abbrev pub int_pred : ℤ → Option ℤ
int_pred (pos zero) = some (negsuc 0)
int_pred (pos (suc n)) = some (pos n)
int_pred (negsuc n) = if ltb n int_max then some (negsuc (n + 1)) else none

infix 50 ◌==ℤ◌
abbrev pub ◌==ℤ◌ : ℤ → ℤ → Bool
pos a ==ℤ pos b = a == b
pos a ==ℤ negsuc b = false
negsuc a ==ℤ pos b = false
negsuc a ==ℤ negsuc b = a == b

-- `n < 0`
abbrev pub is_neg : ℤ → Bool
is_neg (pos n) = false
is_neg (negsuc n) = true

pub ==ℤ→eq : (a b : ℤ) → (a ==ℤ b) ≡ true → a ≡ b
==ℤ→eq a b h = ground arith

pub ==ℤ_refl : (a : ℤ) → (a ==ℤ a) ≡ true
==ℤ_refl (pos n) = ground arith
==ℤ_refl (negsuc n) = ground arith
