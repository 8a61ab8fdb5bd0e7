-- ===== src/Base/Int.antt =====
-- C's `int`, and a pointer that may hold an `ERR_PTR`: a negative value is `negsuc n`, for -(n + 1).
use Prim.Native.Nat.{ℕ, zero, suc}
use mathlib.Core.Path.{◌≡◌}
use mathlib.Core.Bool.{Bool, true, false}
use linux_kernel_samples.Base.Tests.{◌==◌, ==_refl}

pub data ℤ : Type 0 where
  pos : ℕ → ℤ
  negsuc : ℕ → ℤ

-- `IS_ERR` of a pointer, and `x < 0` of an `int`.
abbrev pub is_err : ℤ → Bool
is_err (pos n) = false
is_err (negsuc n) = true

-- `!x`, for a null pointer and for 0.
abbrev pub is_zero : ℤ → Bool
is_zero (pos zero) = true
is_zero (pos (suc n)) = false
is_zero (negsuc n) = false

-- Equality of two values.
abbrev pub same_int : ℤ → ℤ → Bool
same_int (pos a) (pos b) = a == b
same_int (negsuc a) (negsuc b) = a == b
same_int (pos a) (negsuc b) = false
same_int (negsuc a) (pos b) = false

pub same_int_refl : (a : ℤ) → same_int a a ≡ true
same_int_refl (pos n) = ==_refl n
same_int_refl (negsuc n) = ==_refl n
