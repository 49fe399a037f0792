-- ===== src/Prelude/Int.antt =====
-- `int64_t` and `int` values: integers, as the program compares and passes them on.
use Prim.Native.Nat.{ℕ, ◌<◌, ◌^◌, compare, Ordering}
use mathlib.Core.Path.{◌≡◌}
use mathlib.Core.Logic.{◌↔◌}
use mathlib.Core.Bool.{Bool, true, false}
use native.Mathlib.Omega.{arith}

-- `negsuc n` is -(n + 1).
pub data ℤ : Type 0 where
  pos : ℕ → ℤ
  negsuc : ℕ → ℤ

abbrev pub equal_ℤ : ℤ → ℤ → Bool
equal_ℤ (pos m) (pos n) = elim (compare m n) [ Ordering.eq ↦ true | _ ↦ false ]
equal_ℤ (negsuc m) (negsuc n) = elim (compare m n) [ Ordering.eq ↦ true | _ ↦ false ]
equal_ℤ (pos m) (negsuc n) = false
equal_ℤ (negsuc m) (pos n) = false

pub equal_ℤ_iff : (a b : ℤ) → (equal_ℤ a b ≡ true) ↔ (a ≡ b)
equal_ℤ_iff (pos m) (pos n) = ground arith
equal_ℤ_iff (negsuc m) (negsuc n) = ground arith
equal_ℤ_iff (pos m) (negsuc n) = ground arith
equal_ℤ_iff (negsuc m) (pos n) = ground arith

-- The values of a signed type with `w` bits beside the sign.
abbrev pub Fits : ℕ → ℤ → Type 0
Fits w (pos n) = n < 2 ^ w
Fits w (negsuc n) = n < 2 ^ w
