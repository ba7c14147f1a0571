-- ===== src/Prelude/Integers.antt =====
-- C's `int`, where a negative value matters: arguments, counters and error codes. The programs keep
-- them far from the ends of their range, so no wrap-around is written here.
use Prim.Native.Nat.{ℕ, zero, suc, ◌-◌, ◌^◌, compare, Ordering}
use mathlib.Core.Bool.{Bool, true, false}

-- `negsuc n` is -(n + 1).
pub data ℤ : Type 0 where
  pos : ℕ → ℤ
  negsuc : ℕ → ℤ

-- i++
abbrev pub increment : ℤ → ℤ
increment (pos n) = pos (suc n)
increment (negsuc zero) = pos 0
increment (negsuc (suc n)) = negsuc n

-- i--
abbrev pub decrement : ℤ → ℤ
decrement (pos zero) = negsuc 0
decrement (pos (suc n)) = pos n
decrement (negsuc n) = negsuc (suc n)

-- i == n
abbrev pub is : ℤ → ℕ → Bool
is (pos m) n = elim (compare m n) [ Ordering.eq ↦ true | _ ↦ false ]
is (negsuc m) n = false

-- i > n
abbrev pub exceeds : ℤ → ℕ → Bool
exceeds (pos m) n = elim (compare n m) [ Ordering.lt ↦ true | _ ↦ false ]
exceeds (negsuc m) n = false

-- The `int` that a 32-bit word stands for.
abbrev pub int_of_word : ℕ → ℤ
int_of_word w = elim (compare w (2 ^ 31)) [ Ordering.lt ↦ pos w | _ ↦ negsuc (2 ^ 32 - 1 - w) ]
