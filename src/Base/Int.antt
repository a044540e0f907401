-- ===== src/Base/Int.antt =====
-- Signed integers over the native numbers, for the `int` counters of the source.
use Prim.Native.Nat.{ℕ, zero, suc}
use mathlib.Core.Bool.{Bool, true, false}

-- `negsuc n` is -(n + 1).
pub data ℤ : Type 0 where
  pos : ℕ → ℤ
  negsuc : ℕ → ℤ

abbrev pub increment : ℤ → ℤ
increment (pos n) = pos (suc n)
increment (negsuc zero) = pos 0
increment (negsuc (suc n)) = negsuc n

abbrev pub decrement : ℤ → ℤ
decrement (pos zero) = negsuc 0
decrement (pos (suc n)) = pos n
decrement (negsuc n) = negsuc (suc n)

abbrev pub is_negative : ℤ → Bool
is_negative (pos n) = false
is_negative (negsuc n) = true

-- z ≤ 0
abbrev pub is_at_most_zero : ℤ → Bool
is_at_most_zero (pos zero) = true
is_at_most_zero (pos (suc n)) = false
is_at_most_zero (negsuc n) = true

-- a - b, as an integer.
abbrev pub sub_ℕ : ℕ → ℕ → ℤ
sub_ℕ a zero = pos a
sub_ℕ zero (suc b) = negsuc b
sub_ℕ (suc a) (suc b) = sub_ℕ a b
