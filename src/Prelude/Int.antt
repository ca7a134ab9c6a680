-- ===== src/Prelude/Int.antt =====
-- Go's int where its sign matters.
use Prim.Native.Nat.{ℕ, zero, suc}
use mathlib.Core.Bool.{Bool, false}
use digitdojo_shield.Prelude.Tests.{leb, ltb}

-- `negsuc n` is -(n + 1).
pub data ℤ : Type 0 where
  pos : ℕ → ℤ
  negsuc : ℕ → ℤ

-- n <= i
abbrev pub at_least : ℕ → ℤ → Bool
at_least n (pos m) = leb n m
at_least n (negsuc m) = false

-- n < i
abbrev pub above : ℕ → ℤ → Bool
above n (pos m) = ltb n m
above n (negsuc m) = false

abbrev pub pos_part : ℤ → ℕ
pos_part (pos m) = m
pos_part (negsuc m) = 0

-- The value, or a default where it is not positive.
abbrev pub positive_or : ℕ → ℤ → ℕ
positive_or d (pos (suc m)) = suc m
positive_or d (pos zero) = d
positive_or d (negsuc m) = d
