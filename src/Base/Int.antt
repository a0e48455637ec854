-- ===== src/Base/Int.antt =====
-- Signed integers over the native numbers, under the library's names, and the range of `int`.
use Prim.Native.Nat.{ℕ, suc, ◌+◌, ◌-◌, ◌^◌}
use mathlib.Core.Path.{◌≡◌}
use mathlib.Core.Bool.{Bool, ◌&&◌}
use mathlib.Core.Option.{Option, none, some}
use native.Mathlib.Omega.{arith}
use low_latency_prediction_m.Base.Tests.{ltb, leb, ◌==◌, if◌then◌else◌}

-- `negsuc n` is -(n + 1).
pub data ℤ : Type 0 where
  pos : ℕ → ℤ
  negsuc : ℕ → ℤ

-- An integer is the difference of its two parts, one of which is 0.
abbrev pub above_zero : ℤ → ℕ
above_zero (pos n) = n
above_zero (negsuc n) = 0

abbrev pub below_zero : ℤ → ℕ
below_zero (pos n) = 0
below_zero (negsuc n) = suc n

abbrev pub difference : ℕ → ℕ → ℤ
difference a b = if leb b a then pos (a - b) else negsuc (b - a - 1)

infixl 65 ◌+ℤ◌
unfoldable pub ◌+ℤ◌ : ℤ → ℤ → ℤ
a +ℤ b = difference (above_zero a + above_zero b) (below_zero a + below_zero b)

unfoldable pub neg : ℤ → ℤ
neg a = difference (below_zero a) (above_zero a)

abbrev pub magnitude : ℤ → ℕ
magnitude a = above_zero a + below_zero a

abbrev pub ltb_ℤ : ℤ → ℤ → Bool
ltb_ℤ a b = ltb (above_zero a + below_zero b) (above_zero b + below_zero a)

abbrev pub eqb_ℤ : ℤ → ℤ → Bool
eqb_ℤ a b = above_zero a + below_zero b == above_zero b + below_zero a

pub eq_of_parts : (a b : ℤ) → above_zero a + below_zero b ≡ above_zero b + below_zero a → a ≡ b
eq_of_parts a b h = ground arith

-- One law for each operation, from which `omega` goes on with the operations shut.
pub parts-+ℤ :
    (a b : ℤ)
    → above_zero (a +ℤ b) + (below_zero a + below_zero b)
      ≡ below_zero (a +ℤ b) + (above_zero a + above_zero b)
unfolding ◌+ℤ◌
parts-+ℤ a b = ground arith

pub parts-neg : (a : ℤ) → (above_zero (neg a) ≡ below_zero a) × (below_zero (neg a) ≡ above_zero a)
unfolding neg
parts-neg a = ground arith

pub +ℤ_comm : (a b : ℤ) → a +ℤ b ≡ b +ℤ a
unfolding ◌+ℤ◌
+ℤ_comm a b = ground arith

pub +ℤ_assoc : (a b c : ℤ) → a +ℤ b +ℤ c ≡ a +ℤ (b +ℤ c)
unfolding ◌+ℤ◌
+ℤ_assoc a b c = ground arith

pub +ℤ_zero : (a : ℤ) → a +ℤ pos 0 ≡ a
unfolding ◌+ℤ◌
+ℤ_zero a = ground arith

-- `int` has 32 bits.
abbrev pub in_int : ℤ → Bool
in_int a = ltb (above_zero a) (2 ^ 31) && leb (below_zero a) (2 ^ 31)

-- The result of an operation on `int`; `none` is an overflow, which is undefined behaviour.
abbrev pub checked : ℤ → Option ℤ
checked a = if in_int a then some a else none
