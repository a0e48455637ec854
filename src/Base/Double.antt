-- ===== src/Base/Double.antt =====
-- The arithmetic on `double`. Its values and operations are parameters of the definitions that use
-- them, so that what is proved without a law holds of IEEE arithmetic too.
pub mod Bounds
use Prim.Native.Nat.{ℕ}
use mathlib.Core.Path.{◌≡◌}
use mathlib.Core.Bool.{Bool}
use low_latency_prediction_m.Base.Int.{ℤ, pos, ◌+ℤ◌}

-- `of_int` is the conversion of an integer, `decimal a b` the literal with the value a / b, `lt` and
-- `le` the comparisons `<` and `<=`.
pub record Arithmetic : Type 1 where
  pub Double : Type 0
  pub of_int : ℤ → Double
  pub decimal : ℤ → ℕ → Double
  pub add : Double → Double → Double
  pub sub : Double → Double → Double
  pub mul : Double → Double → Double
  pub div : Double → Double → Double
  pub lt : Double → Double → Bool
  pub le : Double → Double → Bool

module _ (d : Arithmetic) where
  open d use {Double, of_int, add, sub, mul}

  -- The laws of sums and products without rounding. They say nothing of a quotient.
  pub record IsExact : Type 0 where
    pub add_comm : (x y : Double) → add x y ≡ add y x
    pub add_assoc : (x y z : Double) → add (add x y) z ≡ add x (add y z)
    pub zero-add : (x : Double) → add (of_int (pos 0)) x ≡ x
    pub sub-add : (x y : Double) → add (sub x y) y ≡ x
    pub add-sub : (x y : Double) → sub (add x y) y ≡ x
    pub mul_comm : (x y : Double) → mul x y ≡ mul y x
    pub mul-add : (x y z : Double) → mul x (add y z) ≡ add (mul x y) (mul x z)
    pub of_int-+ℤ : (a b : ℤ) → of_int (a +ℤ b) ≡ add (of_int a) (of_int b)
