-- ===== src/Positions/Average.antt =====
-- An average price in place of the two that it stands for.
use low_latency_prediction_m.Base.{◌≡◌, sym, ◌∙◌, ap}
use mathlib.Core.Path.{ap₂}
use low_latency_prediction_m.Base.Int.{ℤ, pos, ◌+ℤ◌}
use low_latency_prediction_m.Base.Double.{Arithmetic, IsExact}
use low_latency_prediction_m.Positions.Algebra.{
  gain, cancel, add-zero, middle_swap, gain-+ℤ, gain-chain, gain-add, gain-back,
}

module _ {d : Arithmetic} (e : IsExact d) where
  open d use {Double, of_int, add, sub, mul, div}

  spread :
      (m n : ℤ) (a : Double) → mul a (of_int (m +ℤ n)) ≡ add (mul (of_int m) a) (mul (of_int n) a)
  spread m n a =
      ap (mul a) (e.of_int-+ℤ m n)
      ∙ e.mul-add a (of_int m) (of_int n)
      ∙ ap₂ add (e.mul_comm a (of_int m)) (e.mul_comm a (of_int n))

  -- The average balances what the two parts paid.
  pub balance :
      (m n : ℤ) (x y a : Double)
      → mul a (of_int (m +ℤ n)) ≡ add (mul x (of_int m)) (mul y (of_int n))
      → add (gain e m x a) (gain e n y a) ≡ of_int (pos 0)
  balance m n x y a h = cancel e _ _ (add (mul (of_int m) a) (mul (of_int n) a)) (
      middle_swap e (gain e m x a) (gain e n y a) (mul (of_int m) a) (mul (of_int n) a)
      ∙ ap (add (add (gain e m x a) (mul (of_int m) a))) (gain-add e n y a)
      ∙ ap (λ t. add t (mul (of_int n) y)) (gain-add e m x a)
      ∙ ap₂ add (e.mul_comm (of_int m) x) (e.mul_comm (of_int n) y)
      ∙ sym h
      ∙ spread m n a
      ∙ sym (e.zero-add _))

  pub balance_short :
      (m n : ℤ) (x y a : Double)
      → add (gain e m x a) (gain e n y a) ≡ of_int (pos 0)
      → add (gain e m a x) (gain e n a y) ≡ of_int (pos 0)
  balance_short m n x y a h = cancel e _ _ (add (gain e m x a) (gain e n y a)) (
      middle_swap e (gain e m a x) (gain e n a y) (gain e m x a) (gain e n y a)
      ∙ rw (gain-back e m a x, gain-back e n a y) (rw h))

  -- Two holdings valued at one price instead of two.
  pub merge :
      (s f : ℤ) (mid x y a : Double)
      → add (gain e s x a) (gain e f y a) ≡ of_int (pos 0)
      → gain e (s +ℤ f) mid a ≡ add (gain e s mid x) (gain e f mid y)
  merge s f mid x y a h =
      gain-+ℤ e s f mid a
      ∙ rw (← gain-chain e s mid x a, ← gain-chain e f mid y a)
          (middle_swap e (gain e s mid x) (gain e s x a) (gain e f mid y) (gain e f y a)
            ∙ ap (add (add (gain e s mid x) (gain e f mid y))) h
            ∙ add-zero e _)
