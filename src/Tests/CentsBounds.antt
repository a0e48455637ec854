-- ===== src/Tests/CentsBounds.antt =====
-- The concrete arithmetic of the tests keeps the bounds on doubles.
use low_latency_prediction_m.Base.{ℕ, ◌*◌, ◌/◌, ◌≤◌, ◌≡◌, refl, arith}
use native.Mathlib.Nat.{mul-le-mul, mul-le-mul_right, div-le_of_le-mul}
use low_latency_prediction_m.Base.Int.{ℤ, pos, negsuc, magnitude, neg, parts-neg}
use low_latency_prediction_m.Base.Double.Bounds.{IsWithin, IsBounded}
use low_latency_prediction_m.Positions.Filled.{magnitude-+ℤ}
use low_latency_prediction_m.Tests.Cents.{cents, ◌*ℤ◌, quotient}

magnitude-le : (n : ℕ) (a : ℤ) → IsWithin cents n a → magnitude a ≤ n
magnitude-le n a h = ground arith

le-IsWithin : (n : ℕ) (a : ℤ) → magnitude a ≤ n → IsWithin cents n a
le-IsWithin n a h = ground arith

magnitude-*ℤ : (a b : ℤ) → magnitude (a *ℤ b) ≡ magnitude a * magnitude b
unfolding ◌*ℤ◌
magnitude-*ℤ (pos a) (pos b) = ground arith
magnitude-*ℤ (pos a) (negsuc b) = ground arith
magnitude-*ℤ (negsuc a) (pos b) = ground arith
magnitude-*ℤ (negsuc a) (negsuc b) = ground arith

magnitude-quotient :
    (a b : ℤ) → magnitude (quotient a b) ≤ magnitude a * magnitude b / (magnitude b * magnitude b)
magnitude-quotient (pos a) (pos b) = ground arith
magnitude-quotient (pos a) (negsuc b) = ground arith
magnitude-quotient (negsuc a) (pos b) = ground arith
magnitude-quotient (negsuc a) (negsuc b) = ground arith

-- A quotient by an integer other than 0 is no larger than what is divided.
quotient-le : (a b : ℤ) → 1 ≤ magnitude b → magnitude (quotient a b) ≤ magnitude a
quotient-le a b positive = omega (
  arith,
  magnitude-quotient a b,
  div-le_of_le-mul (magnitude b * magnitude b) {m = magnitude a * magnitude b} {n = magnitude a}
      (omega (arith, mul-le-mul_right (magnitude a * magnitude b) positive)),
)

-- A quotient of a smaller number by a larger one is at most 1.
quotient-le_one : (a b : ℕ) → a ≤ b → magnitude (quotient (pos a) (pos b)) ≤ 1
quotient-le_one a b le = grind (
  arith,
  magnitude-quotient (pos a) (pos b),
  div-le_of_le-mul (b * b) {m = a * b} {n = 1} (omega (arith, mul-le-mul_right b le)),
)

pub cents-IsBounded : IsBounded cents
cents-IsBounded = record {
  of_int-le = λ a b ha hb. refl;
  le_trans = λ x y z xy yz. ground arith;
  lt→le = λ x y h. ground arith;
  not_lt→le = λ m n x y hx hy h. ground arith;
  decimal-IsWithin = λ a b le positive. le-IsWithin 1 _ (quotient-le_one a b le);
  add-IsWithin = λ m n x y small hx hy.
      le-IsWithin _ _ (omega (arith, magnitude-+ℤ x y, magnitude-le m x hx, magnitude-le n y hy));
  sub-IsWithin = λ m n x y small hx hy. le-IsWithin _ _ (
      omega (arith, magnitude-+ℤ x (neg y), parts-neg y, magnitude-le m x hx, magnitude-le n y hy));
  mul-IsWithin = λ m n x y small hx hy.
      le-IsWithin _ _
        (omega (arith, magnitude-*ℤ x y, mul-le-mul (magnitude-le m x hx) (magnitude-le n y hy)));
  div-IsWithin = λ n x y small hx positive.
      le-IsWithin _ _ (omega (arith, quotient-le x y (ground arith), magnitude-le n x hx));
}
