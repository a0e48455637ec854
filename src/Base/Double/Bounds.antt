-- ===== src/Base/Double/Bounds.antt =====
-- Bounds on doubles of less than 2 ^ 53. Up to there whole numbers are exact, and rounding to nearest
-- never crosses one, so that these laws hold of IEEE arithmetic.
use low_latency_prediction_m.Base.{
  ℕ, ◌+◌, ◌*◌, ◌^◌, ◌≤◌, ◌≡◌, ◌∙◌, inl, inr, Bool, true, false, not, if◌then◌else◌, Bool-cases,
  arith,
}
use low_latency_prediction_m.Base.Int.{ℤ, pos, difference, ltb_ℤ, magnitude}
use low_latency_prediction_m.Base.Double.{Arithmetic}

module _ (d : Arithmetic) where
  open d use {Double, of_int, decimal, add, sub, mul, div, lt, le}

  -- A number from -n to n. `<=` is false of a NaN, so that it is none.
  abbrev pub IsWithin : ℕ → Double → Type 0
  IsWithin n x = (le (of_int (difference 0 n)) x ≡ true) × (le x (of_int (pos n)) ≡ true)

  -- A double of 1 or more, possibly infinite.
  abbrev pub IsOneOrMore : Double → Type 0
  IsOneOrMore x = le (of_int (pos 1)) x ≡ true

  pub record IsBounded : Type 0 where
    pub of_int-le :
        (a b : ℤ)
        → magnitude a ≤ 2 ^ 53
        → magnitude b ≤ 2 ^ 53
        → le (of_int a) (of_int b) ≡ not (ltb_ℤ b a)
    pub le_trans : (x y z : Double) → le x y ≡ true → le y z ≡ true → le x z ≡ true
    pub lt→le : (x y : Double) → lt x y ≡ true → le x y ≡ true
    pub not_lt→le :
        (m n : ℕ) (x y : Double) → IsWithin m x → IsWithin n y → lt x y ≡ false → le y x ≡ true
    pub decimal-IsWithin : (a b : ℕ) → a ≤ b → 1 ≤ b → IsWithin 1 (decimal (pos a) b)
    pub add-IsWithin :
        (m n : ℕ) (x y : Double)
        → m + n ≤ 2 ^ 53
        → IsWithin m x
        → IsWithin n y
        → IsWithin (m + n) (add x y)
    pub sub-IsWithin :
        (m n : ℕ) (x y : Double)
        → m + n ≤ 2 ^ 53
        → IsWithin m x
        → IsWithin n y
        → IsWithin (m + n) (sub x y)
    pub mul-IsWithin :
        (m n : ℕ) (x y : Double)
        → m * n ≤ 2 ^ 53
        → IsWithin m x
        → IsWithin n y
        → IsWithin (m * n) (mul x y)
    pub div-IsWithin :
        (n : ℕ) (x y : Double) → n ≤ 2 ^ 53 → IsWithin n x → IsOneOrMore y → IsWithin n (div x y)

  pub if-IsWithin :
      (n : ℕ) (b : Bool) (x y : Double)
      → (b ≡ true → IsWithin n x)
      → (b ≡ false → IsWithin n y)
      → IsWithin n (if b then x else y)
  if-IsWithin n b x y yes_case no_case = elim (Bool-cases b) [
    | inl e ↦ rw e (yes_case e)
    | inr e ↦ rw e (no_case e)
  ]

  module _ (laws : IsBounded) where
    pub of_int-IsWithin : (n : ℕ) (a : ℤ) → n ≤ 2 ^ 53 → magnitude a ≤ n → IsWithin n (of_int a)
    of_int-IsWithin n a small le = (
      laws.of_int-le (difference 0 n) a (ground arith) (omega arith) ∙ ground arith,
      laws.of_int-le a (pos n) (omega arith) (omega arith) ∙ ground arith,
    )

    pub IsWithin-le : (m n : ℕ) (x : Double) → m ≤ n → n ≤ 2 ^ 53 → IsWithin m x → IsWithin n x
    IsWithin-le m n x up small (low, high) = (
      laws.le_trans _ _ x
          (laws.of_int-le (difference 0 n) (difference 0 m) (ground arith) (ground arith)
            ∙ ground arith)
          low,
      laws.le_trans x _ _ high
          (laws.of_int-le (pos m) (pos n) (omega arith) (omega arith) ∙ ground arith),
    )

    pub of_nat-IsOneOrMore : (n : ℕ) → 1 ≤ n → n ≤ 2 ^ 53 → IsOneOrMore (of_int (pos n))
    of_nat-IsOneOrMore n positive small =
        laws.of_int-le (pos 1) (pos n) (omega arith) (omega arith) ∙ ground arith
