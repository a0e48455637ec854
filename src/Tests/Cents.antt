-- ===== src/Tests/Cents.antt =====
-- A concrete arithmetic for the tests: whole numbers, with a quotient cut towards 0.
use low_latency_prediction_m.Base.{◌+◌, ◌*◌, ◌/◌, ◌≡◌, ap, refl, arith, not}
use low_latency_prediction_m.Base.Int.{
  ℤ, pos, ◌+ℤ◌, neg, ltb_ℤ, above_zero, below_zero, difference, magnitude, parts-+ℤ, parts-neg,
  eq_of_parts, +ℤ_comm, +ℤ_assoc,
}
use low_latency_prediction_m.Base.Double.{Arithmetic, IsExact}

infixl 70 ◌*ℤ◌
unfoldable pub ◌*ℤ◌ : ℤ → ℤ → ℤ
a *ℤ b =
    difference (above_zero a * above_zero b + below_zero a * below_zero b)
      (above_zero a * below_zero b + below_zero a * above_zero b)

parts-*ℤ :
    (a b : ℤ)
    → above_zero (a *ℤ b) + (above_zero a * below_zero b + below_zero a * above_zero b)
      ≡ below_zero (a *ℤ b) + (above_zero a * above_zero b + below_zero a * below_zero b)
unfolding ◌*ℤ◌
parts-*ℤ a b = ground arith

*ℤ_comm : (a b : ℤ) → a *ℤ b ≡ b *ℤ a
*ℤ_comm a b = eq_of_parts _ _ (omega (arith, parts-*ℤ a b, parts-*ℤ b a))

*ℤ-+ℤ : (a b c : ℤ) → a *ℤ (b +ℤ c) ≡ a *ℤ b +ℤ a *ℤ c
*ℤ-+ℤ a b c = eq_of_parts _ _ (
    omega (
      arith,
      parts-*ℤ a (b +ℤ c),
      parts-*ℤ a b,
      parts-*ℤ a c,
      parts-+ℤ (a *ℤ b) (a *ℤ c),
      ap (λ t. above_zero a * t) (parts-+ℤ b c),
      ap (λ t. below_zero a * t) (parts-+ℤ b c),
    ))

abbrev pub quotient : ℤ → ℤ → ℤ
quotient a b =
    difference
      ((above_zero a * above_zero b + below_zero a * below_zero b) / (magnitude b * magnitude b))
      ((above_zero a * below_zero b + below_zero a * above_zero b) / (magnitude b * magnitude b))

abbrev pub cents : Arithmetic
cents = record {
  Double = ℤ;
  of_int = λ a. a;
  decimal = λ a n. quotient a (pos n);
  add = ◌+ℤ◌;
  sub = λ a b. a +ℤ neg b;
  mul = ◌*ℤ◌;
  div = quotient;
  lt = ltb_ℤ;
  le = λ a b. not (ltb_ℤ b a);
}

pub cents-IsExact : IsExact cents
cents-IsExact = record {
  add_comm = +ℤ_comm;
  add_assoc = +ℤ_assoc;
  zero-add = λ x. eq_of_parts _ _ (omega (arith, parts-+ℤ (pos 0) x));
  sub-add = λ x y.
      eq_of_parts _ _ (omega (arith, parts-neg y, parts-+ℤ x (neg y), parts-+ℤ (x +ℤ neg y) y));
  add-sub =
      λ x y. eq_of_parts _ _ (omega (arith, parts-neg y, parts-+ℤ x y, parts-+ℤ (x +ℤ y) (neg y)));
  mul_comm = *ℤ_comm;
  mul-add = *ℤ-+ℤ;
  of_int-+ℤ = λ a b. refl;
}
