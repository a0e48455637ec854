-- ===== src/Positions/Algebra.antt =====
-- Profits as sums: what follows from the laws of exact sums and products.
use low_latency_prediction_m.Base.{◌≡◌, sym, ◌∙◌, ap, arith}
use low_latency_prediction_m.Base.Int.{ℤ, pos, ◌+ℤ◌, neg, parts-+ℤ, parts-neg, eq_of_parts}
use low_latency_prediction_m.Base.Double.{Arithmetic, IsExact}

module _ {d : Arithmetic} (e : IsExact d) where
  open d use {Double, of_int, add, sub, mul}

  -- What `z` contracts gain from `x` to `y`, with the sign of `z`.
  abbrev pub gain : ℤ → Double → Double → Double
  gain z x y = mul (of_int z) (sub x y)

  pub cancel : (x y z : Double) → add x z ≡ add y z → x ≡ y
  cancel x y z h = sym (e.add-sub x z) ∙ ap (λ t. sub t z) h ∙ e.add-sub y z

  pub add-zero : (x : Double) → add x (of_int (pos 0)) ≡ x
  add-zero x = e.add_comm x (of_int (pos 0)) ∙ e.zero-add x

  pub add_left_comm : (x y z : Double) → add x (add y z) ≡ add y (add x z)
  add_left_comm x y z =
      sym (e.add_assoc x y z) ∙ ap (λ t. add t z) (e.add_comm x y) ∙ e.add_assoc y x z

  pub middle_swap : (a b c f : Double) → add (add a b) (add c f) ≡ add (add a c) (add b f)
  middle_swap a b c f =
      e.add_assoc a b (add c f) ∙ ap (add a) (add_left_comm b c f) ∙ sym (e.add_assoc a c (add b f))

  add-mul : (x y z : Double) → mul (add x y) z ≡ add (mul x z) (mul y z)
  add-mul x y z = rw (e.mul_comm (add x y) z, e.mul-add, e.mul_comm z x, e.mul_comm z y)

  pub zero-mul : (x : Double) → mul (of_int (pos 0)) x ≡ of_int (pos 0)
  zero-mul x = cancel _ _ (mul (of_int (pos 0)) x) (
      sym (add-mul (of_int (pos 0)) (of_int (pos 0)) x)
      ∙ ap (λ t. mul t x) (e.zero-add (of_int (pos 0)))
      ∙ sym (e.zero-add (mul (of_int (pos 0)) x)))

  pub zero-gain : (x y : Double) → gain (pos 0) x y ≡ of_int (pos 0)
  zero-gain x y = zero-mul (sub x y)

  pub gain-+ℤ : (a b : ℤ) (x y : Double) → gain (a +ℤ b) x y ≡ add (gain a x y) (gain b x y)
  gain-+ℤ a b x y =
      ap (λ t. mul t (sub x y)) (e.of_int-+ℤ a b) ∙ add-mul (of_int a) (of_int b) (sub x y)

  sub-chain : (x y z : Double) → add (sub x y) (sub y z) ≡ sub x z
  sub-chain x y z = cancel _ _ z (
      e.add_assoc (sub x y) (sub y z) z
      ∙ ap (add (sub x y)) (e.sub-add y z)
      ∙ e.sub-add x y
      ∙ sym (e.sub-add x z))

  -- From `x` to `y` and on to `z`.
  pub gain-chain : (n : ℤ) (x y z : Double) → add (gain n x y) (gain n y z) ≡ gain n x z
  gain-chain n x y z =
      sym (e.mul-add (of_int n) (sub x y) (sub y z)) ∙ ap (mul (of_int n)) (sub-chain x y z)

  pub gain-add : (n : ℤ) (x y : Double) → add (gain n x y) (mul (of_int n) y) ≡ mul (of_int n) x
  gain-add n x y = sym (e.mul-add (of_int n) (sub x y) y) ∙ ap (mul (of_int n)) (e.sub-add x y)

  gain-same : (n : ℤ) (x : Double) → gain n x x ≡ of_int (pos 0)
  gain-same n x =
      cancel _ _ (mul (of_int n) x) (gain-add n x x ∙ sym (e.zero-add (mul (of_int n) x)))

  pub gain-back : (n : ℤ) (x y : Double) → add (gain n x y) (gain n y x) ≡ of_int (pos 0)
  gain-back n x y = gain-chain n x y x ∙ gain-same n x

  neg-+ℤ : (n : ℤ) → neg n +ℤ n ≡ pos 0
  neg-+ℤ n = omega (arith, eq_of_parts, parts-+ℤ, parts-neg)

  -- A short position gains what the long one loses.
  pub gain-neg : (n : ℤ) (x y : Double) → gain (neg n) x y ≡ gain n y x
  gain-neg n x y = cancel _ _ (gain n x y) (
      sym (gain-+ℤ (neg n) n x y)
      ∙ ap (λ z. gain z x y) (neg-+ℤ n)
      ∙ zero-gain x y
      ∙ sym (gain-back n y x))
