-- ===== src/Parser/Numbers/Scale.antt =====
-- The two loops of `parse_size_u32` that read a fraction as millionths.
use native.Mathlib.Nat.{
  pow-suc, mul-le-mul, le_refl, one-le-pow, mul-div-mul_left, div-eq_of_lt-le, div-lt_iff_lt-mul,
}
use mathlib.Core.Path.{ap₂}
use low_latency_prediction_m.Base.{
  ℕ, zero, suc, ◌+◌, ◌-◌, ◌*◌, ◌/◌, ◌%◌, ◌^◌, ◌≤◌, ◌<◌, ◌≡◌, sym, ◌∙◌, ap, [], ◌∷◌, arith, Bytes,
  length,
}
use low_latency_prediction_m.Base.Words.{u32_size}
use low_latency_prediction_m.Parser.Numbers.{take_digits, pad_digits, scale_fraction}
use low_latency_prediction_m.Parser.Numbers.Decimal.{AllDigits, decimal, decimal-acc, decimal-lt}

-- The two loops together, with `left` digits to go.
abbrev scale : ℕ → Bytes → ℕ → ℕ
scale left s acc = let (missing, n) = take_digits left s acc in pad_digits missing n

pad_digits_lem : (left acc : ℕ) → acc * 10 ^ left < u32_size → pad_digits left acc ≡ acc * 10 ^ left
unfolding pad_digits
pad_digits_lem zero acc h = omega arith
pad_digits_lem (suc left) acc h =
    rw (same, pow-suc 10 left)
      (pad_digits_lem left (acc * 10) (omega (arith, h', regroup acc (10 ^ left)))
        ∙ regroup acc (10 ^ left))
  where
    h' : acc * (10 ^ left * 10) < u32_size
    h' = rw pow-suc at h

    regroup : (a p : ℕ) → a * 10 * p ≡ a * (p * 10)
    regroup a p = omega arith

    small : acc * 10 * 1 ≤ acc * 10 * 10 ^ left
    small = mul-le-mul (le_refl (acc * 10)) (one-le-pow left 10 (omega arith))

    same : acc * 10 % u32_size ≡ acc * 10
    same = omega (arith, small, h', regroup acc (10 ^ left))

scale_lem :
    (left : ℕ) (s : Bytes) (acc : ℕ)
    → AllDigits s
    → (acc + 1) * 10 ^ left ≤ 1000000
    → scale left s acc ≡ decimal s acc * 10 ^ left / 10 ^ length s
unfolding take_digits pad_digits
scale_lem zero s acc h b = sym (
    div-eq_of_lt-le {k = acc} (10 ^ length s) (omega (arith, decimal-acc s acc))
      (above acc (10 ^ length s) _ (decimal s 0) (decimal-acc s acc) (decimal-lt s h)))
  where
    above : (a p x g : ℕ) → x ≡ a * p + g → g < p → x * 1 < (a + 1) * p
    above a p x g e lt = omega arith
scale_lem (suc left) [] acc h b =
    omega (arith, pad_digits_lem (suc left) acc (bound acc (10 ^ suc left) b))
  where
    bound : (a p : ℕ) → (a + 1) * p ≤ 1000000 → a * p < u32_size
    bound a p h = omega arith
scale_lem (suc left) (c ∷ s) acc h b =
    ap (scale left s) same
    ∙ rw (pow-suc 10 left, pow-suc 10 (length s))
        (scale_lem left s (acc * 10 + (c - b'0')) h.1 (omega (arith, tight, b'))
          ∙ sym (cancel (decimal s (acc * 10 + (c - b'0'))) (10 ^ left) (10 ^ length s)))
  where
    b' : (acc + 1) * (10 ^ left * 10) ≤ 1000000
    b' = rw pow-suc at b

    tight : (acc * 10 + (c - b'0') + 1) * 10 ^ left ≤ (acc * 10 + 10) * 10 ^ left
    tight = mul-le-mul {n₁ = acc * 10 + (c - b'0') + 1} (omega arith) (le_refl (10 ^ left))

    small : (acc * 10 + 10) * 1 ≤ (acc * 10 + 10) * 10 ^ left
    small = mul-le-mul (le_refl (acc * 10 + 10)) (one-le-pow left 10 (omega arith))

    same : (acc * 10 % u32_size + (c - b'0')) % u32_size ≡ acc * 10 + (c - b'0')
    same = omega (arith, small, b')

    cancel : (n p q : ℕ) → n * (p * 10) / (q * 10) ≡ n * p / q
    cancel n p q =
        ap₂ ◌/◌ {x = n * (p * 10)} (omega arith) (omega arith)
        ∙ mul-div-mul_left {m = 10} (n * p) q (omega arith)

pub scale_fraction_lem :
    (frac : Bytes)
    → AllDigits frac
    → scale_fraction frac ≡ decimal frac 0 * 1000000 / 10 ^ length frac
unfolding scale_fraction
scale_fraction_lem frac h = scale_lem 6 frac 0 h (omega arith)

pub scale_fraction-lt : (frac : Bytes) → AllDigits frac → scale_fraction frac < 1000000
scale_fraction-lt frac h = rw (scale_fraction_lem frac h) (
    (div-lt_iff_lt-mul (one-le-pow (length frac) 10 (omega arith))).1
      (omega (arith, decimal-lt frac h)))
