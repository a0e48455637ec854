-- ===== src/Parser/Numbers/Rounding.antt =====
-- `price_of_parts` of `MarketParser` on the digits behind the dot, against rounding to the nearest cent.
use native.Mathlib.Nat.{pow-suc, mul-le-mul, le_refl, div-eq_of_lt-le}
use mathlib.Core.Path.{ap₂}
use low_latency_prediction_m.Base.{
  ℕ, suc, ◌+◌, ◌-◌, ◌*◌, ◌/◌, ◌%◌, ◌^◌, ◌≤◌, ◌<◌, ◌≡◌, ◌≢◌, ◌↔◌, refl, ◌∙◌, true, some, [], ◌∷◌,
  arith, leb, if◌then◌else◌, Bytes, length, Bool-cases, inl, inr,
}
use low_latency_prediction_m.Base.Words.{u32_size}
use low_latency_prediction_m.Parser.Numbers.{is_digit, all_digits, price_of_parts}
use low_latency_prediction_m.Parser.Numbers.Decimal.{
  IsDigit, AllDigits, decimal, is_digit_iff, decimal-acc, decimal-lt,
}

-- The cents nearest to the number `whole.frac`, a tie rounded up: with k digits of fraction, the
-- floor of (100 * (whole + frac / 10 ^ k)) + 1 / 2.
abbrev pub nearest_cents : ℕ → Bytes → ℕ
nearest_cents whole frac =
    let unit = 10 ^ length frac in (200 * (whole * unit + decimal frac 0) + unit) / (2 * unit)

pub all_digits_iff : (s : Bytes) → (all_digits s ≡ true) ↔ AllDigits s
unfolding all_digits
all_digits_iff [] = (λ e. tt, λ h. refl)
all_digits_iff (c ∷ s) = ground (arith, is_digit_iff c, all_digits_iff s)

-- With three digits or more, only the third decides.
round_third :
    (q d p g : ℕ)
    → d ≤ 9
    → g < p
    → (200 * ((q * 10 + d) * p + g) + 1000 * p) / (2000 * p) ≡ (if leb 5 d then q + 1 else q)
round_third q d p g small lt = elim (Bool-cases (leb 5 d)) [
  | inl up ↦ rw up (
      div-eq_of_lt-le (2000 * p)
        (omega (arith, mul-le-mul {n₁ = 5} {n₂ = d} (ground arith) (le_refl p)))
        (omega (arith, mul-le-mul small (le_refl p))))
  | inr down ↦ rw down (
      div-eq_of_lt-le (2000 * p) (omega arith)
        (omega (arith, mul-le-mul {n₁ = d} {n₂ = 4} (ground arith) (le_refl p))))
]

module _ (whole : ℕ) where
  one_digit :
      (a : ℕ)
      → IsDigit a
      → price_of_parts (a ∷ []) (some whole) ≡ some (nearest_cents whole (a ∷ []) % u32_size)
  unfolding price_of_parts
  one_digit a ha = ground (arith, is_digit_iff a)

  two_digits :
      (a b : ℕ)
      → IsDigit a
      → IsDigit b
      → price_of_parts (a ∷ b ∷ []) (some whole)
        ≡ some (nearest_cents whole (a ∷ b ∷ []) % u32_size)
  unfolding price_of_parts
  two_digits a b ha hb = ground (arith, is_digit_iff a, is_digit_iff b)

  nearest_third :
      (a b c : ℕ) (s : Bytes)
      → IsDigit c
      → AllDigits s
      → let q = whole * 100 + ((a - b'0') * 10 + (b - b'0')) in
        nearest_cents whole (a ∷ b ∷ c ∷ s) ≡ (if leb 5 (c - b'0') then q + 1 else q)
  nearest_third a b c s hc hs =
      rw
        (
          pow-suc 10 (suc (suc (length s))),
          pow-suc 10 (suc (length s)),
          pow-suc 10 (length s),
          decimal-acc s (((0 * 10 + (a - b'0')) * 10 + (b - b'0')) * 10 + (c - b'0')),
        )
        (ap₂ ◌/◌ (gather (a - b'0') (b - b'0') (c - b'0') p g) (omega arith)
          ∙ round_third (whole * 100 + ((a - b'0') * 10 + (b - b'0'))) (c - b'0') p g (omega arith)
              (decimal-lt s hs))
    where
      p : ℕ
      p = 10 ^ length s

      g : ℕ
      g = decimal s 0

      gather :
          (x y z p g : ℕ)
          → 200 * (whole * (p * 10 * 10 * 10) + ((((0 + x) * 10 + y) * 10 + z) * p + g))
              + p * 10 * 10 * 10
            ≡ 200 * (((whole * 100 + (x * 10 + y)) * 10 + z) * p + g) + 1000 * p
      gather x y z p g = omega arith

  more_digits :
      (a b c : ℕ) (s : Bytes)
      → IsDigit a
      → IsDigit b
      → IsDigit c
      → AllDigits s
      → price_of_parts (a ∷ b ∷ c ∷ s) (some whole)
        ≡ some (nearest_cents whole (a ∷ b ∷ c ∷ s) % u32_size)
  unfolding price_of_parts
  more_digits a b c s ha hb hc hs = ground (
    arith,
    is_digit_iff a,
    is_digit_iff b,
    is_digit_iff c,
    all_digits_iff s,
    nearest_third a b c s hc hs,
  )

  -- The arithmetic of the code on a fraction of digits: exact rounding, reduced to 32 bits.
  pub price_of_digits :
      (frac : Bytes)
      → frac ≢ []
      → AllDigits frac
      → price_of_parts frac (some whole) ≡ some (nearest_cents whole frac % u32_size)
  price_of_digits [] ne h = absurd (ne refl)
  price_of_digits (a ∷ []) ne h = one_digit a h.0
  price_of_digits (a ∷ b ∷ []) ne h = two_digits a b h.0 h.1.0
  price_of_digits (a ∷ b ∷ c ∷ s) ne h = more_digits a b c s h.0 h.1.0 h.1.1.0 h.1.1.1

  third_digit :
      (a b c : ℕ) (s : Bytes) (n : ℕ)
      → price_of_parts (a ∷ b ∷ c ∷ s) (some whole) ≡ some n
      → (is_digit c ≡ true) × (all_digits s ≡ true)
  unfolding price_of_parts
  third_digit a b c s n e = ground arith

  first_digits :
      (a b : ℕ) (s : Bytes) (n : ℕ)
      → price_of_parts (a ∷ b ∷ s) (some whole) ≡ some n
      → IsDigit a × IsDigit b
  unfolding price_of_parts
  first_digits a b s n e = ground (arith, is_digit_iff a, is_digit_iff b)

  -- What is accepted consists of digits.
  pub price_of_parts-AllDigits :
      (frac : Bytes) (n : ℕ)
      → frac ≢ []
      → price_of_parts frac (some whole) ≡ some n
      → AllDigits frac
  unfolding price_of_parts
  price_of_parts-AllDigits [] n ne e = tt
  price_of_parts-AllDigits (a ∷ []) n ne e = ground (arith, is_digit_iff a)
  price_of_parts-AllDigits (a ∷ b ∷ []) n ne e =
      let (ha, hb) = first_digits a b [] n e in (ha, (hb, tt))
  price_of_parts-AllDigits (a ∷ b ∷ c ∷ s) n ne e =
      let (ha, hb) = first_digits a b (c ∷ s) n e in
      let (hc, hs) = third_digit a b c s n e in
      (ha, (hb, ((is_digit_iff c).0 hc, (all_digits_iff s).0 hs)))
