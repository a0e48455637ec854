-- ===== src/Parser/Numbers/Price.antt =====
-- `parse_price_cents` against rounding of the decimal number that the text stands for.
use mathlib.Core.Option.{some-injective}
use low_latency_prediction_m.Base.{
  ℕ, ◌%◌, ◌<◌, ◌≡◌, ◌≢◌, ◌↔◌, refl, sym, ◌∙◌, ap, none, some, [], ◌∷◌, ◌++◌, arith, Bytes,
  Option-cases, inl, inr,
}
use low_latency_prediction_m.Base.Words.{u32_size}
use low_latency_prediction_m.Parser.Numbers.{
  parse_u32, parse_whole, price_of_parts, price_of_split, parse_price_cents,
}
use low_latency_prediction_m.Parser.Numbers.Decimal.{
  AllDigits, NoDot, decimal, parse_u32_iff, split_dot-append, split_dot-none,
}
use low_latency_prediction_m.Parser.Numbers.Rounding.{
  nearest_cents, price_of_digits, price_of_parts-AllDigits,
}

pub parse_whole_iff :
    (s : Bytes) (n : ℕ)
    → (parse_whole s ≡ some n) ↔ (AllDigits s × (decimal s 0 ≡ n) × (n < u32_size))
unfolding parse_whole
parse_whole_iff [] n = ground arith
parse_whole_iff (c ∷ s) n = ground (arith, parse_u32_iff (c ∷ s) n)

parse_price_cents-append :
    (int_part frac_part : Bytes)
    → NoDot int_part
    → parse_price_cents (int_part ++ b'.' ∷ frac_part)
      ≡ price_of_split (int_part ++ b'.' ∷ frac_part) (some (int_part, frac_part))
unfolding parse_price_cents
parse_price_cents-append [] frac_part h =
    ap (price_of_split (b'.' ∷ frac_part)) (split_dot-append [] frac_part tt)
parse_price_cents-append (c ∷ s) frac_part h =
    ap (price_of_split (c ∷ s ++ b'.' ∷ frac_part)) (split_dot-append (c ∷ s) frac_part h)

-- The two parts are a number in decimal digits, and `cents` is that number in cents, rounded to the
-- nearest and reduced to 32 bits.
abbrev pub Denotes : Bytes → Bytes → ℕ → Type 0
Denotes int_part frac_part cents =
    AllDigits int_part
    × (decimal int_part 0 < u32_size)
    × (frac_part ≢ [])
    × AllDigits frac_part
    × (cents ≡ nearest_cents (decimal int_part 0) frac_part % u32_size)

price_of_parts-none : (frac_part : Bytes) → price_of_parts frac_part none ≡ none
unfolding price_of_parts
price_of_parts-none frac_part = refl

price_of_parts_iff :
    (int_part frac_part : Bytes) (cents : ℕ)
    → frac_part ≢ []
    → (price_of_parts frac_part (parse_whole int_part) ≡ some cents)
      ↔ Denotes int_part frac_part cents
price_of_parts_iff int_part frac_part cents ne = (forth, back)
  where
    forth :
        price_of_parts frac_part (parse_whole int_part) ≡ some cents
        → Denotes int_part frac_part cents
    forth e = elim (Option-cases (parse_whole int_part)) [
      | inl bad ↦ cc (e, ap (price_of_parts frac_part) bad, price_of_parts-none frac_part)
      | inr (w, good) ↦
          let (digits, v, lt) = (parse_whole_iff int_part w).0 good in
          let e' : price_of_parts frac_part (some w) ≡ some cents = rw good at e in
          let behind = price_of_parts-AllDigits w frac_part cents ne e' in
          let exact = some-injective _ _ (sym e' ∙ price_of_digits w frac_part ne behind) in
          rw v (digits, lt, ne, behind, exact)
    ]

    back :
        Denotes int_part frac_part cents
        → price_of_parts frac_part (parse_whole int_part) ≡ some cents
    back h =
        ap (price_of_parts frac_part)
          ((parse_whole_iff int_part (decimal int_part 0)).1 (h.0, refl, h.1))
        ∙ price_of_digits (decimal int_part 0) frac_part ne h.3
        ∙ ap some (sym h.4)

-- A price with a dot (the first one parts `int_part` from `frac_part`) is accepted exactly when the
-- part before it is empty or decimal digits that fit 32 bits, and the part behind it is a non-empty
-- text of decimal digits. The result is then the decimal number in cents, rounded to the nearest cent
-- with ties upward, and reduced modulo 2 ^ 32.
pub parse_price_cents_iff :
    (int_part frac_part : Bytes) (cents : ℕ)
    → NoDot int_part
    → (parse_price_cents (int_part ++ b'.' ∷ frac_part) ≡ some cents)
      ↔ Denotes int_part frac_part cents
unfolding price_of_split
parse_price_cents_iff int_part [] cents dotless =
    rw (parse_price_cents-append int_part [] dotless) ((λ e. ground arith, λ h. absurd (h.2 refl)))
parse_price_cents_iff int_part (c ∷ s) cents dotless =
    rw (parse_price_cents-append int_part (c ∷ s) dotless)
      (price_of_parts_iff int_part (c ∷ s) cents (λ e. ground arith))

-- A price without a dot is taken as whole cents.
pub parse_price_cents-NoDot : (s : Bytes) → NoDot s → parse_price_cents s ≡ parse_u32 s
unfolding parse_price_cents parse_u32
parse_price_cents-NoDot [] h = refl
parse_price_cents-NoDot (c ∷ s) h = ap (price_of_split (c ∷ s)) (split_dot-none (c ∷ s) h)
