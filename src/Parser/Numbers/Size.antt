-- ===== src/Parser/Numbers/Size.antt =====
-- `parse_size_u32` against the decimal number that the text stands for.
use low_latency_prediction_m.Base.{
  ℕ, ◌+◌, ◌*◌, ◌/◌, ◌^◌, ◌<◌, ◌≡◌, ◌↔◌, refl, sym, ◌∙◌, ap, Bool, true, false, not, ◌||◌, none,
  some, [], ◌∷◌, ◌++◌, arith, ◌==◌, if◌then◌else◌, Bytes, length, Bool-cases, Option-cases, inl,
  inr,
}
use low_latency_prediction_m.Base.Words.{u32_size}
use low_latency_prediction_m.Parser.Numbers.{
  parse_u32, parse_whole, split_dot, check_fraction, scaled_size, size_of_parts, size_of_split,
  parse_size_u32,
}
use low_latency_prediction_m.Parser.Numbers.Decimal.{
  AllDigits, NoDot, decimal, is_digit_iff, parse_u32_iff, split_dot-append, split_dot-none,
}
use low_latency_prediction_m.Parser.Numbers.Price.{parse_whole_iff}
use low_latency_prediction_m.Parser.Numbers.Scale.{scale_fraction_lem, scale_fraction-lt}

-- Some digit is not 0.
abbrev pub any_nonzero : Bytes → Bool
any_nonzero [] = false
any_nonzero (c ∷ s) = not (c == b'0') || any_nonzero s

-- A whole number stays as it is; any other is scaled by 10 ^ 6 and cut to an integer.
abbrev pub scaled : ℕ → Bytes → ℕ
scaled whole frac =
    if any_nonzero frac
    then whole * 1000000 + decimal frac 0 * 1000000 / 10 ^ length frac
    else whole

check_fraction_lem :
    (s : Bytes) (seen : Bool) (b : Bool)
    → (check_fraction s seen ≡ some b) ↔ (AllDigits s × (b ≡ (seen || any_nonzero s)))
unfolding check_fraction
check_fraction_lem [] seen b = ground arith
check_fraction_lem (c ∷ s) seen b =
    ground (arith, is_digit_iff c, check_fraction_lem s (if not (c == b'0') then true else seen) b)

scaled_size_iff :
    (whole : ℕ) (frac : Bytes) (n : ℕ)
    → whole < u32_size
    → AllDigits frac
    → (scaled_size whole frac (some (any_nonzero frac)) ≡ some n)
      ↔ ((n ≡ scaled whole frac) × (n < u32_size))
unfolding scaled_size
scaled_size_iff whole frac n fits h =
    let exact = scale_fraction_lem frac h in
    let small = scale_fraction-lt frac h in
    elim (Bool-cases (any_nonzero frac)) [
      | inl some_digit ↦ rw (some_digit, ← exact) (ground arith)
      | inr zeros ↦ rw zeros (ground arith)
    ]

scaled_size-none : (whole : ℕ) (frac : Bytes) → scaled_size whole frac none ≡ none
unfolding scaled_size
scaled_size-none whole frac = refl

size_of_whole_iff :
    (frac : Bytes) (whole n : ℕ)
    → whole < u32_size
    → (size_of_parts frac (some whole) ≡ some n)
      ↔ (AllDigits frac × (n ≡ scaled whole frac) × (n < u32_size))
unfolding size_of_parts
size_of_whole_iff [] whole n fits = ground arith
size_of_whole_iff (c ∷ s) whole n fits = elim (Option-cases (check_fraction (c ∷ s) false)) [
  | inl bad ↦ rw bad (
      (
        λ e. cc (e, scaled_size-none whole (c ∷ s)),
        λ h. cc (bad, (check_fraction_lem (c ∷ s) false _).1 (h.0, refl)),
      ))
  | inr (b, good) ↦
      let (digits, e) = (check_fraction_lem (c ∷ s) false b).0 good in
      let exact = scaled_size_iff whole (c ∷ s) n fits digits in
      rw (good, e) ((λ r. let (x, y) = exact.0 r in (digits, x, y), λ h. exact.1 (h.1, h.2)))
]

-- The two parts are a number in decimal digits, and `n` is its size, which fits 32 bits.
abbrev pub DenotesSize : Bytes → Bytes → ℕ → Type 0
DenotesSize int_part frac n =
    AllDigits int_part
    × (decimal int_part 0 < u32_size)
    × AllDigits frac
    × (n ≡ scaled (decimal int_part 0) frac)
    × (n < u32_size)

size_of_parts-none : (frac : Bytes) → size_of_parts frac none ≡ none
unfolding size_of_parts
size_of_parts-none [] = refl
size_of_parts-none (c ∷ s) = refl

size_of_parts_iff :
    (int_part frac : Bytes) (n : ℕ)
    → (size_of_parts frac (parse_whole int_part) ≡ some n) ↔ DenotesSize int_part frac n
size_of_parts_iff int_part frac n = elim (Option-cases (parse_whole int_part)) [
  | inl bad ↦ rw bad (
      (
        λ e. cc (e, size_of_parts-none frac),
        λ h. cc (bad, (parse_whole_iff int_part _).1 (h.0, refl, h.1)),
      ))
  | inr (w, good) ↦
      let (digits, v, lt) = (parse_whole_iff int_part w).0 good in
      let exact = size_of_whole_iff frac w n lt in
      rw (good, v)
        ((λ r. let (x, y, z) = exact.0 r in (digits, lt, x, y, z), λ h. exact.1 (h.2, h.3, h.4)))
]

parse_size_u32-append :
    (int_part frac : Bytes)
    → NoDot int_part
    → parse_size_u32 (int_part ++ b'.' ∷ frac) ≡ size_of_parts frac (parse_whole int_part)
unfolding parse_size_u32
parse_size_u32-append [] frac h = ap (size_of_split (b'.' ∷ frac)) (split_dot-append [] frac tt)
parse_size_u32-append (c ∷ s) frac h =
    ap (size_of_split (c ∷ s ++ b'.' ∷ frac)) (split_dot-append (c ∷ s) frac h)

-- A size with a dot is accepted exactly when both parts are decimal digits (either may be empty), the
-- whole part fits 32 bits, and so does the result: the whole number where every decimal is 0, and
-- otherwise the number in millionths, cut to an integer.
pub parse_size_u32_iff :
    (int_part frac : Bytes) (n : ℕ)
    → NoDot int_part
    → (parse_size_u32 (int_part ++ b'.' ∷ frac) ≡ some n) ↔ DenotesSize int_part frac n
parse_size_u32_iff int_part frac n dotless =
    rw (parse_size_u32-append int_part frac dotless) (size_of_parts_iff int_part frac n)

pub parse_size_u32-NoDot : (s : Bytes) → NoDot s → parse_size_u32 s ≡ parse_u32 s
unfolding parse_size_u32 parse_u32
parse_size_u32-NoDot [] h = refl
parse_size_u32-NoDot (c ∷ s) h = ap (size_of_split (c ∷ s)) (split_dot-none (c ∷ s) h)

-- Whatever its form, an accepted size fits 32 bits.
pub parse_size_u32-lt : (s : Bytes) (n : ℕ) → parse_size_u32 s ≡ some n → n < u32_size
unfolding parse_size_u32
parse_size_u32-lt [] n e = cc
parse_size_u32-lt (c ∷ s) n e = elim (Option-cases (split_dot (c ∷ s))) [
  | inl whole ↦
      let e' : parse_u32 (c ∷ s) ≡ some n = ap (size_of_split (c ∷ s)) (sym whole) ∙ e in
      ((parse_u32_iff (c ∷ s) n).0 e').3
  | inr ((int_part, frac), dot) ↦
      let e' : size_of_parts frac (parse_whole int_part) ≡ some n =
        ap (size_of_split (c ∷ s)) (sym dot) ∙ e in
      ((size_of_parts_iff int_part frac n).0 e').4
]
