-- ===== src/Parser/Numbers/Decimal.antt =====
-- `parse_u32` against the decimal value of a text, and the search for the dot.
use native.Mathlib.Nat.{pow-suc, mul-le-mul, le_refl}
use low_latency_prediction_m.Base.{
  ℕ, suc, ◌+◌, ◌-◌, ◌*◌, ◌^◌, ◌≤◌, ◌<◌, ◌≡◌, ◌≢◌, ◌↔◌, refl, sym, ◌∙◌, ap, true, none, some, [],
  ◌∷◌, ◌++◌, arith, Bytes, length, All,
}
use low_latency_prediction_m.Base.Words.{u32_size}
use low_latency_prediction_m.Parser.Numbers.{is_digit, scan_digits, parse_u32, split_dot}

abbrev pub IsDigit : ℕ → Type 0
IsDigit c = (b'0' ≤ c) × (c ≤ b'9')

abbrev pub AllDigits : Bytes → Type 0
AllDigits = All IsDigit

abbrev pub NoDot : Bytes → Type 0
NoDot = All λ c. c ≢ b'.'

-- The number that a text of digits stands for, read on from `acc`.
abbrev pub decimal : Bytes → ℕ → ℕ
decimal [] acc = acc
decimal (c ∷ s) acc = decimal s (acc * 10 + (c - b'0'))

pub is_digit_iff : (c : ℕ) → (is_digit c ≡ true) ↔ IsDigit c
unfolding is_digit
is_digit_iff c = ground arith

pub decimal-acc : (s : Bytes) (acc : ℕ) → decimal s acc ≡ acc * 10 ^ length s + decimal s 0
decimal-acc [] acc = omega arith
decimal-acc (c ∷ s) acc =
    decimal-acc s (acc * 10 + (c - b'0'))
    ∙ shift acc (c - b'0') _ (decimal s 0) _ (pow-suc 10 (length s))
    ∙ ap (λ t. acc * 10 ^ suc (length s) + t) (sym (decimal-acc s (0 + (c - b'0'))))
  where
    shift : (a d p x q : ℕ) → q ≡ p * 10 → (a * 10 + d) * p + x ≡ a * q + ((0 + d) * p + x)
    shift a d p x q e = rw e (omega arith)

pub decimal-lt : (s : Bytes) → AllDigits s → decimal s 0 < 10 ^ length s
decimal-lt [] h = omega arith
decimal-lt (c ∷ s) h =
    rw (decimal-acc s (0 + (c - b'0')), pow-suc 10 (length s))
      (top (c - b'0') (10 ^ length s) (decimal s 0) (omega arith) (decimal-lt s h.1))
  where
    top : (d p x : ℕ) → d ≤ 9 → x < p → (0 + d) * p + x < p * 10
    top d p x small lt = omega (arith, mul-le-mul small (le_refl p))

scan_digits-all : (s : Bytes) (acc : ℕ) → AllDigits s → scan_digits s acc ≡ ([], decimal s acc)
unfolding scan_digits
scan_digits-all [] acc h = refl
scan_digits-all (c ∷ s) acc h =
    rw ((is_digit_iff c).1 h.0) (scan_digits-all s (acc * 10 + (c - b'0')) h.1)

scan_digits-rest : (s : Bytes) (acc : ℕ) → (scan_digits s acc).0 ≡ [] → AllDigits s
unfolding scan_digits
scan_digits-rest [] acc e = tt
scan_digits-rest (c ∷ s) acc e =
    ground (arith, is_digit_iff c, scan_digits-rest s (acc * 10 + (c - b'0')))

-- `parse_u32` accepts exactly the non-empty texts of decimal digits whose value fits 32 bits, and
-- gives their value. Leading zeros are taken; a sign, a space or a dot is refused.
pub parse_u32_iff :
    (s : Bytes) (n : ℕ)
    → (parse_u32 s ≡ some n) ↔ ((s ≢ []) × AllDigits s × (decimal s 0 ≡ n) × (n < u32_size))
unfolding parse_u32
parse_u32_iff [] n = (λ e. cc, λ h. absurd (h.0 refl))
parse_u32_iff (c ∷ s) n = (
  λ e. ground (
    arith,
    is_digit_iff c,
    scan_digits-rest s (0 + (c - b'0')),
    scan_digits-all s (0 + (c - b'0')),
  ),
  λ h. ground (arith, is_digit_iff c, scan_digits-all s (0 + (c - b'0'))),
)

pub split_dot-append :
    (before behind : Bytes)
    → NoDot before
    → split_dot (before ++ b'.' ∷ behind) ≡ some (before, behind)
unfolding split_dot
split_dot-append [] behind h = refl
split_dot-append (c ∷ before) behind h = ground (arith, split_dot-append before behind h.1)

pub split_dot-none : (s : Bytes) → NoDot s → split_dot s ≡ none
unfolding split_dot
split_dot-none [] h = refl
split_dot-none (c ∷ s) h = ground (arith, split_dot-none s h.1)

pub AllDigits-NoDot : (s : Bytes) → AllDigits s → NoDot s
AllDigits-NoDot [] h = tt
AllDigits-NoDot (c ∷ s) h = (λ e. omega arith, AllDigits-NoDot s h.1)
