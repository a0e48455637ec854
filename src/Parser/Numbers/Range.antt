-- ===== src/Parser/Numbers/Range.antt =====
-- Prices of the grid: what `in_price_range` lets through after `parse_price_cents`.
use low_latency_prediction_m.Base.{
  ℕ, ◌+◌, ◌/◌, ◌%◌, ◌≤◌, ◌<◌, ◌≡◌, ◌↔◌, true, some, [], ◌∷◌, arith, Bytes,
}
use low_latency_prediction_m.Parser.Numbers.{parse_price_cents, in_price_range}
use low_latency_prediction_m.Parser.Numbers.Price.{parse_price_cents_iff}

pub in_price_range_iff : (cents : ℕ) → (in_price_range cents ≡ true) ↔ (cents ≤ 100)
unfolding in_price_range
in_price_range_iff cents = ground arith

-- Two decimals, as the feeds write a price below 10.
abbrev pub price_text : ℕ → Bytes
price_text cents = (b'0' + cents / 100) ∷ b'.' ∷ (b'0' + cents / 10 % 10) ∷ (b'0' + cents % 10) ∷ []

-- Every price below 10, written with two decimals, is read back; so is every price of the grid.
pub parse_price_cents-price_text :
    (cents : ℕ) → cents < 1000 → parse_price_cents (price_text cents) ≡ some cents
parse_price_cents-price_text cents lt =
    (parse_price_cents_iff (head ∷ []) (tens ∷ ones ∷ []) cents (ground arith)).1
      (omega arith, omega arith, (λ e. ground arith), omega arith, omega arith)
  where
    head : ℕ
    head = b'0' + cents / 100

    tens : ℕ
    tens = b'0' + cents / 10 % 10

    ones : ℕ
    ones = b'0' + cents % 10
