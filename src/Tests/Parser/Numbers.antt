-- ===== src/Tests/Parser/Numbers.antt =====
-- The number formats of `MarketParser` at concrete texts.
use low_latency_prediction_m.Base.{◌≡◌, ◌≢◌, ◌↔◌, ◌<◌, refl, some, true, codes, [], arith}
use low_latency_prediction_m.Base.Words.{u32_size}
use low_latency_prediction_m.Parser.Numbers.{
  split_dot, price_of_parts, parse_whole, size_of_parts, scaled_size, check_fraction,
  scale_fraction, parse_u32, parse_size_u32, parse_price_cents, in_price_range,
}
use low_latency_prediction_m.Parser.Numbers.Decimal.{AllDigits, decimal, parse_u32_iff}
use low_latency_prediction_m.Parser.Numbers.Price.{Denotes, parse_price_cents_iff}
use low_latency_prediction_m.Parser.Numbers.Range.{parse_price_cents-price_text}
use low_latency_prediction_m.Parser.Numbers.Size.{DenotesSize, parse_size_u32_iff}

price_57 : parse_price_cents (codes "0.57") ≡ some 57
unfolding parse_price_cents split_dot price_of_parts parse_whole parse_u32
price_57 = refl

-- The cents of a long whole part are taken modulo 2 ^ 32.
price_wrapped : (parse_price_cents (codes "42949673.00") ≡ some 4) × (in_price_range 4 ≡ true)
unfolding parse_price_cents split_dot price_of_parts parse_whole parse_u32 in_price_range
price_wrapped = (refl, refl)

-- A size below one millionth is read as 0.
size_tiny : parse_size_u32 (codes ".0000009") ≡ some 0
unfolding parse_size_u32 split_dot size_of_parts parse_whole parse_u32 scaled_size check_fraction
    scale_fraction
size_tiny = refl

size_1200 : parse_size_u32 (codes "1200.5") ≡ some 1200500000
unfolding parse_size_u32 split_dot size_of_parts parse_whole parse_u32 scaled_size check_fraction
    scale_fraction
size_1200 = refl

parse_u32_iff_example : (parse_u32 (codes "1200") ≡ some 1200) ↔ (
    (codes "1200" ≢ [])
    × AllDigits (codes "1200")
    × (decimal (codes "1200") 0 ≡ 1200)
    × (1200 < u32_size))
parse_u32_iff_example = parse_u32_iff (codes "1200") 1200

parse_price_cents_iff_example :
    (parse_price_cents (codes "0.575") ≡ some 58) ↔ Denotes (codes "0") (codes "575") 58
parse_price_cents_iff_example = parse_price_cents_iff (codes "0") (codes "575") 58 (omega arith, tt)

parse_price_cents-price_text_example : parse_price_cents (codes "0.57") ≡ some 57
parse_price_cents-price_text_example = parse_price_cents-price_text 57 (omega arith)

parse_size_u32_iff_example :
    (parse_size_u32 (codes "12.5") ≡ some 12500000) ↔ DenotesSize (codes "12") (codes "5") 12500000
parse_size_u32_iff_example = parse_size_u32_iff (codes "12") (codes "5") 12500000 (ground arith)
