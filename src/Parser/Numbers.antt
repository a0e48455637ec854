-- ===== src/Parser/Numbers.antt =====
-- The number formats of `MarketParser`: `parse_u32`, `parse_size_u32`, `parse_price_cents` and
-- `in_price_range`. An out parameter with a `bool` is an option: the caller reads it only on `true`.
pub mod Decimal
pub mod Price
pub mod Rounding
pub mod Range
pub mod Scale
pub mod Size
use low_latency_prediction_m.Base.{
  ℕ, zero, suc, ◌+◌, ◌-◌, ◌*◌, ◌%◌, ◌^◌, Bool, true, false, not, ◌&&◌, ◌||◌, Option, none, some,
  List, [], ◌∷◌, ltb, leb, ◌==◌, if◌then◌else◌, Bytes, length, get_or, drop,
}
use low_latency_prediction_m.Base.Words.{u32_size, word_size}
use low_latency_prediction_m.Book.{min_price, max_price}

pub is_digit : ℕ → Bool
is_digit c = not (ltb c b'0' || ltb b'9' c)

-- `std::errc`, as `std::from_chars` reports it.
pub data Errc : Type 0 where
  success invalid_argument result_out_of_range : Errc

-- `std::from_chars_result` beside the value written; `rest` is the text from `ptr` on.
pub record FromChars : Type 0 where
  pub ec : Errc
  pub rest : Bytes
  pub value : ℕ

-- The longest run of digits, read on from `acc`.
pub scan_digits : Bytes → ℕ → Bytes × ℕ
scan_digits [] acc = ([], acc)
scan_digits (c ∷ s) acc =
    let rest = scan_digits s (acc * 10 + (c - b'0')) in if is_digit c then rest else (c ∷ s, acc)

-- `std::from_chars` into a `std::uint32_t`, base 10: it takes neither a sign nor leading space.
-- `old` is the value before the call, which is written only on success.
pub from_chars : Bytes → ℕ → FromChars
unfolding scan_digits is_digit
from_chars [] old = record { ec = invalid_argument; rest = []; value = old }
from_chars (c ∷ s) old =
    let (rest, n) = scan_digits (c ∷ s) 0 in
    if not (is_digit c)
    then record { ec = invalid_argument; rest = c ∷ s; value = old }
    else if ltb n u32_size
    then record { ec = success; rest = rest; value = n }
    else record { ec = result_out_of_range; rest = rest; value = old }

-- `res.ec != std::errc{} || res.ptr != end` refuses.
pub checked_value : Errc → Bytes → ℕ → Option ℕ
checked_value success [] n = some n
checked_value _ _ n = none

unfoldable pub parse_u32 : Bytes → Option ℕ
unfolding from_chars checked_value
parse_u32 [] = none
parse_u32 (c ∷ s) = let res = from_chars (c ∷ s) 0 in checked_value res.ec res.rest res.value

pub add_front : ℕ → Option (Bytes × Bytes) → Option (Bytes × Bytes)
add_front c none = none
add_front c (some (before, behind)) = some (c ∷ before, behind)

-- `sv.find('.')`, with the texts before and behind the first dot.
unfoldable pub split_dot : Bytes → Option (Bytes × Bytes)
unfolding add_front
split_dot [] = none
split_dot (c ∷ s) = if c == b'.' then some ([], s) else add_front c (split_dot s)

-- The part before the dot may be empty.
unfoldable pub parse_whole : Bytes → Option ℕ
parse_whole [] = some 0
parse_whole (c ∷ s) = parse_u32 (c ∷ s)

-- The loop that checks the fraction of a size: `none` at a character that is no digit, else whether
-- a digit other than 0 was seen.
unfoldable pub check_fraction : Bytes → Bool → Option Bool
unfolding is_digit
check_fraction [] any_nonzero = some any_nonzero
check_fraction (c ∷ s) any_nonzero =
    let rest = check_fraction s (if not (c == b'0') then true else any_nonzero) in
    if not (is_digit c) then none else rest

-- The first loop: at most `left` digits into `frac_scaled`, with the digits that are still missing.
pub take_digits : ℕ → Bytes → ℕ → ℕ × ℕ
take_digits zero s acc = (zero, acc)
take_digits (suc left) [] acc = (suc left, acc)
take_digits (suc left) (c ∷ s) acc =
    take_digits left s ((acc * 10 % u32_size + (c - b'0')) % u32_size)

-- The second loop: `frac_scaled *= 10U` for each missing digit.
pub pad_digits : ℕ → ℕ → ℕ
pad_digits zero acc = acc
pad_digits (suc left) acc = pad_digits left (acc * 10 % u32_size)

unfoldable pub scale_fraction : Bytes → ℕ
unfolding take_digits pad_digits
scale_fraction frac = let (left, acc) = take_digits 6 frac 0 in pad_digits left acc

unfoldable pub scaled_size : ℕ → Bytes → Option Bool → Option ℕ
scaled_size whole frac none = none
scaled_size whole frac (some false) = some whole
scaled_size whole frac (some true) =
    let scaled = (whole * 1000000 + scale_fraction frac) % word_size in
    if ltb (u32_size - 1) scaled then none else some scaled

unfoldable pub size_of_parts : Bytes → Option ℕ → Option ℕ
size_of_parts frac none = none
size_of_parts [] (some whole) = some whole
size_of_parts (c ∷ s) (some whole) = scaled_size whole (c ∷ s) (check_fraction (c ∷ s) false)

pub size_of_split : Bytes → Option (Bytes × Bytes) → Option ℕ
size_of_split sv none = parse_u32 sv
size_of_split sv (some (int_part, frac_part)) = size_of_parts frac_part (parse_whole int_part)

unfoldable pub parse_size_u32 : Bytes → Option ℕ
unfolding size_of_split
parse_size_u32 [] = none
parse_size_u32 (c ∷ s) = size_of_split (c ∷ s) (split_dot (c ∷ s))

-- The lambda `digit_or_zero`; 10 is its mark for a character that is no digit.
pub digit_or_zero : Bytes → ℕ → ℕ
unfolding is_digit
digit_or_zero frac i =
    if leb (length frac) i
    then 0
    else if not (is_digit (get_or frac i 0))
    then 10
    else get_or frac i 0 - b'0'

-- The loop over the characters from the fourth on.
pub all_digits : Bytes → Bool
unfolding is_digit
all_digits [] = true
all_digits (c ∷ s) = is_digit c && all_digits s

unfoldable pub price_of_parts : Bytes → Option ℕ → Option ℕ
unfolding digit_or_zero all_digits
price_of_parts frac none = none
price_of_parts frac (some whole) =
    let d0 = digit_or_zero frac 0 in
    let d1 = digit_or_zero frac 1 in
    let third = get_or frac 2 0 in
    let rounding_digit = if leb 3 (length frac) then third - b'0' else 0 in
    let cents = (whole * 100 % u32_size + (d0 * 10 + d1)) % u32_size in
    if ltb 9 d0 || ltb 9 d1
    then none
    else if leb 3 (length frac) && not (is_digit third)
    then none
    else if not (all_digits (drop 3 frac))
    then none
    else some (if leb 5 rounding_digit then (cents + 1) % u32_size else cents)

pub price_of_split : Bytes → Option (Bytes × Bytes) → Option ℕ
price_of_split sv none = parse_u32 sv
price_of_split sv (some (int_part, [])) = none
price_of_split sv (some (int_part, c ∷ s)) = price_of_parts (c ∷ s) (parse_whole int_part)

unfoldable pub parse_price_cents : Bytes → Option ℕ
unfolding price_of_split
parse_price_cents [] = none
parse_price_cents (c ∷ s) = price_of_split (c ∷ s) (split_dot (c ∷ s))

unfoldable pub in_price_range : ℕ → Bool
in_price_range cents = leb min_price cents && leb cents max_price
