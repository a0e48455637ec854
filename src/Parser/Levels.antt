-- ===== src/Parser/Levels.antt =====
-- The bodies of the three level loops of `MarketParser`: what one element of an array of levels makes
-- the parser do, with the ticks it pushes.
pub mod Valid
use low_latency_prediction_m.Base.{
  ℕ, ◌%◌, ◌≡◌, Bool, true, false, not, ◌&&◌, ◌||◌, Option, none, some, List, [], ◌∷◌, ◌++◌, ◌==◌,
  if◌then◌else◌, Bytes, codes, same_text,
}
use low_latency_prediction_m.Book.{MarketTick}
use low_latency_prediction_m.Parser.Numbers.{parse_price_cents, parse_size_u32, in_price_range}
use low_latency_prediction_m.Parser.Json.{Simdjson, Found, found, no_such_field, failed}

-- `push` pushes the ticks in order and goes on, `skip` is `continue`, `refuse` is `return false`, and
-- `throw` is an exception that leaves the `noexcept` function.
pub data Level : Type 0 where
  push : List MarketTick → Level
  skip refuse throw : Level

unfoldable pub make_tick : ℕ → ℕ → Bool → MarketTick
make_tick cents size is_bid = record { price = cents % 256; size = size; is_bid = is_bid }

pub with_size : Bool → ℕ → Option ℕ → Level
with_size is_bid cents none = skip
with_size is_bid cents (some size) = push (make_tick cents size is_bid ∷ [])

pub with_price : Bool → Bytes → Option ℕ → Level
with_price is_bid size_sv none = skip
with_price is_bid size_sv (some cents) =
    if not (in_price_range cents) then skip else with_size is_bid cents (parse_size_u32 size_sv)

-- The end of each loop body, from the two texts on.
unfoldable pub level_of_texts : Bool → Bytes → Bytes → Level
unfolding with_price with_size
level_of_texts is_bid price_sv size_sv = with_price is_bid size_sv (parse_price_cents price_sv)

module _ (j : Simdjson) where
  open j use {
    Value, Object, Array, find_field_unordered, get_string, get_array, get_object, elements,
  }

  -- `(*it).get_string()`
  unfoldable pub element_string : Option Value → Option Bytes
  element_string none = none
  element_string (some v) = get_string v

  -- `obj.find_field_unordered(key)` and `get_string()`, both to succeed.
  pub string_of_found : Found Value → Option Bytes
  string_of_found (found v) = get_string v
  string_of_found no_such_field = none
  string_of_found failed = none

  unfoldable pub string_field : Object → Bytes → Option Bytes
  unfolding string_of_found
  string_field obj key = string_of_found (find_field_unordered obj key)

  -- Exactly two elements, the second of them read only if the first is a string.
  pub level_of_rest : Bool → Bytes → List (Option Value) → Level
  level_of_rest is_bid price_sv [] = refuse
  level_of_rest is_bid price_sv (e ∷ more) = elim (element_string e) [
    | none ↦ skip
    | some size_sv ↦ elim more [ [] ↦ level_of_texts is_bid price_sv size_sv | x ∷ xs ↦ refuse ]
  ]

  pub level_of_pair : Bool → List (Option Value) → Level
  unfolding level_of_rest
  level_of_pair is_bid [] = refuse
  level_of_pair is_bid (e ∷ rest) = elim (element_string e) [
    | none ↦ skip
    | some price_sv ↦ level_of_rest is_bid price_sv rest
  ]

  -- The body of `parse_levels`: a level is a pair of strings.
  unfoldable pub read_pair : Bool → Option Value → Level
  unfolding level_of_pair
  read_pair is_bid none = throw
  read_pair is_bid (some v) = elim (get_array v) [
    | none ↦ refuse
    | some pair ↦ level_of_pair is_bid (elements pair)
  ]

  pub level_of_object : Bool → Object → Level
  unfolding string_field
  level_of_object is_bid obj = elim (string_field obj (codes "price")) [
    | none ↦ skip
    | some price_sv ↦ elim (string_field obj (codes "size")) [
      | none ↦ skip
      | some size_sv ↦ level_of_texts is_bid price_sv size_sv
    ]
  ]

  -- The body of `parse_object_levels`: a level is an object.
  unfoldable pub read_object : Bool → Option Value → Level
  unfolding level_of_object
  read_object is_bid none = throw
  read_object is_bid (some v) = elim (get_object v) [
    | none ↦ refuse
    | some obj ↦ level_of_object is_bid obj
  ]

  -- A top-of-book hint: a tick of size 1, where the text is a price of the grid other than 0.
  unfoldable pub hint_of_text : Bool → Option Bytes → List MarketTick
  hint_of_text is_bid none = []
  hint_of_text is_bid (some sv) = elim (parse_price_cents sv) [
    | none ↦ []
    | some cents ↦
        if in_price_range cents && not (cents == 0) then make_tick cents 1 is_bid ∷ [] else []
  ]

  -- The two hints follow the tick of the change itself.
  unfoldable pub with_hints : Object → Level → Level
  unfolding hint_of_text string_field
  with_hints obj (push ticks) = push (
      ticks
      ++ hint_of_text true (string_field obj (codes "best_bid"))
      ++ hint_of_text false (string_field obj (codes "best_ask")))
  with_hints obj other = other

  unfoldable pub change_of_side : Object → Bytes → Bytes → Bytes → Level
  unfolding with_hints
  change_of_side obj price_sv size_sv side_sv =
      let is_bid = same_text side_sv (codes "BUY") in
      let is_ask = same_text side_sv (codes "SELL") in
      if not is_bid && not is_ask
      then skip
      else with_hints obj (level_of_texts is_bid price_sv size_sv)

  pub change_of_object : Object → Level
  unfolding change_of_side string_field
  change_of_object obj = elim (string_field obj (codes "price")) [
    | none ↦ skip
    | some price_sv ↦ elim (string_field obj (codes "size")) [
      | none ↦ skip
      | some size_sv ↦ elim (string_field obj (codes "side")) [
        | none ↦ skip
        | some side_sv ↦ change_of_side obj price_sv size_sv side_sv
      ]
    ]
  ]

  -- The body of `parse_price_change`.
  unfoldable pub read_change : Option Value → Level
  unfolding change_of_object
  read_change none = throw
  read_change (some v) = elim (get_object v) [ none ↦ refuse | some obj ↦ change_of_object obj ]
