-- ===== src/Parser/Json.antt =====
-- What `MarketParser` uses of simdjson's On-Demand interface. The library is not part of the
-- repository: its types and calls are the fields of a record that the parser takes as a parameter.
use low_latency_prediction_m.Base.{ℕ, Bool, Option, List, Bytes, ◌≡◌, take}

-- `find_field_unordered(key).get(value)`: `SUCCESS`, `NO_SUCH_FIELD`, or any other error code.
pub data Found (V : Type 0) : Type 0 where
  found : V → Found V
  no_such_field : Found V
  failed : Found V

-- An option is a call whose error code the program compares with `SUCCESS` alone. `elements` lists
-- what iterating an array yields; `none` is an element that carries an error. Reading such an element
-- into a variable of type `value` throws `simdjson_error`, and calling `get_string` on it gives the
-- error.
pub record Simdjson : Type 1 where
  pub Document : Type 0
  pub Value : Type 0
  pub Object : Type 0
  pub Array : Type 0
  pub padding : ℕ
  pub allocate : ℕ → Bool
  pub iterate : Bytes → ℕ → Option Document
  pub document_object : Document → Option Object
  pub document_array : Document → Option Array
  pub find_field_unordered : Object → Bytes → Found Value
  pub get_string : Value → Option Bytes
  pub get_array : Value → Option Array
  pub get_object : Value → Option Object
  pub elements : Array → List (Option Value)

-- The document is read from the first `len` bytes alone: the padding behind them need only exist.
abbrev pub ReadsLength : Simdjson → Type 0
ReadsLength j =
    (a b : Bytes) (len : ℕ) → take len a ≡ take len b → j.iterate a len ≡ j.iterate b len
