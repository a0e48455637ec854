-- ===== src/Parser/Messages/Emitted.antt =====
-- The ticks of a message, told without the queue: what each function of `MarketParser` emits and how
-- it ends depend on the message alone.
use low_latency_prediction_m.Base.{
  Bool, true, false, Option, none, some, List, [], ◌∷◌, ◌++◌, if◌then◌else◌, Bytes, codes,
  same_text,
}
use low_latency_prediction_m.Book.{MarketTick}
use low_latency_prediction_m.Parser.Json.{Simdjson, Found, found, no_such_field, failed}
use low_latency_prediction_m.Parser.Levels.{
  Level, push, skip, refuse, throw, read_pair, read_object, read_change,
}
use low_latency_prediction_m.Parser.Messages.{Outcome, accepted, refused, terminated}

-- How a call ends, and the ticks that it emits before it does.
abbrev pub Emission : Type 0
Emission = Outcome × List MarketTick

-- The ticks of the first, and those of the second if the first was accepted.
abbrev pub followed_by : Emission → Emission → Emission
followed_by (accepted, ticks) (o, more) = (o, ticks ++ more)
followed_by (refused, ticks) next = (refused, ticks)
followed_by (terminated, ticks) next = (terminated, ticks)

-- A refused message of a batch counts for the ticks that it had emitted.
abbrev pub forgiven : Emission → Emission
forgiven (refused, ticks) = (accepted, ticks)
forgiven (accepted, ticks) = (accepted, ticks)
forgiven (terminated, ticks) = (terminated, ticks)

module _ (j : Simdjson) where
  open j use {
    Document, Value, Object, elements, find_field_unordered, get_string, get_array, get_object,
    document_object, document_array,
  }

  -- The levels up to the first that refuses the message or throws.
  unfoldable pub levels_emission : (Option Value → Level) → List (Option Value) → Emission
  levels_emission read [] = (accepted, [])
  levels_emission read (e ∷ es) = elim (read e) [
    | push ticks ↦ followed_by (accepted, ticks) (levels_emission read es)
    | skip ↦ levels_emission read es
    | refuse ↦ (refused, [])
    | throw ↦ (terminated, [])
  ]

  unfoldable pub field_emission : (Option Value → Level) → Found Value → Emission
  field_emission read no_such_field = (accepted, [])
  field_emission read failed = (refused, [])
  field_emission read (found v) = elim (get_array v) [
    | none ↦ (refused, [])
    | some levels ↦ levels_emission read (elements levels)
  ]

  -- Bids before asks.
  unfoldable pub sides_emission : (Bool → Option Value → Level) → Object → Emission
  sides_emission read obj =
      followed_by (field_emission (read true) (find_field_unordered obj (codes "bids")))
        (field_emission (read false) (find_field_unordered obj (codes "asks")))

  unfoldable pub event_emission : Object → Bytes → Emission
  event_emission obj event_type =
      if same_text event_type (codes "book")
      then sides_emission (read_object j) obj
      else if same_text event_type (codes "price_change")
      then field_emission (read_change j) (find_field_unordered obj (codes "price_changes"))
      else (accepted, [])

  unfoldable pub typed_emission : Object → Found Value → Emission
  typed_emission obj (found v) = elim (get_string v) [
    | none ↦ sides_emission (read_pair j) obj
    | some event_type ↦ event_emission obj event_type
  ]
  typed_emission obj no_such_field = sides_emission (read_pair j) obj
  typed_emission obj failed = (refused, [])

  unfoldable pub message_emission : Object → Emission
  message_emission obj = typed_emission obj (find_field_unordered obj (codes "event_type"))

  unfoldable pub batch_emission : List (Option Value) → Emission
  batch_emission [] = (accepted, [])
  batch_emission (none ∷ es) = (terminated, [])
  batch_emission (some v ∷ es) = elim (get_object v) [
    | none ↦ batch_emission es
    | some obj ↦ followed_by (forgiven (message_emission obj)) (batch_emission es)
  ]

  unfoldable pub document_emission : Option Document → Emission
  document_emission none = (refused, [])
  document_emission (some doc) = elim (document_object doc) [
    | some obj ↦ message_emission obj
    | none ↦ elim (document_array doc) [
      | none ↦ (refused, [])
      | some arr ↦ batch_emission (elements arr)
    ]
  ]
