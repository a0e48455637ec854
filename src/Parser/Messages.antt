-- ===== src/Parser/Messages.antt =====
-- The message functions of `MarketParser`, from `parse_tick` down to the level loops. A function that
-- is given the queue returns how it ended and the queue it leaves.
pub mod Emitted
pub mod Play
pub mod Valid
pub mod Delivery
use low_latency_prediction_m.Base.{
  ℕ, ◌+◌, ◌-◌, Bool, true, false, not, ◌||◌, Option, none, some, List, [], ◌∷◌, ◌++◌, ◌==◌, ltb,
  if◌then◌else◌, Bytes, codes, same_text, length, drop, replicate,
}
use low_latency_prediction_m.Book.{MarketTick}
use low_latency_prediction_m.Queue.{SpscQueue}
use low_latency_prediction_m.Queue as Spsc
use low_latency_prediction_m.Parser.Json.{Simdjson, Found, found, no_such_field, failed}
use low_latency_prediction_m.Parser.Levels.{
  Level, push, skip, refuse, throw, read_pair, read_object, read_change,
}

-- `return true`, `return false`, or an exception in a `noexcept` function, which ends the process by
-- `std::terminate`.
pub data Outcome : Type 0 where
  accepted refused terminated : Outcome

abbrev pub Queue : Type 0
Queue = SpscQueue MarketTick

abbrev pub max_payload_bytes : ℕ
max_payload_bytes = 65536

-- `parser_` is part of the parameter; `buffer` is `buffer_`.
pub record MarketParser : Type 0 where
  pub initialized : Bool
  pub buffer : Bytes

-- `if (!first) return false; if (!second) return false; return true;`
abbrev pub and_then : Outcome × Queue → (Queue → Outcome × Queue) → Outcome × Queue
and_then r second = elim (r.0) [ accepted ↦ second r.1 | refused ↦ r | terminated ↦ r ]

module _ (size : ℕ) where
  -- `(void)out_queue.push(tick)`: a tick that finds the queue full is dropped.
  pub push_all : List MarketTick → Queue → Queue
  push_all [] q = q
  push_all (t ∷ ticks) q = push_all ticks (Spsc.push size q t).0

module _ (j : Simdjson) where
  open j use {padding, allocate}

  -- The constructor.
  unfoldable pub init : MarketParser
  init = record {
    initialized = allocate (max_payload_bytes + padding);
    buffer = replicate (max_payload_bytes + padding) 0;
  }

  -- The buffer after `memcpy` and `memset`.
  unfoldable pub fill : Bytes → Bytes → Bytes
  fill payload buffer = payload ++ (replicate padding 0 ++ drop (length payload + padding) buffer)

module _ (j : Simdjson) (size : ℕ) where
  open j use {
    Document, Value, Object, Array, iterate, document_object, document_array, find_field_unordered,
    get_string, get_array, get_object, elements,
  }

  -- `for (value level_val : levels)` around one of the three bodies.
  pub read_levels : (Option Value → Level) → List (Option Value) → Queue → Outcome × Queue
  read_levels read [] q = (accepted, q)
  read_levels read (e ∷ es) q = elim (read e) [
    | push ticks ↦ read_levels read es (push_all size ticks q)
    | skip ↦ read_levels read es q
    | refuse ↦ (refused, q)
    | throw ↦ (terminated, q)
  ]

  -- The array below an optional field.
  pub read_found : (Option Value → Level) → Found Value → Queue → Outcome × Queue
  unfolding read_levels
  read_found read no_such_field q = (accepted, q)
  read_found read failed q = (refused, q)
  read_found read (found v) q = elim (get_array v) [
    | none ↦ (refused, q)
    | some levels ↦ read_levels read (elements levels) q
  ]

  pub parse_levels : Object → Bytes → Bool → Queue → Outcome × Queue
  unfolding read_found
  parse_levels obj field is_bid q =
      read_found (read_pair j is_bid) (find_field_unordered obj field) q

  pub parse_object_levels : Object → Bytes → Bool → Queue → Outcome × Queue
  unfolding read_found
  parse_object_levels obj field is_bid q =
      read_found (read_object j is_bid) (find_field_unordered obj field) q

  pub parse_price_change : Object → Queue → Outcome × Queue
  unfolding read_found
  parse_price_change obj q =
      read_found (read_change j) (find_field_unordered obj (codes "price_changes")) q

  pub parse_book : Object → Queue → Outcome × Queue
  unfolding parse_object_levels
  parse_book obj q =
      and_then (parse_object_levels obj (codes "bids") true q)
        (parse_object_levels obj (codes "asks") false)

  -- The internal mock feed.
  pub parse_mock : Object → Queue → Outcome × Queue
  unfolding parse_levels
  parse_mock obj q =
      and_then (parse_levels obj (codes "bids") true q) (parse_levels obj (codes "asks") false)

  pub parse_event : Object → Bytes → Queue → Outcome × Queue
  unfolding parse_book parse_price_change
  parse_event obj event_type q =
      if same_text event_type (codes "book")
      then parse_book obj q
      else if same_text event_type (codes "price_change")
      then parse_price_change obj q
      else (accepted, q)

  pub parse_typed : Object → Found Value → Queue → Outcome × Queue
  unfolding parse_event parse_mock
  parse_typed obj (found v) q = elim (get_string v) [
    | none ↦ parse_mock obj q
    | some event_type ↦ parse_event obj event_type q
  ]
  parse_typed obj no_such_field q = parse_mock obj q
  parse_typed obj failed q = (refused, q)

  pub parse_message_object : Object → Queue → Outcome × Queue
  unfolding parse_typed
  parse_message_object obj q = parse_typed obj (find_field_unordered obj (codes "event_type")) q

  -- The loop over a batch: an element that is no object is skipped, and how an element's message ends
  -- is ignored, unless it ends the process.
  pub parse_batch : List (Option Value) → Queue → Outcome × Queue
  unfolding parse_message_object
  parse_batch [] q = (accepted, q)
  parse_batch (none ∷ es) q = (terminated, q)
  parse_batch (some v ∷ es) q = elim (get_object v) [
    | none ↦ parse_batch es q
    | some obj ↦
        let r = parse_message_object obj q in
        let rest = parse_batch es r.1 in
        elim (r.0) [ terminated ↦ r | accepted ↦ rest | refused ↦ rest ]
  ]

  pub parse_document : Option Document → Queue → Outcome × Queue
  unfolding parse_batch parse_message_object
  parse_document none q = (refused, q)
  parse_document (some doc) q = elim (document_object doc) [
    | some obj ↦ parse_message_object obj q
    | none ↦ elim (document_array doc) [
      | none ↦ (refused, q)
      | some arr ↦ parse_batch (elements arr) q
    ]
  ]

  pub parse_tick : MarketParser → Bytes → Queue → MarketParser × Outcome × Queue
  parse_tick p payload q =
      let len = length payload in
      let buffer = fill j payload p.buffer in
      let r = parse_document (iterate buffer len) q in
      if not p.initialized
      then (p, refused, q)
      else if len == 0 || ltb max_payload_bytes len
      then (p, refused, q)
      else (record p { buffer = buffer }, r.0, r.1)
