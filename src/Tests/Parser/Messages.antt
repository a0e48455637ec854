-- ===== src/Tests/Parser/Messages.antt =====
-- The messages of `MarketParserTest`, as the trees that simdjson reads in them, and the theorems on
-- `MarketParser` at them.
use low_latency_prediction_m.Base.{
  ℕ, ◌≡◌, refl, Bool, true, false, some, List, [], ◌∷◌, Bytes, codes, arith, All, take,
}
use low_latency_prediction_m.Book.{MarketTick}
use low_latency_prediction_m.Book.Levels.{IsTick}
use low_latency_prediction_m.Queue.{empty}
use low_latency_prediction_m.Queue.Invariant.{IsSize, Holds}
use low_latency_prediction_m.Queue.Steps.{empty-Holds}
use low_latency_prediction_m.Parser.Numbers.{
  split_dot, price_of_parts, parse_whole, parse_u32, parse_size_u32, parse_price_cents,
  in_price_range,
}
use low_latency_prediction_m.Parser.Levels.{
  element_string, make_tick, hint_of_text, level_of_texts, read_pair, read_object, read_change,
  change_of_side, with_hints, string_field,
}
use low_latency_prediction_m.Parser.Messages.{
  accepted, MarketParser, Queue, parse_tick, parse_document,
}
use low_latency_prediction_m.Parser.Messages.Emitted.{
  Emission, message_emission, document_emission, batch_emission, typed_emission, event_emission,
  sides_emission, field_emission, levels_emission,
}
use low_latency_prediction_m.Parser.Messages.Play.{play, parse_document-play}
use low_latency_prediction_m.Parser.Messages.Valid.{document_emission-valid}
use low_latency_prediction_m.Parser.Messages.Delivery.{
  IsReadable, document_of, parse_tick-delivers, parse_tick-IsTick, parse_tick-no_stale,
}
use low_latency_prediction_m.Parser.Json.{Simdjson}
use low_latency_prediction_m.Parser.Sample.{
  Node, Items, Fields, text, arr, obj, nil, cons, end, field, sample_json, sample_json-ReadsLength,
}

abbrev pub tick : Bool → ℕ → ℕ → MarketTick
tick is_bid price size = record { price = price; size = size; is_bid = is_bid }

abbrev pair : Bytes → Bytes → Items → Items
pair price size more = cons (arr (cons (text price) (cons (text size) nil))) more

abbrev level : Bytes → Bytes → Fields → Items → Items
level price size others more =
    cons (obj (field (codes "price") (text price) (field (codes "size") (text size) others))) more

-- {"bids":[["0.57","1200"],["0.56","300"]],"asks":[["0.59","500"]]}
abbrev pub mock : Node
mock = obj (
    field (codes "bids")
      (arr (pair (codes "0.57") (codes "1200") (pair (codes "0.56") (codes "300") nil)))
      (field (codes "asks") (arr (pair (codes "0.59") (codes "500") nil)) end))

abbrev book : Node
book = obj (
    field (codes "event_type") (text (codes "book")) (
      field (codes "bids")
        (arr (level (codes ".48") (codes "30") end (level (codes "0.49") (codes "20") end nil)))
        (field (codes "asks") (arr (level (codes ".52") (codes "25") end nil)) end)))

abbrev side : Bytes → Fields
side s = field (codes "side") (text s) end

abbrev price_change : Items → Node
price_change changes = obj (
    field (codes "event_type") (text (codes "price_change"))
      (field (codes "price_changes") (arr changes) end))

abbrev two_changes : Node
two_changes = price_change (
    level (codes "0.50") (codes "200") (side (codes "BUY"))
      (level (codes "0.52") (codes "0") (side (codes "SELL")) nil))

abbrev batch : Node
batch = arr (cons (price_change (level (codes "0.50") (codes "200") (side (codes "BUY")) nil)) nil)

-- The text is not looked into: `sample_json` knows one text, whatever its tree.
abbrev pub payload : Bytes
payload = codes "{..}"

abbrev emission : Node → Emission
emission n = document_emission (sample_json payload n) (some n)

reads_mock :
    emission mock ≡ (accepted, tick true 57 1200 ∷ tick true 56 300 ∷ tick false 59 500 ∷ [])
unfolding document_emission message_emission batch_emission typed_emission event_emission
    sides_emission field_emission levels_emission read_pair read_object read_change change_of_side
    with_hints hint_of_text string_field element_string level_of_texts parse_price_cents split_dot
    price_of_parts parse_whole parse_u32 in_price_range parse_size_u32 make_tick
reads_mock = refl

reads_book : emission book ≡ (accepted, tick true 48 30 ∷ tick true 49 20 ∷ tick false 52 25 ∷ [])
unfolding document_emission message_emission batch_emission typed_emission event_emission
    sides_emission field_emission levels_emission read_pair read_object read_change change_of_side
    with_hints hint_of_text string_field element_string level_of_texts parse_price_cents split_dot
    price_of_parts parse_whole parse_u32 in_price_range parse_size_u32 make_tick
reads_book = refl

reads_price_change : emission two_changes ≡ (accepted, tick true 50 200 ∷ tick false 52 0 ∷ [])
unfolding document_emission message_emission batch_emission typed_emission event_emission
    sides_emission field_emission levels_emission read_pair read_object read_change change_of_side
    with_hints hint_of_text string_field element_string level_of_texts parse_price_cents split_dot
    price_of_parts parse_whole parse_u32 in_price_range parse_size_u32 make_tick
reads_price_change = refl

reads_batch : emission batch ≡ (accepted, tick true 50 200 ∷ [])
unfolding document_emission message_emission batch_emission typed_emission event_emission
    sides_emission field_emission levels_emission read_pair read_object read_change change_of_side
    with_hints hint_of_text string_field element_string level_of_texts parse_price_cents split_dot
    price_of_parts parse_whole parse_u32 in_price_range parse_size_u32 make_tick
reads_batch = refl

sixteen_IsSize : IsSize 16
sixteen_IsSize = record {
  exponent = 4;
  at_least_two = omega arith;
  representable = omega arith;
  power = refl;
}

abbrev parser : MarketParser
parser = record { initialized = true; buffer = [] }

-- A parser with the rest of an earlier message in its buffer.
abbrev used_parser : MarketParser
used_parser = record { initialized = true; buffer = codes "{......}" }

abbrev queue : Queue
queue = empty 16

queue-Holds : Holds 16 queue []
queue-Holds = empty-Holds sixteen_IsSize

abbrev json : Simdjson
json = sample_json payload book

payload_fits : IsReadable json payload
payload_fits = (omega arith, omega arith)

parse_tick-delivers_example :
    let e = document_emission json (document_of json parser payload) in
    let (p', o, q') = parse_tick json 16 parser payload queue in
    (o ≡ e.0) × Holds 16 q' (take 16 e.1)
parse_tick-delivers_example =
    parse_tick-delivers json sixteen_IsSize parser payload queue-Holds refl payload_fits

parse_tick-IsTick_example :
    (items : List MarketTick) × Holds 16 (parse_tick json 16 parser payload queue).2 items
    × All IsTick items
parse_tick-IsTick_example = parse_tick-IsTick json sixteen_IsSize parser payload queue-Holds tt

parse_tick-no_stale_example :
    ((parse_tick json 16 parser payload queue).1 ≡ (parse_tick json 16 used_parser payload queue).1)
    × ((parse_tick json 16 parser payload queue).2
        ≡ (parse_tick json 16 used_parser payload queue).2)
parse_tick-no_stale_example =
    parse_tick-no_stale json 16 parser used_parser payload queue
      (sample_json-ReadsLength payload book) refl

parse_document-play_example :
    parse_document json 16 (some book) queue
    ≡ play json 16 (document_emission json (some book)) queue
parse_document-play_example = parse_document-play json 16 (some book) queue

document_emission-valid_example : All IsTick (emission two_changes).1
document_emission-valid_example =
    document_emission-valid (sample_json payload two_changes) (some two_changes)
