-- ===== src/Client/Feed/Messages.antt =====
-- One message through `on_read` of `WebSocketClient`, against the specification.
use mathlib.Core.List.{append-nil}
use low_latency_prediction_m.Base.{
  ℕ, ◌-◌, ◌≡◌, ◌≢◌, refl, sym, ◌∙◌, ap, inl, inr, Bool, true, false, none, some, List, [], ◌++◌,
  ◌==◌, ◌>>=◌, Bytes, length, take, take-nil, ne→==, Bool-cases, arith,
}
use low_latency_prediction_m.Base.Both.{Both}
use low_latency_prediction_m.Book.{MarketTick}
use low_latency_prediction_m.Queue.Invariant.{Holds}
use low_latency_prediction_m.Engine.{tick_queue_size}
use low_latency_prediction_m.Engine.Rounds.{tick_queue-IsSize}
use low_latency_prediction_m.Parser.Json.{Simdjson, ReadsLength}
use low_latency_prediction_m.Parser.Messages.Emitted.{document_emission}
use low_latency_prediction_m.Parser.Messages.Delivery.{
  document_of, document_of_lem, IsReadable, IsTurnedAway, IsTurnedAway-or_read, parse_tick-refused,
  parse_tick-read, parse_tick-delivers,
}
use low_latency_prediction_m.Parser.Messages.{
  Outcome, accepted, refused, terminated, Queue, MarketParser, parse_tick,
}
use low_latency_prediction_m.Client.{read, WebSocketClient, on_message}
use low_latency_prediction_m.Client.Feed.{ticks_if, ticks_of, received, IsFed}

module _ (j : Simdjson) (ready : Bool) where
  -- What `on_message` leaves, by the length of the message and the outcome of `parse_tick`.
  silent : WebSocketClient → WebSocketClient
  silent c = record c { read_buffer = []; pending = some read }

  parsed : Bytes → WebSocketClient → WebSocketClient
  parsed m c =
      let (parser', outcome, queue') = parse_tick j tick_queue_size c.parser m c.queue in
      record c { parser = parser'; queue = queue'; read_buffer = []; pending = some read }

  on_message-silent :
      (m : Bytes) (c : WebSocketClient)
      → (length m == 0) ≡ true
      → on_message j m c ≡ some (silent c)
  unfolding on_message silent
  on_message-silent m c e = rw e refl

  on_message-parsed :
      (m : Bytes) (c : WebSocketClient)
      → (length m == 0) ≡ false
      → (parse_tick j tick_queue_size c.parser m c.queue).1 ≢ terminated
      → on_message j m c ≡ some (parsed m c)
  unfolding on_message parsed
  on_message-parsed m c e h = ground arith

  on_message-ended :
      (m : Bytes) (c : WebSocketClient)
      → (length m == 0) ≡ false
      → (parse_tick j tick_queue_size c.parser m c.queue).1 ≡ terminated
      → on_message j m c ≡ none
  unfolding on_message
  on_message-ended m c e h = ground arith

  parse_tick-initialized :
      (size : ℕ) (p : MarketParser) (m : Bytes) (q : Queue)
      → (parse_tick j size p m q).0.initialized ≡ p.initialized
  parse_tick-initialized size p m q = elim (IsTurnedAway-or_read j p m) [
    | inl away ↦ rw (parse_tick-refused j size p m q away) refl
    | inr (on, fits) ↦ rw (parse_tick-read j size p m q on fits) refl
  ]

  ticks_of-away :
      (p : MarketParser) (m : Bytes)
      → p.initialized ≡ ready
      → IsTurnedAway j p m
      → ticks_of j ready m ≡ some []
  unfolding ticks_of
  ticks_of-away p m ini away = ground arith

  ticks_of-read :
      (p : MarketParser) (m : Bytes)
      → ReadsLength j
      → p.initialized ≡ ready
      → p.initialized ≡ true
      → IsReadable j m
      → ticks_of j ready m ≡ ticks_if (document_emission j (document_of j p m))
  unfolding ticks_of
  ticks_of-read p m reads ini on fits =
      rw (document_of_lem j p (record { initialized = true; buffer = [] }) m reads) (ground arith)

  parsed-IsFed :
      (m : Bytes) (c : WebSocketClient) (items : List MarketTick)
      → c.parser.initialized ≡ ready
      → Holds tick_queue_size (parse_tick j tick_queue_size c.parser m c.queue).2 items
      → IsFed j ready (parsed m c) (record { pending = some read; items = items })
  unfolding parsed
  parsed-IsFed m c items ini h =
      (refl, refl, parse_tick-initialized tick_queue_size c.parser m c.queue ∙ ini, h)

  outcome-IsFed :
      (o : Outcome) (ticks : List MarketTick) (m : Bytes) (c : WebSocketClient)
      (items : List MarketTick)
      → length m ≢ 0
      → c.parser.initialized ≡ ready
      → (parse_tick j tick_queue_size c.parser m c.queue).1 ≡ o
      → Holds tick_queue_size
          (parse_tick j tick_queue_size c.parser m c.queue).2
          (items ++ take (tick_queue_size - length items) ticks)
      → Both (IsFed j ready) (on_message j m c) (
          ticks_if (o, ticks) >>= λ ticks. some (record {
            pending = some read;
            items = items ++ take (tick_queue_size - length items) ticks;
          }))
  outcome-IsFed accepted ticks m c items some_byte ini e h =
      rw (on_message-parsed m c (ne→== (length m) 0 some_byte) (λ t. cc)) (parsed-IsFed m c _ ini h)
  outcome-IsFed refused ticks m c items some_byte ini e h =
      rw (on_message-parsed m c (ne→== (length m) 0 some_byte) (λ t. cc)) (parsed-IsFed m c _ ini h)
  outcome-IsFed terminated ticks m c items some_byte ini e h =
      rw (on_message-ended m c (ne→== (length m) 0 some_byte) e) tt

  pub on_message-IsFed :
      (m : Bytes) (c : WebSocketClient) (items : List MarketTick)
      → ReadsLength j
      → c.parser.initialized ≡ ready
      → Holds tick_queue_size c.queue items
      → Both
          (IsFed j ready)
          (on_message j m c)
          (received j ready m (record { pending = some read; items = items }))
  unfolding silent
  on_message-IsFed m c items reads ini h = elim (IsTurnedAway-or_read j c.parser m) [
    | inl away ↦
        let same : items ++ take (tick_queue_size - length items) [] ≡ items =
          rw (take-nil (tick_queue_size - length items)) (append-nil items) in
        rw (ticks_of-away c.parser m ini away, same)
          (elim (Bool-cases (length m == 0)) [
            | inl empty ↦ rw (on_message-silent m c empty) (refl, refl, ini, h)
            | inr full ↦
                let e = parse_tick-refused j tick_queue_size c.parser m c.queue away in
                rw
                  (on_message-parsed m c full
                    (λ t. let bad : refused ≡ terminated = sym (ap (λ x. x.1) e) ∙ t in cc))
                  (parsed-IsFed m c items ini (rw e h))
          ])
    | inr (on, fits) ↦
        let (outcome, holds) = parse_tick-delivers j tick_queue-IsSize c.parser m h on fits in
        let e = document_emission j (document_of j c.parser m) in
        rw (ticks_of-read c.parser m reads ini on fits)
          (outcome-IsFed e.0 e.1 m c items (omega (arith, fits.0)) ini outcome holds)
  ]
