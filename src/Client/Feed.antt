-- ===== src/Client/Feed.antt =====
-- What the client feeds to the queue, as a specification.
pub mod Messages
pub mod Events
use mathlib.Core.List.{append-nil}
use low_latency_prediction_m.Base.{
  ℕ, ◌-◌, ◌≡◌, ◌≢◌, refl, sym, ◌∙◌, ap, inl, inr, Bool, true, false, not, ◌||◌, Option, none, some,
  List, [], ◌++◌, ◌==◌, ltb, if◌then◌else◌, ◌>>=◌, Bytes, length, take, take-nil, ne→==, Bool-cases,
  arith,
}
use low_latency_prediction_m.Base.Both.{Both}
use low_latency_prediction_m.Book.{MarketTick}
use low_latency_prediction_m.Queue.Invariant.{Holds}
use low_latency_prediction_m.Engine.{tick_queue_size}
use low_latency_prediction_m.Engine.Rounds.{tick_queue-IsSize}
use low_latency_prediction_m.Parser.Json.{Simdjson, ReadsLength}
use low_latency_prediction_m.Parser.Messages.Emitted.{document_emission}
use low_latency_prediction_m.Parser.Messages.Delivery.{
  document_of, document_of_lem, IsReadable, IsTurnedAway, IsTurnedAway-or_read, parse_tick-refused,
  parse_tick-read, parse_tick-delivers,
}
use low_latency_prediction_m.Parser.Messages.{
  Outcome, accepted, refused, terminated, Queue, MarketParser, max_payload_bytes, parse_tick,
}
use low_latency_prediction_m.Client.Session.{take-all}
use low_latency_prediction_m.Client.{
  Operation, resolve, connect, ssl_handshake, ws_handshake, subscribe_write, read, Completion,
  WebSocketClient, on_resolve, on_connect, on_ssl_handshake, on_ws_handshake, on_subscribe,
  on_message, on_read, complete, Event, completed, closing_posted, closed, handle,
}

-- The operation that follows one.
abbrev pub following : Operation → Completion → Option Operation
following resolve r = some connect
following connect r = if r.named then some ssl_handshake else none
following ssl_handshake r = some ws_handshake
following ws_handshake r = some subscribe_write
following subscribe_write r = some read
following read r = some read

-- The operation under way, and the ticks in the queue.
pub record Feed : Type 0 where
  pub pending : Option Operation
  pub items : List MarketTick

-- The ticks of a message that does not end the process.
abbrev pub ticks_if : Outcome × List MarketTick → Option (List MarketTick)
ticks_if (accepted, ticks) = some ticks
ticks_if (refused, ticks) = some ticks
ticks_if (terminated, ticks) = none

-- The buffer is empty while an operation is under way.
abbrev pub CleanAt : Option Operation → Bytes → Type 0
CleanAt none buffer = Unit
CleanAt (some op) buffer = buffer ≡ []

-- `ready` says whether the parser was initialised.
module _ (j : Simdjson) (ready : Bool) where
  -- The ticks that a message gives; `none` where the parser ends the process.
  unfoldable pub ticks_of : Bytes → Option (List MarketTick)
  ticks_of m =
      let e = document_emission j (document_of j (record { initialized = true; buffer = [] }) m) in
      if not ready
      then some []
      else if length m == 0 || ltb max_payload_bytes (length m)
      then some []
      else ticks_if e

  -- The queue takes the ticks that it has room for.
  abbrev pub received : Bytes → Feed → Option Feed
  received m f = do
    ticks ← ticks_of m
    some (record f { items = f.items ++ take (tick_queue_size - length f.items) ticks })

  abbrev pub feed_operation : Operation → Completion → Feed → Option Feed
  feed_operation read r f =
      if r.failed then some (record f { pending = none }) else received r.received f
  feed_operation op r f = some (record f { pending = if r.failed then none else following op r })

  unfoldable pub feed_complete : Completion → Feed → Option Feed
  feed_complete r f = elim (f.pending) [ none ↦ some f | some op ↦ feed_operation op r f ]

  -- Closing does not touch the chain.
  unfoldable pub feed_event : Event → Feed → Option Feed
  unfolding feed_complete
  feed_event (completed r) f = feed_complete r f
  feed_event closing_posted f = some f
  feed_event (closed r) f = some f

  -- The client is where the specification is.
  abbrev pub IsFed : WebSocketClient → Feed → Type 0
  IsFed c f =
      (c.pending ≡ f.pending)
      × CleanAt c.pending c.read_buffer
      × (c.parser.initialized ≡ ready)
      × Holds tick_queue_size c.queue f.items
