-- ===== src/Client/Feed/Events.antt =====
-- Every handler of `WebSocketClient` against the specification.
use low_latency_prediction_m.Base.{
  ◌≡◌, refl, ◌∙◌, ap, Bool, true, false, Option, none, some, List, [], ◌++◌, Bytes, length, take,
  arith,
}
use low_latency_prediction_m.Base.Both.{Both}
use low_latency_prediction_m.Book.{MarketTick}
use low_latency_prediction_m.Queue.Invariant.{Holds}
use low_latency_prediction_m.Engine.{tick_queue_size}
use low_latency_prediction_m.Parser.Json.{Simdjson, ReadsLength}
use low_latency_prediction_m.Client.Session.{take-all}
use low_latency_prediction_m.Client.{
  Operation, resolve, connect, ssl_handshake, ws_handshake, subscribe_write, read, Completion,
  WebSocketClient, on_resolve, on_connect, on_ssl_handshake, on_ws_handshake, on_subscribe,
  on_message, on_read, complete, Event, completed, closing_posted, closed, handle,
}
use low_latency_prediction_m.Client.Feed.{Feed, received, feed_complete, feed_event, CleanAt, IsFed}
use low_latency_prediction_m.Client.Feed.Messages.{on_message-IsFed}

module _ (j : Simdjson) (ready : Bool) where
  complete-read :
      (named : Bool) (m : Bytes) (c : WebSocketClient)
      → c.read_buffer ≡ []
      → complete j
          (record { failed = false; named = named; received = m })
          (record c { pending = some read })
        ≡ on_message j m (record c { pending = none; read_buffer = m })
  unfolding complete on_read
  complete-read named m c clean =
      ap
        (λ b.
          on_message j (take (length m) (b ++ m))
            (record c { pending = none; read_buffer = b ++ m }))
        clean
      ∙ ap (λ t. on_message j t (record c { pending = none; read_buffer = m })) (take-all j m)

  read-IsFed :
      (named : Bool) (m : Bytes) (c : WebSocketClient) (items : List MarketTick)
      → ReadsLength j
      → c.read_buffer ≡ []
      → c.parser.initialized ≡ ready
      → Holds tick_queue_size c.queue items
      → Both
          (IsFed j ready)
          (complete j
            (record { failed = false; named = named; received = m })
            (record c { pending = some read }))
          (received j ready m (record { pending = some read; items = items }))
  read-IsFed named m c items reads clean ini h =
      rw (complete-read named m c clean) (
        on_message-IsFed j ready m (record c { pending = none; read_buffer = m }) items reads ini h)

  complete-IsFed :
      (p : Option Operation) (failed named : Bool) (m : Bytes) (c : WebSocketClient)
      (items : List MarketTick)
      → ReadsLength j
      → CleanAt p c.read_buffer
      → c.parser.initialized ≡ ready
      → Holds tick_queue_size c.queue items
      → let r : Completion = record { failed = failed; named = named; received = m } in
        Both
          (IsFed j ready)
          (complete j r (record c { pending = p }))
          (feed_complete j ready r (record { pending = p; items = items }))
  unfolding complete feed_complete on_resolve on_connect on_ssl_handshake on_ws_handshake
      on_subscribe
  complete-IsFed none failed named m c items reads clean ini h = (refl, tt, ini, h)
  complete-IsFed (some resolve) true named m c items reads clean ini h = (refl, tt, ini, h)
  complete-IsFed (some resolve) false named m c items reads clean ini h = (refl, clean, ini, h)
  complete-IsFed (some connect) true named m c items reads clean ini h = (refl, tt, ini, h)
  complete-IsFed (some connect) false true m c items reads clean ini h = (refl, clean, ini, h)
  complete-IsFed (some connect) false false m c items reads clean ini h = (refl, tt, ini, h)
  complete-IsFed (some ssl_handshake) true named m c items reads clean ini h = (refl, tt, ini, h)
  complete-IsFed (some ssl_handshake) false named m c items reads clean ini h =
      (refl, clean, ini, h)
  complete-IsFed (some ws_handshake) true named m c items reads clean ini h = (refl, tt, ini, h)
  complete-IsFed (some ws_handshake) false named m c items reads clean ini h = (refl, clean, ini, h)
  complete-IsFed (some subscribe_write) true named m c items reads clean ini h = (refl, tt, ini, h)
  complete-IsFed (some subscribe_write) false named m c items reads clean ini h =
      (refl, clean, ini, h)
  complete-IsFed (some read) true named m c items reads clean ini h = (refl, tt, ini, h)
  complete-IsFed (some read) false named m c items reads clean ini h =
      read-IsFed named m c items reads clean ini h

  from_pending :
      (r : Completion) (c : WebSocketClient) (items : List MarketTick) {p p' : Option Operation}
      → p ≡ p'
      → Both
          (IsFed j ready)
          (complete j r c)
          (feed_complete j ready r (record { pending = p; items = items }))
      → Both
          (IsFed j ready)
          (complete j r c)
          (feed_complete j ready r (record { pending = p'; items = items }))
  from_pending r c items at h = rw (← at) h

  -- Whatever the client is told, the client is where the specification is, with the same
  -- ticks in its queue, and it ends the process exactly where the specification ends.
  pub handle-IsFed :
      (e : Event) (c : WebSocketClient) (f : Feed)
      → ReadsLength j
      → IsFed j ready c f
      → Both (IsFed j ready) (handle j e c) (feed_event j ready e f)
  unfolding handle feed_event
  handle-IsFed (completed r) c f reads (at, clean, ini, h) =
      from_pending r c f.items at
        (complete-IsFed c.pending r.failed r.named r.received c f.items reads clean ini h)
  handle-IsFed closing_posted c f reads h = h
  handle-IsFed (closed r) c f reads h = ground arith
