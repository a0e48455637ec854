-- ===== src/Client.antt =====
-- `WebSocketClient` of include/websocket_client.hpp and src/websocket_client.cpp, as the chain of its
-- completion handlers. Boost and OpenSSL are not part of the repository: what they report to a handler
-- is its input.
pub mod Session
pub mod Feed
use low_latency_prediction_m.Base.{
  ℕ, zero, suc, ◌+◌, Bool, true, false, not, ◌||◌, Option, none, some, List, [], ◌∷◌, ◌++◌, ◌==◌,
  if◌then◌else◌, ◌>>=◌, Bytes, codes, length, take,
}
use low_latency_prediction_m.Engine.{tick_queue_size}
use low_latency_prediction_m.Parser.Json.{Simdjson}
use low_latency_prediction_m.Parser.Messages.{
  Outcome, accepted, refused, terminated, Queue, MarketParser, parse_tick,
}

-- The asynchronous operations, each with the handler that completes it.
pub data Operation : Type 0 where
  resolve connect ssl_handshake ws_handshake subscribe_write read : Operation

-- What a completed operation hands to its handler: whether `ec` is set, whether `on_connect` can set
-- the server name, and for a read the bytes that it has put behind those of the buffer.
pub record Completion : Type 0 where
  pub failed : Bool
  pub named : Bool
  pub received : Bytes

-- `pending` is the operation of the chain under way; `closing` is set while an `async_close` is, beside
-- it; `failures` lists what `fail` has printed the name of.
pub record WebSocketClient : Type 0 where
  pub pending : Option Operation
  pub closing : Bool
  pub read_buffer : Bytes
  pub parser : MarketParser
  pub queue : Queue
  pub host : Bytes
  pub port : Bytes
  pub target : Bytes
  pub host_header : Bytes
  pub failures : List Bytes

-- A handler finds no operation of the chain under way until it starts the next.
abbrev pub begins : Operation → WebSocketClient → WebSocketClient
begins op c = record c { pending = some op }

abbrev pub fail : Bytes → WebSocketClient → WebSocketClient
fail what c = record c { failures = c.failures ++ what ∷ [] }

unfoldable pub run : Bytes → Bytes → Bytes → WebSocketClient → WebSocketClient
run host port target c = record c {
  host = host;
  port = port;
  target = target;
  host_header = host ++ b':' ∷ port;
  pending = some resolve;
}

pub close : WebSocketClient → WebSocketClient
close c = record c { closing = true }

-- The completion of `async_close`, which is no part of the chain.
pub on_close : Completion → WebSocketClient → WebSocketClient
on_close r c =
    let closed : WebSocketClient = record c { closing = false } in
    if r.failed then fail (codes "close") closed else closed

pub on_resolve : Completion → WebSocketClient → WebSocketClient
on_resolve r c = if r.failed then fail (codes "resolve") c else begins connect c

pub on_connect : Completion → WebSocketClient → WebSocketClient
on_connect r c =
    if r.failed
    then fail (codes "connect") c
    else if not r.named
    then fail (codes "sni") c
    else begins ssl_handshake c

pub on_ssl_handshake : Completion → WebSocketClient → WebSocketClient
on_ssl_handshake r c = if r.failed then fail (codes "ssl_handshake") c else begins ws_handshake c

-- With `do_subscribe`.
pub on_ws_handshake : Completion → WebSocketClient → WebSocketClient
on_ws_handshake r c = if r.failed then fail (codes "ws_handshake") c else begins subscribe_write c

-- The handler of `do_subscribe`, with `do_read`.
pub on_subscribe : Completion → WebSocketClient → WebSocketClient
on_subscribe r c = if r.failed then fail (codes "subscribe_write") c else begins read c

pub data Event : Type 0 where
  completed : Completion → Event
  closing_posted : Event
  closed : Completion → Event

module _ (j : Simdjson) where
  -- The message is parsed if it has a byte, the buffer emptied, and the next read begun. `none`: an
  -- exception in the parser has ended the process.
  pub on_message : Bytes → WebSocketClient → Option WebSocketClient
  on_message message c =
      let (parser', outcome, queue') = parse_tick j tick_queue_size c.parser message c.queue in
      let parsed : WebSocketClient = record c {
        parser = parser';
        queue = queue';
        read_buffer = [];
        pending = some read;
      } in
      let silent : WebSocketClient = record c { read_buffer = []; pending = some read } in
      let ended : Option WebSocketClient = elim outcome [
        | accepted ↦ some parsed
        | refused ↦ some parsed
        | terminated ↦ none
      ] in
      if length message == 0 then some silent else ended

  -- The view begins at the front of the buffer and has `bytes_transferred` bytes.
  pub on_read : Completion → WebSocketClient → Option WebSocketClient
  unfolding on_message
  on_read r c =
      let buffered : WebSocketClient = record c { read_buffer = c.read_buffer ++ r.received } in
      if r.failed
      then some (fail (codes "read") buffered)
      else on_message (take (length r.received) buffered.read_buffer) buffered

  -- The completion of the operation under way. Once none is, the client is at rest.
  pub complete : Completion → WebSocketClient → Option WebSocketClient
  unfolding on_resolve on_connect on_ssl_handshake on_ws_handshake on_subscribe on_read
  complete r c =
      let idle : WebSocketClient = record c { pending = none } in
      elim c.pending [
        | none ↦ some c
        | some op ↦ elim op [
          | resolve ↦ some (on_resolve r idle)
          | connect ↦ some (on_connect r idle)
          | ssl_handshake ↦ some (on_ssl_handshake r idle)
          | ws_handshake ↦ some (on_ws_handshake r idle)
          | subscribe_write ↦ some (on_subscribe r idle)
          | read ↦ on_read r idle
        ]
      ]

  pub complete_all : List Completion → WebSocketClient → Option WebSocketClient
  unfolding complete
  complete_all [] c = some c
  complete_all (r ∷ rs) c = do c' ← complete r c; complete_all rs c'

  -- What the `io_context` runs: a completion of the chain, the posted `close`, or its completion.
  pub handle : Event → WebSocketClient → Option WebSocketClient
  unfolding complete close on_close
  handle (completed r) c = complete r c
  handle closing_posted c = some (close c)
  handle (closed r) c = if c.closing then some (on_close r c) else some c
