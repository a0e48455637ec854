-- ===== src/Client/Session.antt =====
-- A session of the client: what reaches the parser, and where it ends.
use low_latency_prediction_m.Base.{
  ◌≡◌, refl, ◌∙◌, ap, Bool, true, false, Option, none, some, List, [], ◌∷◌, ◌++◌, map, ◌==◌,
  if◌then◌else◌, ◌>>=◌, Bytes, codes, length, take, arith, inl, inr, Option-cases,
}
use low_latency_prediction_m.Engine.{tick_queue_size}
use low_latency_prediction_m.Parser.Json.{Simdjson}
use low_latency_prediction_m.Parser.Messages.{
  Outcome, accepted, refused, terminated, Queue, MarketParser, parse_tick,
}
use low_latency_prediction_m.Client.{
  Operation, resolve, connect, ssl_handshake, ws_handshake, subscribe_write, read, Completion,
  WebSocketClient, run, fail, on_resolve, on_connect, on_ssl_handshake, on_ws_handshake,
  on_subscribe, on_message, on_read, complete, complete_all,
}

abbrev pub success : Completion
success = record { failed = false; named = true; received = [] }

abbrev pub message : Bytes → Completion
message s = record { failed = false; named = true; received = s }

-- The five operations that open a session.
abbrev pub handshakes : List Completion
handshakes = success ∷ success ∷ success ∷ success ∷ success ∷ []

module _ (j : Simdjson) where
  -- The parser and the queue after one message; an empty one is passed over. `none`: the process ends.
  abbrev pub after : Bytes → MarketParser × Queue → Option (MarketParser × Queue)
  after m s =
      let (parser', outcome, queue') = parse_tick j tick_queue_size s.0 m s.1 in
      if length m == 0 then some s else elim outcome [
        | accepted ↦ some (parser', queue')
        | refused ↦ some (parser', queue')
        | terminated ↦ none
      ]

  -- The messages parsed one after the other.
  pub parse_all : List Bytes → MarketParser × Queue → Option (MarketParser × Queue)
  parse_all [] s = some s
  parse_all (m ∷ ms) s = do s' ← after m s; parse_all ms s'

  -- A client that waits for a message, with an empty buffer.
  abbrev reading : WebSocketClient → MarketParser × Queue → WebSocketClient
  reading c s = record c { pending = some read; read_buffer = []; parser = s.0; queue = s.1 }

  pub take-all : (s : Bytes) → take (length s) s ≡ s
  take-all [] = refl
  take-all (c ∷ s) = ap (◌∷◌ c) (take-all s)

  complete-message :
      (c : WebSocketClient) (s : MarketParser × Queue) (m : Bytes)
      → complete j (message m) (reading c s)
        ≡ on_message j m (record (reading c s) { read_buffer = m })
  unfolding complete on_read
  complete-message c s m =
      ap (λ t. on_message j t (record (reading c s) { read_buffer = m })) (take-all m)

  on_outcome :
      (c : WebSocketClient) (s t : MarketParser × Queue) (empty : Bool) (outcome : Outcome)
      → (if empty then some (reading c s) else elim outcome [
        | accepted ↦ some (reading c t)
        | refused ↦ some (reading c t)
        | terminated ↦ none
      ])
        ≡ ((if empty
              then some s
              else elim outcome [ accepted ↦ some t | refused ↦ some t | terminated ↦ none ])
            >>= λ s'. some (reading c s'))
  on_outcome c s t true outcome = refl
  on_outcome c s t false accepted = refl
  on_outcome c s t false refused = refl
  on_outcome c s t false terminated = refl

  on_message-after :
      (c : WebSocketClient) (s : MarketParser × Queue) (m : Bytes)
      → on_message j m (record (reading c s) { read_buffer = m })
        ≡ (after m s >>= λ s'. some (reading c s'))
  unfolding on_message
  on_message-after c s m =
      let result = parse_tick j tick_queue_size s.0 m s.1 in
      on_outcome c s (result.0, result.2) (length m == 0) result.1

  reads :
      (c : WebSocketClient) (s : MarketParser × Queue) (ms : List Bytes)
      → complete_all j (map message ms) (reading c s)
        ≡ (parse_all ms s >>= λ s'. some (reading c s'))
  unfolding complete_all parse_all
  reads c s [] = refl
  reads c s (m ∷ ms) =
      rw (complete-message c s m, on_message-after c s m)
        (elim (Option-cases (after m s)) [
          | inl ended ↦ rw ended refl
          | inr (s', next) ↦ rw next (reads c s' ms)
        ])

  opens :
      (host port target : Bytes) (c : WebSocketClient) (rs : List Completion)
      → complete_all j (handshakes ++ rs) (run host port target c)
        ≡ complete_all j rs (record (run host port target c) { pending = some read })
  unfolding complete_all complete run on_resolve on_connect on_ssl_handshake on_ws_handshake
      on_subscribe
  opens host port target c rs = refl

  -- A session that opens and then receives messages parses them in order, each with the parser and the
  -- queue that the one before left, and waits for the next with an empty buffer. It ends the process
  -- where the parser does.
  pub complete_all-parse_all :
      (host port target : Bytes) (c : WebSocketClient) (ms : List Bytes)
      → c.read_buffer ≡ []
      → complete_all j (handshakes ++ map message ms) (run host port target c) ≡ (
          parse_all ms (c.parser, c.queue) >>= λ s'. some (record (run host port target c) {
            pending = some read;
            read_buffer = [];
            parser = s'.0;
            queue = s'.1;
          }))
  unfolding run
  complete_all-parse_all host port target c ms clean =
      opens host port target c (map message ms)
      ∙ ap
          (λ b.
            complete_all j (map message ms)
              (record (run host port target c) { pending = some read; read_buffer = b }))
          clean
      ∙ reads (run host port target c) (c.parser, c.queue) ms

  complete-rest :
      (c : WebSocketClient) (r : Completion) → c.pending ≡ none → complete j r c ≡ some c
  unfolding complete
  complete-rest c r h = ground arith

  at_rest :
      (c : WebSocketClient) (rs : List Completion) → c.pending ≡ none → complete_all j rs c ≡ some c
  unfolding complete_all
  at_rest c [] h = refl
  at_rest c (r ∷ rs) h = rw (complete-rest c r h) (at_rest c rs h)

  -- The name that `fail` prints for an operation.
  abbrev pub failure_name : Operation → Bytes
  failure_name resolve = codes "resolve"
  failure_name connect = codes "connect"
  failure_name ssl_handshake = codes "ssl_handshake"
  failure_name ws_handshake = codes "ws_handshake"
  failure_name subscribe_write = codes "subscribe_write"
  failure_name read = codes "read"

  -- What a failed operation leaves: a read has put its bytes in the buffer.
  abbrev failed_client : Operation → Completion → WebSocketClient → WebSocketClient
  failed_client read r c =
      fail (codes "read") (record c { pending = none; read_buffer = c.read_buffer ++ r.received })
  failed_client op r c = fail (failure_name op) (record c { pending = none })

  complete-failed :
      (c : WebSocketClient) (op : Operation) (r : Completion)
      → c.pending ≡ some op
      → r.failed ≡ true
      → complete j r c ≡ some (failed_client op r c)
  unfolding complete on_resolve on_connect on_ssl_handshake on_ws_handshake on_subscribe on_read
  complete-failed c resolve r h failed = ground arith
  complete-failed c connect r h failed = ground arith
  complete-failed c ssl_handshake r h failed = ground arith
  complete-failed c ws_handshake r h failed = ground arith
  complete-failed c subscribe_write r h failed = ground arith
  complete-failed c read r h failed = ground arith

  failed_client_lem :
      (c : WebSocketClient) (op : Operation) (r : Completion)
      → let c' = failed_client op r c in
        (c'.pending ≡ none)
        × (c'.failures ≡ c.failures ++ failure_name op ∷ [])
        × (c'.parser ≡ c.parser)
        × (c'.queue ≡ c.queue)
  failed_client_lem c resolve r = (refl, refl, refl, refl)
  failed_client_lem c connect r = (refl, refl, refl, refl)
  failed_client_lem c ssl_handshake r = (refl, refl, refl, refl)
  failed_client_lem c ws_handshake r = (refl, refl, refl, refl)
  failed_client_lem c subscribe_write r = (refl, refl, refl, refl)
  failed_client_lem c read r = (refl, refl, refl, refl)

  -- Whichever operation fails, its name is printed once, nothing more happens whatever completes
  -- later, and the parser and the queue are as they were.
  pub complete_all-failed :
      (c : WebSocketClient) (op : Operation) (r : Completion) (rs : List Completion)
      → c.pending ≡ some op
      → r.failed ≡ true
      → (c' : WebSocketClient) × (complete_all j (r ∷ rs) c ≡ some c')
        × (c'.pending ≡ none)
        × (c'.failures ≡ c.failures ++ failure_name op ∷ [])
        × (c'.parser ≡ c.parser)
        × (c'.queue ≡ c.queue)
  unfolding complete_all
  complete_all-failed c op r rs h failed =
      let (rest, failures, parser, queue) = failed_client_lem c op r in
      (
        failed_client op r c,
        rw (complete-failed c op r h failed) (at_rest (failed_client op r c) rs rest),
        rest,
        failures,
        parser,
        queue,
      )
