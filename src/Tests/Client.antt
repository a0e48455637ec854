-- ===== src/Tests/Client.antt =====
-- A session of the client with one message.
use low_latency_prediction_m.Base.{
  ◌≡◌, refl, true, false, none, some, [], ◌∷◌, ◌++◌, map, ◌>>=◌, codes,
}
use low_latency_prediction_m.Queue.{empty}
use low_latency_prediction_m.Engine.{tick_queue_size}
use low_latency_prediction_m.Parser.Json.{Simdjson}
use low_latency_prediction_m.Parser.Sample.{obj, end, sample_json}
use low_latency_prediction_m.Client.{connect, read, Completion, WebSocketClient, run, complete_all}
use low_latency_prediction_m.Client.Session.{
  success, message, handshakes, parse_all, complete_all-parse_all, complete_all-failed,
}

abbrev json : Simdjson
json = sample_json (codes "{}") (obj end)

abbrev client : WebSocketClient
client = record {
  pending = none;
  closing = false;
  read_buffer = [];
  parser = record { initialized = true; buffer = [] };
  queue = empty tick_queue_size;
  host = [];
  port = [];
  target = [];
  host_header = [];
  failures = [];
}

-- A client that connects.
abbrev connecting : WebSocketClient
connecting = record client { pending = some connect }

complete_all-parse_all_example :
    complete_all json
      (handshakes ++ map message (codes "{}" ∷ codes "[" ∷ []))
      (run (codes "example.com") (codes "443") (codes "/") client)
    ≡ (parse_all json (codes "{}" ∷ codes "[" ∷ []) (client.parser, client.queue) >>= λ s'.
        some (record (run (codes "example.com") (codes "443") (codes "/") client) {
          pending = some read;
          read_buffer = [];
          parser = s'.0;
          queue = s'.1;
        }))
complete_all-parse_all_example =
    complete_all-parse_all json (codes "example.com") (codes "443") (codes "/") client
      (codes "{}" ∷ codes "[" ∷ []) refl

abbrev failure : Completion
failure = record { failed = true; named = true; received = [] }

complete_all-failed_example :
    (c : WebSocketClient) × (complete_all json (failure ∷ success ∷ []) connecting ≡ some c)
    × (c.pending ≡ none)
    × (c.failures ≡ codes "connect" ∷ [])
    × (c.parser ≡ client.parser)
    × (c.queue ≡ client.queue)
complete_all-failed_example =
    complete_all-failed json connecting connect failure (success ∷ []) refl refl
