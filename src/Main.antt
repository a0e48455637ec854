-- ===== src/Main.antt =====
-- `main` of src/main.cpp: the objects that it builds, the threads that it starts, as a sequence of
-- moves, and the shutdown. The queue of ticks that the client and the engine hold a reference to is
-- kept in the engine and given to a handler of the client and back; the queue of `AsyncLogger` is the
-- engine's too.
pub mod Market
pub mod Refinement
pub mod Shutdown
use low_latency_prediction_m.Base.{
  ℕ, Bool, true, false, not, Option, none, some, List, [], ◌∷◌, ◌++◌, if◌then◌else◌, ◌>>=◌, Bytes,
}
use low_latency_prediction_m.Base.Double.{Arithmetic}
use low_latency_prediction_m.Book.{MarketTick}
use low_latency_prediction_m.Book as Book
use low_latency_prediction_m.Queue as Spsc
use low_latency_prediction_m.Parser.Json.{Simdjson}
use low_latency_prediction_m.Parser.Messages as Messages
use low_latency_prediction_m.Positions as Positions
use low_latency_prediction_m.Logger as Log
use low_latency_prediction_m.Engine.{StrategyEngine, tick_queue_size, make_signals}
use low_latency_prediction_m.Engine as Engine
use low_latency_prediction_m.Client.{WebSocketClient, Event, closing_posted, handle}
use low_latency_prediction_m.Client as Client
use low_latency_prediction_m.Cli.{
  StrategySelection, parse_strategy_selection, strategy_name, Endpoint, endpoint,
}

-- A handler run by the network thread, a round of the strategy thread, a round of the logger's thread,
-- which reads the clock, or, in the main thread, `strategy.stop()` and `ioc.stop()`.
pub data Move : Type 0 where
  network : Event → Move
  strategy : Move
  logging : ℕ → Move
  stop_strategy : Move
  stop_network : Move

-- `strategy_running` is `running_` of the engine, and `network_running` that the `io_context` has not
-- been stopped.
pub record Process (d : Arithmetic) : Type 0 where
  pub client : WebSocketClient
  pub engine : StrategyEngine d
  pub writer : Log.Writer d
  pub network_running : Bool
  pub strategy_running : Bool

-- `EXIT_FAILURE` for an unknown strategy, or `EXIT_SUCCESS` with what the engine and the logger's
-- stream were at the end.
pub data Exit (d : Arithmetic) : Type 0 where
  failure : Exit d
  success : StrategyEngine d → Log.Writer d → Exit d

abbrev pub until_joined : List Move → List Move → List Move → List Move
until_joined before between late = before ++ stop_strategy ∷ (between ++ stop_network ∷ late)

module _ (j : Simdjson) (d : Arithmetic) (format : Log.Format d) (clock : ℕ → ℕ) where
  -- The client before `run`.
  pub new_client : WebSocketClient
  new_client = record {
    pending = none;
    closing = false;
    read_buffer = [];
    parser = Messages.init j;
    queue = Spsc.empty tick_queue_size;
    host = [];
    port = [];
    target = [];
    host_header = [];
    failures = [];
  }

  pub new_engine : StrategySelection → StrategyEngine d
  new_engine selection = record {
    queue = Spsc.empty tick_queue_size;
    book = Book.empty;
    position_manager = Positions.init d;
    log_queue = (Log.log_active_strategy d (strategy_name selection) (Spsc.empty Log.queue_size)).0;
    signals = make_signals d selection;
    emitted_initial_p = false;
    ticks_processed = 0;
    readings = 0;
  }

  -- The objects when the threads start.
  pub boot : Endpoint → StrategySelection → ℕ → Process d
  unfolding new_client new_engine
  boot e selection now = record {
    client = Client.run e.host e.port e.target new_client;
    engine = new_engine selection;
    writer = Log.start d format now;
    network_running = true;
    strategy_running = true;
  }

  -- `opened` says whether the logger could open its file.
  module _ (opened : Bool) where
    pub step : Move → Process d → Option (Process d)
    step (network e) s =
        let handled = (do
          c ← handle j e (record (s.client) { queue = s.engine.queue })
          some (record s { client = c; engine = record (s.engine) { queue = c.queue } })) in
        if s.network_running then handled else some s
    step strategy s =
        let worked = (do e ← Engine.round d clock s.engine; some (record s { engine = e })) in
        if s.strategy_running then worked else some s
    step (logging now) s =
        let (q, w) = Log.run_round d format opened now s.engine.log_queue s.writer in
        some (record s { engine = record (s.engine) { log_queue = q }; writer = w })
    step stop_strategy s = some (record s { strategy_running = false })
    step stop_network s = some (record s { network_running = false })

    -- `none`: the behaviour is undefined, or an exception ends the process.
    pub play : List Move → Process d → Option (Process d)
    unfolding step
    play [] s = some s
    play (m ∷ moves) s = do s' ← step m s; play moves s'

  -- The moves of the threads are `before` the signal, `between` the two stops, in which the client may
  -- find the posted `close`, and `late`. Then come the joins and the destructors: the logger's, which
  -- joins its thread, and that of the queue of ticks. The fuel bounds the loops of both.
  pub main : List Bytes → Bool → ℕ → List Move → List Move → List Move → ℕ → Option (Exit d)
  unfolding boot play
  main args opened now before between late fuel =
      let (ok, selection) = parse_strategy_selection args in
      let ran = (do
        s ← play opened (until_joined before between late) (boot (endpoint args) selection now)
        (q, w) ← Log.finish d format opened fuel s.engine.log_queue s.writer
        buffer ← Spsc.destroy tick_queue_size fuel s.engine.queue
        some (success s.engine w)) in
      if not ok then some failure else ran
