-- ===== src/Tests/Engine.antt =====
-- The engine at one tick.
use low_latency_prediction_m.Base.{ℕ, ◌≤◌, ◌≡◌, refl, ◌⊎◌, some, true, false, [], ◌∷◌, arith}
use low_latency_prediction_m.Base.Int.{pos, magnitude}
use low_latency_prediction_m.Queue.{SpscQueue, empty, push}
use low_latency_prediction_m.Queue.Invariant.{IsSize, Holds}
use low_latency_prediction_m.Queue.Steps.{empty-Holds}
use low_latency_prediction_m.Queue.Fifo.{push_refines}
use low_latency_prediction_m.Book.{
  MarketTick, LimitOrderBook, apply_tick, get_best_bid, get_best_ask,
}
use low_latency_prediction_m.Book as Book
use low_latency_prediction_m.Positions.{init}
use low_latency_prediction_m.Alphas.Top.{IsTwoSided}
use low_latency_prediction_m.Logger as Log
use low_latency_prediction_m.Cli.{StrategySelection}
use low_latency_prediction_m.Engine.{tick_queue_size, StrategyEngine, make_signals, on_tick, run}
use low_latency_prediction_m.Engine.Trades.{score_of, IsTrade}
use low_latency_prediction_m.Engine.Ticks.{on_tick-IsTrade}
use low_latency_prediction_m.Engine.Rounds.{MovesBy, run_lem}
use low_latency_prediction_m.Tests.Cents.{cents}

abbrev tick : MarketTick
tick = record { price = 40; size = 7; is_bid = true }

ticks-IsSize : IsSize tick_queue_size
ticks-IsSize = record {
  exponent = 16;
  at_least_two = omega arith;
  representable = omega arith;
  power = refl;
}

abbrev queue : SpscQueue MarketTick
queue = (push tick_queue_size (empty tick_queue_size) tick).0

abbrev engine : StrategyEngine cents
engine = record {
  queue = queue;
  book = Book.empty;
  position_manager = init cents;
  log_queue = empty Log.queue_size;
  signals = make_signals cents StrategySelection.both;
  emitted_initial_p = false;
  ticks_processed = 0;
  readings = 0;
}

-- A clock that ticks once for each reading.
abbrev clock : ℕ → ℕ
clock n = n

queue-Holds : Holds tick_queue_size queue (tick ∷ [])
queue-Holds = (push_refines ticks-IsSize tick (empty-Holds ticks-IsSize)).0

run_lem_example :
    (e : StrategyEngine cents) × (run cents clock 3 engine ≡ some e)
    × Holds tick_queue_size e.queue []
    × (e.book ≡ apply_tick Book.empty tick)
    × MovesBy 10 (pos 0) e.position_manager.position_size
unfolding init
run_lem_example = run_lem cents clock 3 engine (tick ∷ []) queue-Holds (omega arith)

on_tick-IsTrade_example :
    (e : StrategyEngine cents) × (on_tick cents clock tick engine ≡ some e)
    × (e.queue ≡ queue)
    × (e.book ≡ apply_tick Book.empty tick)
    × ((e.position_manager ≡ init cents)
        ⊎ (IsTwoSided e.book
            × IsTrade cents
                (score_of cents engine.signals e.book tick)
                (get_best_bid e.book)
                (get_best_ask e.book)
                (init cents)
                e.position_manager))
    × (magnitude e.position_manager.position_size ≤ 10)
unfolding init
on_tick-IsTrade_example = on_tick-IsTrade cents clock tick engine (omega arith)
