-- ===== src/Engine.antt =====
-- `StrategyEngine` of include/strategy_engine.hpp and src/strategy_engine.cpp. The objects that it
-- holds references to are fields of its state. A call is `none` where the behaviour is undefined.
pub mod Trades
pub mod Ticks
pub mod Rounds
pub mod Logs
use low_latency_prediction_m.Base.{
  ℕ, zero, suc, ◌+◌, ◌%◌, Bool, true, false, ◌||◌, not, Option, none, some, List, [], ◌∷◌, ◌==◌,
  if◌then◌else◌, ◌>>=◌, length,
}
use low_latency_prediction_m.Base.Words.{word_size, sub_size}
use low_latency_prediction_m.Base.Int.{ℤ, pos, negsuc, eqb_ℤ}
use low_latency_prediction_m.Base.Double.{Arithmetic}
use low_latency_prediction_m.Queue.{SpscQueue, Popped, nothing, item, undefined, pop}
use low_latency_prediction_m.Book.{
  MarketTick, LimitOrderBook, no_bid, no_ask, apply_tick, get_best_bid, get_best_ask, get_bid_size,
  get_ask_size,
}
use low_latency_prediction_m.Positions.{PositionManager, add_fill, get_unrealized_pnl}
use low_latency_prediction_m.Alphas.{
  Signal, momentum, ofi, init_momentum, init_ofi, update, of_nat, sum_u32,
}
use low_latency_prediction_m.Logger as Log
use low_latency_prediction_m.Cli.{StrategySelection}

abbrev pub tick_queue_size : ℕ
tick_queue_size = 65536

module _ (d : Arithmetic) where
  open d use {Double, of_int, decimal, add, mul, div, le}

  -- `ticks_processed` is a local of `run`; `readings` counts the calls of `now_us`.
  pub record StrategyEngine : Type 0 where
    pub queue : SpscQueue MarketTick
    pub book : LimitOrderBook
    pub position_manager : PositionManager d
    pub log_queue : Log.Queue d
    pub signals : List (Signal d)
    pub emitted_initial_p : Bool
    pub ticks_processed : ℕ
    pub readings : ℕ

  -- The signals that the constructor makes.
  pub make_signals : StrategySelection → List (Signal d)
  make_signals StrategySelection.momentum = momentum (init_momentum d) ∷ []
  make_signals StrategySelection.ofi = ofi (init_ofi d) ∷ []
  make_signals StrategySelection.both = momentum (init_momentum d) ∷ ofi (init_ofi d) ∷ []

  pub cents_to_price : ℕ → Double
  cents_to_price price_cents = div (of_nat d price_cents) (of_nat d 100)

  abbrev pub trade_threshold : Double
  trade_threshold = decimal (pos 60) 100

  abbrev pub minus_trade_threshold : Double
  minus_trade_threshold = decimal (negsuc 59) 100

  abbrev pub default_trade_size : ℕ
  default_trade_size = 10

  -- The loop over the signals.
  pub update_signals :
      List (Signal d) → LimitOrderBook → MarketTick → Double → List (Signal d) × Double
  update_signals [] book tick score_sum = ([], score_sum)
  update_signals (s ∷ signals) book tick score_sum =
      let (s', score) = update d s book tick in
      let (signals', total) = update_signals signals book tick (add score_sum score) in
      (s' ∷ signals', total)

  pub combined_score : List (Signal d) → Double → Double
  combined_score signals score_sum =
      if length signals == 0 then of_nat d 0 else div score_sum (of_nat d (length signals))

  -- `fill_size` and `fill_price`.
  pub fill_of : Double → ℕ → ℕ → ℤ × Double
  unfolding cents_to_price
  fill_of score best_bid best_ask =
      if le trade_threshold score
      then (pos default_trade_size, cents_to_price best_ask)
      else if le score minus_trade_threshold
      then (negsuc 9, cents_to_price best_bid)
      else (pos 0, of_nat d 0)

  -- `clock` gives the results of `now_us`, one after the other.
  module _ (clock : ℕ → ℕ) where
    -- Both kinds of events take two readings: the latency, then the time stamp.
    pub log : ℕ → ℕ → Double → ℤ → Double → StrategyEngine → StrategyEngine
    log tick_start_us event_type price size pnl e =
        let latency_us = sub_size (clock e.readings) tick_start_us in
        let (log_queue', ok) =
          Log.log_event d (clock (e.readings + 1)) event_type price size pnl latency_us
            e.log_queue in
        record e { log_queue = log_queue'; readings = e.readings + 2 }

    pub log_equity : ℕ → ℕ → ℕ → StrategyEngine → StrategyEngine
    unfolding log cents_to_price
    log_equity tick_start_us best_bid best_ask e =
        let mid_price =
          mul (add (cents_to_price best_bid) (cents_to_price best_ask)) (decimal (pos 1) 2) in
        let pm = e.position_manager in
        let equity_pnl = add pm.realized_pnl (get_unrealized_pnl d pm mid_price) in
        log tick_start_us b'P' mid_price pm.position_size equity_pnl e

    pub log_initial : ℕ → ℕ → ℕ → StrategyEngine → StrategyEngine
    unfolding log_equity
    log_initial tick_start_us best_bid best_ask e =
        if not e.emitted_initial_p
        then record (log_equity tick_start_us best_bid best_ask e) { emitted_initial_p = true }
        else e

    pub trade : ℕ → ℤ → Double → StrategyEngine → Option StrategyEngine
    unfolding log
    trade tick_start_us fill_size fill_price e = if eqb_ℤ fill_size (pos 0) then some e else do
      pm ← add_fill d e.position_manager fill_size fill_price
      some (
          log tick_start_us b'T' fill_price fill_size pm.realized_pnl
            (record e { position_manager = pm }))

    pub log_periodic : ℕ → ℕ → ℕ → StrategyEngine → StrategyEngine
    unfolding log_equity
    log_periodic tick_start_us best_bid best_ask e =
        if e.ticks_processed % 1000 == 0 then log_equity tick_start_us best_bid best_ask e else e

    -- The body of the loop behind its guards.
    pub evaluate : ℕ → ℕ → ℕ → MarketTick → StrategyEngine → Option StrategyEngine
    unfolding log_initial trade log_periodic update_signals combined_score fill_of
    evaluate tick_start_us best_bid best_ask tick e = do
      let logged = log_initial tick_start_us best_bid best_ask e
      let updated = update_signals logged.signals logged.book tick (of_nat d 0)
      let fill = fill_of (combined_score logged.signals updated.1) best_bid best_ask
      traded ← trade tick_start_us fill.0 fill.1 (record logged { signals = updated.0 })
      some (log_periodic tick_start_us best_bid best_ask traded)

    pub on_tick : MarketTick → StrategyEngine → Option StrategyEngine
    unfolding evaluate
    on_tick tick e =
        let book' = apply_tick e.book tick in
        let counted : StrategyEngine = record e {
          book = book';
          ticks_processed = (e.ticks_processed + 1) % word_size;
          readings = e.readings + 1;
        } in
        let best_bid = get_best_bid book' in
        let best_ask = get_best_ask book' in
        let evaluated = evaluate (clock e.readings) best_bid best_ask tick counted in
        if best_bid == no_bid || best_ask == no_ask
        then some counted
        else if sum_u32 (get_bid_size book' best_bid) (get_ask_size book' best_ask) == 0
        then some counted
        else evaluated

    -- One round of the loop of `run`.
    pub round : StrategyEngine → Option StrategyEngine
    unfolding on_tick
    round e =
        let (queue', out) = pop tick_queue_size e.queue in
        elim out [
          | nothing ↦ some (record e { queue = queue' })
          | item tick ↦ on_tick tick (record e { queue = queue' })
          | undefined ↦ none
        ]

    -- `run`, with the number of rounds before the loop finds `running_` false.
    pub run : ℕ → StrategyEngine → Option StrategyEngine
    unfolding round
    run zero e = some e
    run (suc rounds) e = do e' ← round e; run rounds e'
