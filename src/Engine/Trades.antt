-- ===== src/Engine/Trades.antt =====
-- The trade that the engine makes on a score.
use low_latency_prediction_m.Base.{
  ℕ, ◌+◌, ◌^◌, ◌≤◌, ◌<◌, ◌≡◌, refl, sym, ◌∙◌, ap, ◌⊎◌, inl, inr, true, false, some, List, arith,
}
use mathlib.Core.Path.{ap₂}
use low_latency_prediction_m.Base.Int.{ℤ, pos, negsuc, eqb_ℤ, magnitude}
use low_latency_prediction_m.Base.Double.{Arithmetic}
use low_latency_prediction_m.Book.{MarketTick, LimitOrderBook}
use low_latency_prediction_m.Positions.{PositionManager, add_fill}
use low_latency_prediction_m.Positions.Filled.{magnitude-+ℤ}
use low_latency_prediction_m.Positions.Entry.{add_fill-size}
use low_latency_prediction_m.Alphas.{Signal, of_nat}
use low_latency_prediction_m.Engine.{
  StrategyEngine, cents_to_price, trade_threshold, minus_trade_threshold, update_signals,
  combined_score, fill_of, log, log_equity, log_initial, trade, log_periodic, evaluate,
}

module _ (d : Arithmetic) where
  open d use {Double, le}

  -- The score that the signals give a book.
  abbrev pub score_of : List (Signal d) → LimitOrderBook → MarketTick → Double
  score_of signals book tick =
      combined_score d signals (update_signals d signals book tick (of_nat d 0)).1

  -- A position is kept, or ten contracts are bought at the best ask on a score of 0.6 or more, or sold
  -- at the best bid on one of -0.6 or less.
  abbrev pub IsTrade : Double → ℕ → ℕ → PositionManager d → PositionManager d → Type 0
  IsTrade score best_bid best_ask pm pm' =
      (pm' ≡ pm)
      ⊎ ((le (trade_threshold d) score ≡ true)
          × (add_fill d pm (pos 10) (cents_to_price d best_ask) ≡ some pm'))
      ⊎ ((le score (minus_trade_threshold d) ≡ true)
          × (add_fill d pm (negsuc 9) (cents_to_price d best_bid) ≡ some pm'))

  fill_of-cases :
      (score : Double) (bid ask : ℕ)
      → ((le (trade_threshold d) score ≡ true)
          × (fill_of d score bid ask ≡ (pos 10, cents_to_price d ask)))
        ⊎ ((le score (minus_trade_threshold d) ≡ true)
            × (fill_of d score bid ask ≡ (negsuc 9, cents_to_price d bid)))
        ⊎ (fill_of d score bid ask ≡ (pos 0, of_nat d 0))
  unfolding fill_of
  fill_of-cases score bid ask = ground arith

  module _ (clock : ℕ → ℕ) where
    log_initial-keeps :
        (start bid ask : ℕ) (e : StrategyEngine d)
        → let e' = log_initial d clock start bid ask e in
          (e'.queue ≡ e.queue)
          × (e'.book ≡ e.book)
          × (e'.position_manager ≡ e.position_manager)
          × (e'.signals ≡ e.signals)
    unfolding log_initial log_equity log
    log_initial-keeps start bid ask e = ground arith

    log_periodic-keeps :
        (start bid ask : ℕ) (e : StrategyEngine d)
        → let e' = log_periodic d clock start bid ask e in
          (e'.queue ≡ e.queue) × (e'.book ≡ e.book) × (e'.position_manager ≡ e.position_manager)
    unfolding log_periodic log_equity log
    log_periodic-keeps start bid ask e = ground arith

    -- The engine with a position, once the trade is logged.
    abbrev logged_trade : ℕ → ℤ → Double → PositionManager d → StrategyEngine d → StrategyEngine d
    logged_trade start f p pm e =
        log d clock start b'T' p f pm.realized_pnl (record e { position_manager = pm })

    log-keeps :
        (start type : ℕ) (p pnl : Double) (f : ℤ) (e : StrategyEngine d)
        → let e' = log d clock start type p f pnl e in
          (e'.queue ≡ e.queue) × (e'.book ≡ e.book) × (e'.position_manager ≡ e.position_manager)
    unfolding log
    log-keeps start type p pnl f e = (refl, refl, refl)

    trade-eq :
        (start : ℕ) (f : ℤ) (p : Double) (e : StrategyEngine d) (pm : PositionManager d)
        → eqb_ℤ f (pos 0) ≡ false
        → add_fill d e.position_manager f p ≡ some pm
        → trade d clock start f p e ≡ some (logged_trade start f p pm e)
    unfolding trade
    trade-eq start f p e pm ne filled = rw (ne, filled) refl

    -- What a call leaves of the queue and the book, and how far the position has moved.
    abbrev pub IsKept : StrategyEngine d → StrategyEngine d → Type 0
    IsKept e e' =
        (e'.queue ≡ e.queue)
        × (e'.book ≡ e.book)
        × (magnitude e'.position_manager.position_size
            ≤ magnitude e.position_manager.position_size + 10)

    -- A trade of ten contracts, either way.
    trade-fill :
        (start : ℕ) (f : ℤ) (p : Double) (e : StrategyEngine d)
        → magnitude f ≡ 10
        → magnitude e.position_manager.position_size + 10 < 2 ^ 31
        → (e' : StrategyEngine d) × (trade d clock start f p e ≡ some e')
          × (add_fill d e.position_manager f p ≡ some e'.position_manager)
          × IsKept e e'
    trade-fill start f p e ten fits =
        let (pm, filled, moved) = add_fill-size d e.position_manager f p (omega arith) in
        let (q, b, m) =
          log-keeps start b'T' p pm.realized_pnl f (record e { position_manager = pm }) in
        let size : magnitude pm.position_size ≤ magnitude e.position_manager.position_size + 10 =
          rw moved (omega (arith, magnitude-+ℤ e.position_manager.position_size f)) in
        (
          logged_trade start f p pm e,
          trade-eq start f p e pm (ground arith) filled,
          filled ∙ ap some (sym m),
          (q, b, rw m size),
        )

    trade-none :
        (start : ℕ) (p : Double) (e : StrategyEngine d) → trade d clock start (pos 0) p e ≡ some e
    unfolding trade
    trade-none start p e = refl

    trade-IsTrade :
        (start bid ask : ℕ) (score : Double) (e : StrategyEngine d)
        → magnitude e.position_manager.position_size + 10 < 2 ^ 31
        → let fill = fill_of d score bid ask in
          (e' : StrategyEngine d) × (trade d clock start fill.0 fill.1 e ≡ some e')
          × IsTrade score bid ask e.position_manager e'.position_manager
          × IsKept e e'
    trade-IsTrade start bid ask score e fits = elim (fill_of-cases score bid ask) [
      | inl (strong, buy) ↦
          let (e', done, filled, kept) =
            trade-fill start (pos 10) (cents_to_price d ask) e refl fits in
          rw buy (e', done, inr (inl (strong, filled)), kept)
      | inr (inl (strong, sell)) ↦
          let (e', done, filled, kept) =
            trade-fill start (negsuc 9) (cents_to_price d bid) e refl fits in
          rw sell (e', done, inr (inr (strong, filled)), kept)
      | inr (inr nothing) ↦
          rw nothing (e, trade-none start (of_nat d 0) e, inl refl, (refl, refl, omega arith))
    ]

    IsTrade-cong :
        {a b : Double} (bid ask : ℕ) {pm pm' next next' : PositionManager d}
        → a ≡ b
        → pm ≡ pm'
        → next ≡ next'
        → IsTrade a bid ask pm next
        → IsTrade b bid ask pm' next'
    IsTrade-cong bid ask ea ep en h = rw (← ea, ← ep, ← en) h

    moved_cong :
        {pm pm' next next' : PositionManager d}
        → pm ≡ pm'
        → next ≡ next'
        → magnitude next.position_size ≤ magnitude pm.position_size + 10
        → magnitude next'.position_size ≤ magnitude pm'.position_size + 10
    moved_cong ep en h = rw (← ep, ← en) h

    evaluate-eq :
        (start bid ask : ℕ) (tick : MarketTick) (e traded : StrategyEngine d)
        → let logged = log_initial d clock start bid ask e in
          let updated = update_signals d logged.signals logged.book tick (of_nat d 0) in
          let fill = fill_of d (combined_score d logged.signals updated.1) bid ask in
          trade d clock start fill.0 fill.1 (record logged { signals = updated.0 }) ≡ some traded
          → evaluate d clock start bid ask tick e ≡ some (log_periodic d clock start bid ask traded)
    unfolding evaluate
    evaluate-eq start bid ask tick e traded done = rw done refl

    -- `IsTrade` at the score of the signals, for a book with both sides.
    pub evaluate-IsTrade :
        (start bid ask : ℕ) (tick : MarketTick) (e : StrategyEngine d)
        → magnitude e.position_manager.position_size + 10 < 2 ^ 31
        → (e' : StrategyEngine d) × (evaluate d clock start bid ask tick e ≡ some e')
          × IsTrade (score_of e.signals e.book tick) bid ask e.position_manager e'.position_manager
          × IsKept e e'
    evaluate-IsTrade start bid ask tick e fits =
        let logged = log_initial d clock start bid ask e in
        let updated = update_signals d logged.signals logged.book tick (of_nat d 0) in
        let (q0, b0, m0, s0) = log_initial-keeps start bid ask e in
        let (traded, done, traded-IsTrade, (q1, b1, size)) =
          trade-IsTrade start bid ask (score_of logged.signals logged.book tick)
            (record logged { signals = updated.0 }) (rw m0 fits) in
        let (q2, b2, m2) = log_periodic-keeps start bid ask traded in
        (
          log_periodic d clock start bid ask traded,
          evaluate-eq start bid ask tick e traded done,
          IsTrade-cong bid ask (ap₂ (λ s b. score_of s b tick) s0 b0) m0 (sym m2) traded-IsTrade,
          (q2 ∙ q1 ∙ q0, b2 ∙ b1 ∙ b0, moved_cong m0 (sym m2) size),
        )
