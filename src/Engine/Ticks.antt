-- ===== src/Engine/Ticks.antt =====
-- What one tick makes the engine do: the book it keeps and the trade it makes.
use low_latency_prediction_m.Base.{
  ℕ, ◌+◌, ◌%◌, ◌^◌, ◌≤◌, ◌<◌, ◌≡◌, refl, ◌∙◌, ◌⊎◌, inl, inr, Bool, true, false, ◌||◌, some, ◌==◌,
  Bool-cases, arith,
}
use low_latency_prediction_m.Base.Words.{word_size}
use low_latency_prediction_m.Base.Int.{magnitude}
use low_latency_prediction_m.Base.Double.{Arithmetic}
use low_latency_prediction_m.Book.{
  MarketTick, LimitOrderBook, no_bid, no_ask, apply_tick, get_best_bid, get_best_ask, get_bid_size,
  get_ask_size,
}
use low_latency_prediction_m.Alphas.{sum_u32}
use low_latency_prediction_m.Alphas.Top.{IsTwoSided}
use low_latency_prediction_m.Engine.Trades.{score_of, IsTrade, evaluate-IsTrade}
use low_latency_prediction_m.Engine.{StrategyEngine, evaluate, on_tick}

module _ (d : Arithmetic) (clock : ℕ → ℕ) where
  -- The engine with the tick in the book and counted.
  abbrev pub counted : MarketTick → StrategyEngine d → StrategyEngine d
  counted tick e = record e {
    book = apply_tick e.book tick;
    ticks_processed = (e.ticks_processed + 1) % word_size;
    readings = e.readings + 1;
  }

  -- The two guards of the loop body.
  abbrev pub lacks_side : LimitOrderBook → Bool
  lacks_side book = get_best_bid book == no_bid || get_best_ask book == no_ask

  abbrev pub lacks_size : LimitOrderBook → Bool
  lacks_size book =
      sum_u32 (get_bid_size book (get_best_bid book)) (get_ask_size book (get_best_ask book)) == 0

  pub on_tick-side :
      (tick : MarketTick) (e : StrategyEngine d)
      → lacks_side (apply_tick e.book tick) ≡ true
      → on_tick d clock tick e ≡ some (counted tick e)
  unfolding on_tick
  on_tick-side tick e side = rw side refl

  pub on_tick-size :
      (tick : MarketTick) (e : StrategyEngine d)
      → lacks_side (apply_tick e.book tick) ≡ false
      → lacks_size (apply_tick e.book tick) ≡ true
      → on_tick d clock tick e ≡ some (counted tick e)
  unfolding on_tick
  on_tick-size tick e side size = rw (side, size) refl

  pub on_tick-evaluate :
      (tick : MarketTick) (e : StrategyEngine d)
      → let book = apply_tick e.book tick in
        lacks_side book ≡ false
        → lacks_size book ≡ false
        → on_tick d clock tick e
          ≡ evaluate d clock
              (clock e.readings)
              (get_best_bid book)
              (get_best_ask book)
              tick
              (counted tick e)
  unfolding on_tick
  on_tick-evaluate tick e side size = rw (side, size) refl

  two_sided : (book : LimitOrderBook) → lacks_side book ≡ false → IsTwoSided book
  two_sided book h = ground arith

  -- While ten contracts more fit an `int`, a tick is carried out. The book takes it, and the position
  -- stays as it is or, on a book with both sides, makes a trade: ten contracts bought at the best ask
  -- where the signals score the new book 0.6 or more, or sold at the best bid where -0.6 or less.
  pub on_tick-IsTrade :
      (tick : MarketTick) (e : StrategyEngine d)
      → magnitude e.position_manager.position_size + 10 < 2 ^ 31
      → (e' : StrategyEngine d) × (on_tick d clock tick e ≡ some e')
        × (e'.queue ≡ e.queue)
        × (e'.book ≡ apply_tick e.book tick)
        × ((e'.position_manager ≡ e.position_manager)
            ⊎ (IsTwoSided e'.book
                × IsTrade d
                    (score_of d e.signals e'.book tick)
                    (get_best_bid e'.book)
                    (get_best_ask e'.book)
                    e.position_manager
                    e'.position_manager))
        × (magnitude e'.position_manager.position_size
            ≤ magnitude e.position_manager.position_size + 10)
  on_tick-IsTrade tick e fits =
      let book = apply_tick e.book tick in
      elim (Bool-cases (lacks_side book)) [
        | inl side ↦ (counted tick e, on_tick-side tick e side, refl, refl, inl refl, omega arith)
        | inr side ↦ elim (Bool-cases (lacks_size book)) [
          | inl size ↦
              (counted tick e, on_tick-size tick e side size, refl, refl, inl refl, omega arith)
          | inr size ↦
              let (e', done, traded, (q, b, moved)) =
                evaluate-IsTrade d clock (clock e.readings) (get_best_bid book) (get_best_ask book)
                  tick (counted tick e) fits in
              (
                e',
                on_tick-evaluate tick e side size ∙ done,
                q,
                b,
                inr (rw b (two_sided book side, traded)),
                moved,
              )
        ]
      ]
