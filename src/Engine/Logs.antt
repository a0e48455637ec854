-- ===== src/Engine/Logs.antt =====
-- The events that the engine logs: what they keep of the logger's queue, its rounds keep.
use low_latency_prediction_m.Base.{
  ℕ, ◌≡◌, refl, ◌⊎◌, inl, inr, Option, some, none, Bool-cases, Option-cases, ◌%◌, ◌==◌,
}
use low_latency_prediction_m.Base.Int.{ℤ, pos, eqb_ℤ}
use low_latency_prediction_m.Base.Double.{Arithmetic}
use low_latency_prediction_m.Book.{MarketTick, apply_tick}
use low_latency_prediction_m.Queue.{SpscQueue, Popped, nothing, item, undefined, pop}
use low_latency_prediction_m.Engine.Ticks.{
  counted, lacks_side, lacks_size, on_tick-side, on_tick-size, on_tick-evaluate,
}
use low_latency_prediction_m.Positions.{add_fill}
use low_latency_prediction_m.Alphas.{of_nat}
use low_latency_prediction_m.Logger as Log
use low_latency_prediction_m.Logger.Calls.{IsKept, log_event-IsKept}
use low_latency_prediction_m.Engine.{
  tick_queue_size, StrategyEngine, log, log_equity, log_initial, trade, update_signals,
  combined_score, fill_of, log_periodic, evaluate, on_tick, round,
}

module _ (d : Arithmetic) (clock : ℕ → ℕ) (IsJournal : Log.Queue d → Type 0)
    (kept : IsKept IsJournal) where
  open d use {Double}

  log-IsJournal :
      (start type : ℕ) (p pnl : Double) (f : ℤ) (e : StrategyEngine d)
      → (type ≡ b'P') ⊎ (type ≡ b'T')
      → IsJournal e.log_queue
      → IsJournal (log d clock start type p f pnl e).log_queue
  unfolding log
  log-IsJournal start type p pnl f e t h =
      log_event-IsKept IsJournal kept _ _ _ _ _ _ e.log_queue t h

  log_equity-IsJournal :
      (start bid ask : ℕ) (e : StrategyEngine d)
      → IsJournal e.log_queue
      → IsJournal (log_equity d clock start bid ask e).log_queue
  unfolding log_equity
  log_equity-IsJournal start bid ask e h = log-IsJournal _ _ _ _ _ e (inl refl) h

  log_initial-IsJournal :
      (start bid ask : ℕ) (e : StrategyEngine d)
      → IsJournal e.log_queue
      → IsJournal (log_initial d clock start bid ask e).log_queue
  unfolding log_initial
  log_initial-IsJournal start bid ask e h = elim (Bool-cases e.emitted_initial_p) [
    | inl emitted ↦ rw emitted h
    | inr first ↦ rw first (log_equity-IsJournal start bid ask e h)
  ]

  log_periodic-IsJournal :
      (start bid ask : ℕ) (e : StrategyEngine d)
      → IsJournal e.log_queue
      → IsJournal (log_periodic d clock start bid ask e).log_queue
  unfolding log_periodic
  log_periodic-IsJournal start bid ask e h = elim (Bool-cases (e.ticks_processed % 1000 == 0)) [
    | inl now ↦ rw now (log_equity-IsJournal start bid ask e h)
    | inr later ↦ rw later h
  ]

  -- A result of a call, where there is one, has the property if the engine had it.
  abbrev pub Kept : StrategyEngine d → Option (StrategyEngine d) → Type 0
  Kept e none = Unit
  Kept e (some e') = IsJournal e.log_queue → IsJournal e'.log_queue

  trade-Kept :
      (start : ℕ) (f : ℤ) (p : Double) (e : StrategyEngine d) → Kept e (trade d clock start f p e)
  unfolding trade
  trade-Kept start f p e = elim (Bool-cases (eqb_ℤ f (pos 0))) [
    | inl flat ↦ rw flat (λ h. h)
    | inr filled ↦ elim (Option-cases (add_fill d e.position_manager f p)) [
      | inl failed ↦ rw (filled, failed) tt
      | inr (pm, done) ↦
          rw (filled, done)
            (log-IsJournal _ _ _ _ _ (record e { position_manager = pm }) (inr refl))
    ]
  ]

  evaluate-Kept :
      (start bid ask : ℕ) (tick : MarketTick) (e : StrategyEngine d)
      → Kept e (evaluate d clock start bid ask tick e)
  unfolding evaluate
  evaluate-Kept start bid ask tick e =
      let logged = log_initial d clock start bid ask e in
      let updated = update_signals d logged.signals logged.book tick (of_nat d 0) in
      let fill = fill_of d (combined_score d logged.signals updated.1) bid ask in
      let before = record logged { signals = updated.0 } in
      let traded-Kept = trade-Kept start fill.0 fill.1 before in
      elim (Option-cases (trade d clock start fill.0 fill.1 before)) [
        | inl failed ↦ rw failed tt
        | inr (traded, done) ↦ rw done (λ h.
            log_periodic-IsJournal start bid ask traded
              ((rw done at traded-Kept) (log_initial-IsJournal start bid ask e h)))
      ]

  on_tick-Kept : (tick : MarketTick) (e : StrategyEngine d) → Kept e (on_tick d clock tick e)
  on_tick-Kept tick e =
      let book = apply_tick e.book tick in
      elim (Bool-cases (lacks_side d clock book)) [
        | inl side ↦ rw (on_tick-side d clock tick e side) (λ h. h)
        | inr side ↦ elim (Bool-cases (lacks_size d clock book)) [
          | inl size ↦ rw (on_tick-size d clock tick e side size) (λ h. h)
          | inr size ↦
              rw (on_tick-evaluate d clock tick e side size)
                (evaluate-Kept _ _ _ tick (counted d clock tick e))
        ]
      ]

  popped-Kept :
      (e : StrategyEngine d) (q : SpscQueue MarketTick) (out : Popped MarketTick)
      → Kept e (elim out as (λ x. Option (StrategyEngine d)) [
        | nothing ↦ some (record e { queue = q })
        | item tick ↦ on_tick d clock tick (record e { queue = q })
        | undefined ↦ none
      ])
  popped-Kept e q nothing = λ h. h
  popped-Kept e q (item tick) = on_tick-Kept tick (record e { queue = q })
  popped-Kept e q undefined = tt

  pub round-Kept : (e : StrategyEngine d) → Kept e (round d clock e)
  unfolding round
  round-Kept e = popped-Kept e (pop tick_queue_size e.queue).0 (pop tick_queue_size e.queue).1
