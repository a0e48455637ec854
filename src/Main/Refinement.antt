-- ===== src/Main/Refinement.antt =====
-- The program's threads implement the specification of the data path.
use low_latency_prediction_m.Base.{
  Bool-cases, inl, inr, ℕ, ◌+◌, ◌*◌, ◌^◌, ◌≤◌, ◌<◌, ◌≡◌, refl, ◌∙◌, ap, Bool, List, [], ◌∷◌, arith,
  take,
}
use low_latency_prediction_m.Base.Int.{magnitude}
use low_latency_prediction_m.Base.Double.{Arithmetic}
use low_latency_prediction_m.Base.Both.{Both, Both-bind, Both-if, Both-weaken}
use low_latency_prediction_m.Book.Order.{apply_all}
use low_latency_prediction_m.Parser.Json.{Simdjson, ReadsLength}
use low_latency_prediction_m.Logger as Log
use low_latency_prediction_m.Logger.Calls.{IsKept}
use low_latency_prediction_m.Engine.Logs.{round-Kept}
use low_latency_prediction_m.Engine.Rounds.{size_of, round-step, MovesBy-size}
use low_latency_prediction_m.Client.{WebSocketClient, handle}
use low_latency_prediction_m.Client.Feed.{feed_event, IsFed}
use low_latency_prediction_m.Client.Feed.Events.{handle-IsFed}
use low_latency_prediction_m.Main.{
  Move, network, strategy, logging, stop_strategy, stop_network, Process, step, play,
}
use low_latency_prediction_m.Main.Market.{
  Market, taken, ticks_taken, ticks_taken-cons, taken_le, market_step, market_play,
}

-- A property of the logger's queue and stream that the engine's events and the rounds of the logger keep.
pub record IsKeptBy {d : Arithmetic} (format : Log.Format d) (opened : Bool)
    (IsJournal : Log.Queue d → Log.Writer d → Type 0) : Type 0 where
  pub by_engine : (w : Log.Writer d) → IsKept (λ q. IsJournal q w)
  pub by_logger :
      (now : ℕ) (q : Log.Queue d) (w : Log.Writer d)
      → IsJournal q w
      → let (q', w') = Log.run_round d format opened now q w in IsJournal q' w'

-- The process is where the specification is, and the property of its journal is kept. `ready` says
-- whether the parser was initialised.
abbrev pub IsRun :
    (j : Simdjson) {d : Arithmetic} (ready : Bool) (IsJournal : Log.Queue d → Log.Writer d → Type 0)
    → Process d
    → Market
    → Type 0
IsRun j ready IsJournal s m =
    IsFed j ready (record (s.client) { queue = s.engine.queue }) m.feed
    × (s.engine.book ≡ m.book)
    × (s.network_running ≡ m.network_running)
    × (s.strategy_running ≡ m.strategy_running)
    × IsJournal s.engine.log_queue s.writer

-- With the size of the position, long or short, within `bound`.
abbrev pub IsRunWithin :
    (j : Simdjson) {d : Arithmetic} (ready : Bool) (IsJournal : Log.Queue d → Log.Writer d → Type 0)
    → ℕ
    → Process d
    → Market
    → Type 0
IsRunWithin j ready IsJournal bound s m =
    IsRun j ready IsJournal s m × (magnitude s.engine.position_manager.position_size ≤ bound)

module _ (j : Simdjson) (d : Arithmetic) (format : Log.Format d) (clock : ℕ → ℕ)
    (opened ready : Bool) (IsJournal : Log.Queue d → Log.Writer d → Type 0)
    (kept : IsKeptBy format opened IsJournal) where
  -- A round of the strategy, with ten contracts to spare if there is a tick.
  strategy-IsRunWithin :
      (s : Process d) (m : Market)
      → IsRun j ready IsJournal s m
      → size_of d clock s.engine + 10 * taken strategy m < 2 ^ 31
      → Both
          (IsRunWithin j ready IsJournal (size_of d clock s.engine + 10 * taken strategy m))
          (step j d format clock opened strategy s)
          (market_step j ready strategy m)
  unfolding step
  strategy-IsRunWithin s m ((at, clean, ini, holds), b, net, strat, logs) fits =
      elim (Bool-cases m.strategy_running) [
        | inl on ↦
            let (e', done, holds', b', moved) =
              round-step d clock s.engine m.feed.items holds (rw on at fits) in
            let logs' =
              (rw done at (
                  round-Kept d clock (λ q. IsJournal q s.writer) (kept.by_engine s.writer)
                    s.engine))
                logs in
            let book = b' ∙ ap (λ t. apply_all t (take 1 m.feed.items)) b in
            rw (on, strat ∙ on, done)
              (((at, clean, ini, holds'), book, net, refl, logs'), MovesBy-size _ _ _ moved)
        | inr off ↦
            rw (off, strat ∙ off) (((at, clean, ini, holds), b, net, refl, logs), omega arith)
      ]

  -- One move.
  step-IsRunWithin :
      (move : Move) (s : Process d) (m : Market)
      → ReadsLength j
      → IsRun j ready IsJournal s m
      → size_of d clock s.engine + 10 * taken move m < 2 ^ 31
      → Both
          (IsRunWithin j ready IsJournal (size_of d clock s.engine + 10 * taken move m))
          (step j d format clock opened move s)
          (market_step j ready move m)
  unfolding step
  step-IsRunWithin (network e) s m reads (fed, b, net, strat, logs) fits =
      let near = IsRunWithin j ready IsJournal (size_of d clock s.engine + 0) in
      let told : WebSocketClient = record (s.client) { queue = s.engine.queue } in
      Both-if near s.network_running m.network_running _ _ _ _ net
        (Both-bind (IsFed j ready) near _ _ (handle j e told) (feed_event j ready e m.feed)
          (handle-IsFed j ready e told m.feed reads fed)
          (λ c f e' fed'. ((fed', b, net, strat, logs), omega arith)))
        ((fed, b, net, strat, logs), omega arith)
  step-IsRunWithin strategy s m reads h fits = strategy-IsRunWithin s m h fits
  step-IsRunWithin (logging now) s m reads (fed, b, net, strat, logs) fits =
      ((fed, b, net, strat, kept.by_logger now s.engine.log_queue s.writer logs), omega arith)
  step-IsRunWithin stop_strategy s m reads (fed, b, net, strat, logs) fits =
      ((fed, b, net, refl, logs), omega arith)
  step-IsRunWithin stop_network s m reads (fed, b, net, strat, logs) fits =
      ((fed, b, refl, strat, logs), omega arith)

  -- Induction on the moves, with the position in range for the ticks to come.
  pub play-IsRunWithin :
      (moves : List Move) (s : Process d) (m : Market)
      → ReadsLength j
      → IsRun j ready IsJournal s m
      → size_of d clock s.engine + 10 * ticks_taken j ready moves m < 2 ^ 31
      → Both
          (IsRunWithin j ready IsJournal
            (size_of d clock s.engine + 10 * ticks_taken j ready moves m))
          (play j d format clock opened moves s)
          (market_play j ready moves m)
  unfolding play market_play
  play-IsRunWithin [] s m reads h fits = (h, omega arith)
  play-IsRunWithin (move ∷ moves) s m reads h fits =
      let near =
        IsRunWithin j ready IsJournal
          (size_of d clock s.engine + 10 * ticks_taken j ready (move ∷ moves) m) in
      Both-bind (IsRunWithin j ready IsJournal (size_of d clock s.engine + 10 * taken move m)) near
        _ _ (step j d format clock opened move s) (market_step j ready move m)
        (step-IsRunWithin move s m reads h (omega (arith, taken_le j ready move moves m)))
        (λ s' m' e (h', moved).
          let total = ticks_taken-cons j ready move moves m m' e in
          Both-weaken
            (IsRunWithin j ready IsJournal
              (size_of d clock s'.engine + 10 * ticks_taken j ready moves m'))
            near (play j d format clock opened moves s') (market_play j ready moves m')
            (play-IsRunWithin moves s' m' reads h' (omega arith))
            (λ a b (run, moved'). (run, omega arith)))
