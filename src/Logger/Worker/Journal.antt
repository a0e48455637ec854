-- ===== src/Logger/Worker/Journal.antt =====
-- The log file of a program that logs the active strategy first and then the engine's events.
use low_latency_prediction_m.Base.{
  ℕ, ◌<◌, ◌≡◌, ◌∙◌, true, some, List, [], ◌∷◌, ◌++◌, map, Bytes, length, arith, Bool-cases, inl,
  inr, All, All-append,
}
use low_latency_prediction_m.Base.Int.{pos}
use low_latency_prediction_m.Base.Double.{Arithmetic}
use low_latency_prediction_m.Queue.{push, empty}
use low_latency_prediction_m.Queue.Steps.{empty-Holds}
use low_latency_prediction_m.Queue.Fifo.{push_refines}
use low_latency_prediction_m.Logger.Drain.{queue-IsSize, drain-all}
use low_latency_prediction_m.Logger.Calls.{IsEngineEvent, IsKept}
use low_latency_prediction_m.Logger.Worker.{
  Run, step, begin, IsLogged, begin-IsLogged, log-IsLogged, work-IsLogged,
}
use low_latency_prediction_m.Logger.{
  queue_size, LogEvent, Queue, Format, Writer, line, start, name_field, log_active_strategy,
  run_round, finish,
}

module _ {d : Arithmetic} (format : Format d) (now : ℕ) (name : Bytes) where
  open d use {of_int}

  -- The event of `log_active_strategy`.
  abbrev pub strategy_event : LogEvent d
  strategy_event = record {
    timestamp_us = 0;
    event_type = b'M';
    price = of_int (pos 0);
    size = pos 0;
    realized_pnl = of_int (pos 0);
    latency_us = 0;
    strategy = name_field name;
  }

  abbrev run_of : List (LogEvent d) → Queue d → Writer d → Run format
  run_of events q w = record { queue = q; writer = w; accepted = strategy_event ∷ events }

  -- The events accepted are that of the strategy and then the engine's, and each is written or still in
  -- the queue.
  abbrev pub IsJournal : Queue d → Writer d → Type 0
  IsJournal q w =
      (events : List (LogEvent d)) × IsLogged format now (run_of events q w)
      × All IsEngineEvent events

  pub begin-IsJournal :
      IsJournal (log_active_strategy d name (empty queue_size)).0 (start d format now)
  unfolding begin step log_active_strategy
  begin-IsJournal =
      let h =
        log-IsLogged format now (begin format now) strategy_event (begin-IsLogged format now) in
      let (holds, room) = push_refines queue-IsSize strategy_event (empty-Holds queue-IsSize) in
      ([], rw room at h, tt)

  pub IsJournal-IsKept : (w : Writer d) → IsKept (λ q. IsJournal q w)
  unfolding step
  IsJournal-IsKept w q ev type (events, h, all) =
      let h' = log-IsLogged format now (run_of events q w) ev h in
      elim (Bool-cases (push queue_size q ev).1) [
        | inl taken ↦ (
          events ++ ev ∷ [],
          rw taken at h',
          All-append IsEngineEvent events (ev ∷ []) all (type, tt),
        )
        | inr dropped ↦ (events, rw dropped at h', all)
      ]

  pub run_round-IsJournal :
      (t : ℕ) (q : Queue d) (w : Writer d)
      → IsJournal q w
      → let (q', w') = run_round d format true t q w in IsJournal q' w'
  unfolding step run_round
  run_round-IsJournal t q w (events, h, all) =
      (events, work-IsLogged format now (run_of events q w) t h, all)

  -- What the file holds once the logger's thread has ended.
  abbrev pub IsFile : Writer d → Type 0
  IsFile w =
      (events : List (LogEvent d)) × (w.written
        ≡ (start d format now).written ++ line d format strategy_event ∷ map (line d format) events)
      × All IsEngineEvent events
      × (w.flushed ≡ length w.written)

  pub finish-IsFile :
      (fuel : ℕ) (q : Queue d) (w : Writer d)
      → IsJournal q w
      → queue_size < fuel
      → (q' : Queue d) × (w' : Writer d) × (finish d format true fuel q w ≡ some (q', w'))
        × IsFile w'
  unfolding finish
  finish-IsFile fuel q w (events, (items, h, e), all) enough =
      let (q', w', done, empty', written, whole) =
        drain-all format items fuel w h (omega (arith, h.fits)) in
      (q', w', done, (events, written ∙ e, all, whole))
