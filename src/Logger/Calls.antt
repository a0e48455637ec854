-- ===== src/Logger/Calls.antt =====
-- The calls that log, as pushes into the queue of `AsyncLogger`.
use low_latency_prediction_m.Base.{
  ℕ, ◌≡◌, refl, List, Bytes, some, arith, ◌<◌, ◌∙◌, ◌⊎◌, length, Bool, true, false,
}
use low_latency_prediction_m.Base.Int.{ℤ}
use low_latency_prediction_m.Base.Double.{Arithmetic}
use low_latency_prediction_m.Queue.{push, pop}
use low_latency_prediction_m.Queue.Invariant.{Holds}
use low_latency_prediction_m.Queue.Fifo.{push_refines, pop_refines}
use low_latency_prediction_m.Logger.Drain.{queue-IsSize, drain-all, drain_without_io-empty}
use low_latency_prediction_m.Logger.{
  queue_size, LogEvent, Queue, Format, Writer, log_event, log_active_strategy, run_round, round,
  discard, drain, drain_without_io, finish,
}

module _ {d : Arithmetic} where
  open d use {Double}

  -- The queue holds some events in its slots.
  abbrev pub IsHolding : Queue d → Type 0
  IsHolding q = (items : List (LogEvent d)) × Holds queue_size q items

  push-IsHolding :
      (q : Queue d) (ev : LogEvent d) → IsHolding q → IsHolding (push queue_size q ev).0
  push-IsHolding q ev (items, h) = (_, (push_refines queue-IsSize ev h).0)

  -- The engine's events are of two types.
  abbrev pub IsEngineEvent : LogEvent d → Type 0
  IsEngineEvent ev = (ev.event_type ≡ b'P') ⊎ (ev.event_type ≡ b'T')

  -- A property of the queue that no event of the engine destroys.
  abbrev pub IsKept : (Queue d → Type 0) → Type 0
  IsKept IsJournal =
      (q : Queue d) (ev : LogEvent d)
      → IsEngineEvent ev
      → IsJournal q
      → IsJournal (push queue_size q ev).0

  pub IsHolding-IsKept : IsKept IsHolding
  IsHolding-IsKept q ev type h = push-IsHolding q ev h

  pub log_event-IsKept :
      (IsJournal : Queue d → Type 0)
      → IsKept IsJournal
      → (timestamp_us event_type : ℕ) (price : Double) (size : ℤ) (pnl : Double) (latency_us : ℕ)
        (q : Queue d)
      → (event_type ≡ b'P') ⊎ (event_type ≡ b'T')
      → IsJournal q
      → IsJournal (log_event d timestamp_us event_type price size pnl latency_us q).0
  unfolding log_event
  log_event-IsKept IsJournal kept timestamp_us event_type price size pnl latency_us q type h =
      kept q _ type h

  pub log_active_strategy-IsHolding :
      (name : Bytes) (q : Queue d) → IsHolding q → IsHolding (log_active_strategy d name q).0
  unfolding log_active_strategy
  log_active_strategy-IsHolding name q h = push-IsHolding q _ h

  -- A round of the logger's thread pops, whether the file is open or not.
  run_round-queue :
      (format : Format d) (opened : Bool) (now : ℕ) (q : Queue d) (w : Writer d)
      → (run_round d format opened now q w).0 ≡ (pop queue_size q).0
  unfolding run_round round discard
  run_round-queue format opened now q w = ground arith

  pub run_round-IsHolding :
      (format : Format d) (opened : Bool) (now : ℕ) (q : Queue d) (w : Writer d)
      → IsHolding q
      → IsHolding (run_round d format opened now q w).0
  run_round-IsHolding format opened now q w (items, h) =
      rw (run_round-queue format opened now q w) (_, (pop_refines queue-IsSize h).0)

  finish-opened :
      (format : Format d) (fuel : ℕ) (q : Queue d) (w : Writer d)
      → finish d format true fuel q w ≡ drain d format fuel q w
  unfolding finish
  finish-opened format fuel q w = refl

  finish-closed :
      (format : Format d) (fuel : ℕ) (q q' : Queue d) (w : Writer d)
      → drain_without_io d fuel q ≡ some q'
      → finish d format false fuel q w ≡ some (q', w)
  unfolding finish
  finish-closed format fuel q q' w e = rw e refl

  -- The logger's thread ends after the stop, and an open file is flushed to its last line.
  pub finish_lem :
      (format : Format d) (opened : Bool) (fuel : ℕ) (q : Queue d) (w : Writer d)
      → IsHolding q
      → queue_size < fuel
      → (q' : Queue d) × (w' : Writer d) × (finish d format opened fuel q w ≡ some (q', w'))
        × (opened ≡ true → w'.flushed ≡ length w'.written)
  finish_lem format true fuel q w (items, h) enough =
      let (q', w', done, empty', all, whole) =
        drain-all format items fuel w h (omega (arith, h.fits)) in
      (q', w', finish-opened format fuel q w ∙ done, λ e. whole)
  finish_lem format false fuel q w (items, h) enough =
      let (q', done, empty') = drain_without_io-empty format items fuel h (omega (arith, h.fits)) in
      (q', w, finish-closed format fuel q q' w done, λ e. cc)
