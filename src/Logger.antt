-- ===== src/Logger.antt =====
-- `AsyncLogger` of include/async_logger.hpp: the two calls that log an event, and the worker thread
-- that writes the events to a file. The file is what was written to the stream, as a list of lines, and
-- the number of the lines that a flush has covered.
pub mod Drain
pub mod Calls
pub mod Worker
pub mod Names
use low_latency_prediction_m.Base.{
  ℕ, zero, suc, ◌+◌, ◌-◌, Bool, true, false, ◌||◌, Option, none, some, List, [], ◌∷◌, ◌++◌, leb,
  ltb, ◌==◌, if◌then◌else◌, ◌>>=◌, Bytes, codes, length, set, replicate,
}
use low_latency_prediction_m.Base.Int.{ℤ, pos}
use low_latency_prediction_m.Base.Double.{Arithmetic}
use low_latency_prediction_m.Queue.{SpscQueue, Popped, nothing, item, undefined, push, pop}

abbrev pub queue_size : ℕ
queue_size = 4096

-- The length of `LogEvent::strategy`.
abbrev pub name_size : ℕ
name_size = 16

-- `for (i = 0; i < n; ++i) ev.strategy[i] = strategy_name[i];` from `i` on, with `n - i` rounds left.
pub copy_name : ℕ → ℕ → Bytes → Bytes → Bytes
copy_name zero i name strategy = strategy
copy_name (suc left) i [] strategy = strategy
copy_name (suc left) i (c ∷ name) strategy = copy_name left (i + 1) name (set strategy i c)

-- The field `strategy` of the event for a name.
pub name_field : Bytes → Bytes
unfolding copy_name
name_field name =
    let n = if ltb (length name) (name_size - 1) then length name else name_size - 1 in
    set (copy_name n 0 name (replicate name_size 0)) n 0

-- A character array as `<<` prints it, up to its first zero.
pub c_string : Bytes → Bytes
c_string [] = []
c_string (c ∷ s) = let rest = c_string s in if c == 0 then [] else c ∷ rest

module _ (d : Arithmetic) where
  open d use {Double, of_int}

  pub record LogEvent : Type 0 where
    pub timestamp_us : ℕ
    pub event_type : ℕ
    pub price : Double
    pub size : ℤ
    pub realized_pnl : Double
    pub latency_us : ℕ
    pub strategy : Bytes

  abbrev pub Queue : Type 0
  Queue = SpscQueue LogEvent

  pub log_event : ℕ → ℕ → Double → ℤ → Double → ℕ → Queue → Queue × Bool
  log_event timestamp_us event_type price size realized_pnl latency_us q =
      let ev : LogEvent = record {
        timestamp_us = timestamp_us;
        event_type = event_type;
        price = price;
        size = size;
        realized_pnl = realized_pnl;
        latency_us = latency_us;
        strategy = set (replicate name_size 0) 0 0;
      } in
      push queue_size q ev

  pub log_active_strategy : Bytes → Queue → Queue × Bool
  unfolding name_field
  log_active_strategy strategy_name q =
      let ev : LogEvent = record {
        timestamp_us = 0;
        event_type = b'M';
        price = of_int (pos 0);
        size = pos 0;
        realized_pnl = of_int (pos 0);
        latency_us = 0;
        strategy = name_field strategy_name;
      } in
      push queue_size q ev

  -- How the stream prints numbers.
  pub record Format : Type 0 where
    pub print_nat : ℕ → Bytes
    pub print_int : ℤ → Bytes
    pub print_double : Double → Bytes

  -- The stream and the two locals of `run`.
  pub record Writer : Type 0 where
    pub written : List Bytes
    pub flushed : ℕ
    pub events_since_flush : ℕ
    pub last_flush : ℕ

  -- `out.flush()`
  abbrev pub flush : Writer → Writer
  flush w = record w { flushed = length w.written }

  -- One second, in the nanoseconds of the clock.
  abbrev pub second : ℕ
  second = 1000000000

  pub maybe_flush : ℕ → Writer → Writer
  maybe_flush now w =
      if leb 1000 w.events_since_flush || leb second (now - w.last_flush)
      then record (flush w) { events_since_flush = 0; last_flush = now }
      else w

  module _ (format : Format) where
    open format use {print_nat, print_int, print_double}

    pub line : LogEvent → Bytes
    unfolding c_string
    line ev =
        print_nat ev.timestamp_us
        ++ b',' ∷ ev.event_type ∷ b',' ∷ print_double ev.price
        ++ b',' ∷ print_int ev.size
        ++ b',' ∷ print_double ev.realized_pnl
        ++ b',' ∷ print_nat ev.latency_us
        ++ b',' ∷ c_string ev.strategy
        ++ 10 ∷ []

    pub write : LogEvent → Writer → Writer
    unfolding line
    write ev w = record w { written = w.written ++ line ev ∷ [] }

    -- The locals at the head of `run`, with the header line written.
    pub start : ℕ → Writer
    start now = record {
      written =
          (codes "timestamp_us,event_type,price,size,realized_pnl,latency_us,strategy" ++ 10 ∷ [])
          ∷ [];
      flushed = 0;
      events_since_flush = 0;
      last_flush = now;
    }

    -- One round of the loop of `run`.
    pub round : ℕ → Queue → Writer → Queue × Writer
    unfolding write maybe_flush
    round now q w =
        let (q', out) = pop queue_size q in
        elim out [
          | nothing ↦ (q', maybe_flush now w)
          | item ev ↦
              let w' = write ev w in
              (q', maybe_flush now (record w' { events_since_flush = w'.events_since_flush + 1 }))
          | undefined ↦ (q', w)
        ]

    -- The loop behind it, with the flush at its end; the fuel bounds the rounds.
    pub drain : ℕ → Queue → Writer → Option (Queue × Writer)
    unfolding write
    drain zero q w = none
    drain (suc fuel) q w =
        let (q', out) = pop queue_size q in
        elim out [
          | nothing ↦ some (q', flush w)
          | item ev ↦ drain fuel q' (write ev w)
          | undefined ↦ none
        ]

  -- The loop at the end of `drain_without_io`.
  pub drain_without_io : ℕ → Queue → Option Queue
  drain_without_io zero q = none
  drain_without_io (suc fuel) q =
      let (q', out) = pop queue_size q in
      elim out [ nothing ↦ some q' | item ev ↦ drain_without_io fuel q' | undefined ↦ none ]

  -- One round of the first loop of `drain_without_io`.
  pub discard : Queue → Queue
  discard q = (pop queue_size q).0

  -- `run` by rounds, with `opened` for `out.is_open()`: one round while `running_` is set, and what
  -- follows once it is not.
  pub run_round : Format → Bool → ℕ → Queue → Writer → Queue × Writer
  unfolding round discard
  run_round format opened now q w = if opened then round format now q w else (discard q, w)

  pub finish : Format → Bool → ℕ → Queue → Writer → Option (Queue × Writer)
  unfolding drain drain_without_io
  finish format opened fuel q w =
      let written = drain format fuel q w in
      let discarded = (do q' ← drain_without_io fuel q; some (q', w)) in
      if opened then written else discarded
