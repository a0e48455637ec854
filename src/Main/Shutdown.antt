-- ===== src/Main/Shutdown.antt =====
-- From the start of `main` to its return.
use native.Mathlib.Nat.{zero-add}
use low_latency_prediction_m.Base.{
  ℕ, ◌*◌, ◌^◌, ◌<◌, ◌≤◌, ◌≡◌, refl, Bool, true, false, Option, some, List, [], arith, length, Bytes,
}
use low_latency_prediction_m.Base.Both.{Both, Both-some}
use low_latency_prediction_m.Base.Int.{magnitude}
use low_latency_prediction_m.Base.Double.{Arithmetic}
use low_latency_prediction_m.Book.{MarketTick}
use low_latency_prediction_m.Book as Book
use low_latency_prediction_m.Positions as Positions
use low_latency_prediction_m.Queue as Spsc
use low_latency_prediction_m.Queue.Steps.{empty-Holds}
use low_latency_prediction_m.Queue.Destroy.{destroy-IsRaw}
use low_latency_prediction_m.Parser.Json.{Simdjson, ReadsLength}
use low_latency_prediction_m.Parser.Messages as Messages
use low_latency_prediction_m.Logger as Log
use low_latency_prediction_m.Logger.Drain.{queue-IsSize}
use low_latency_prediction_m.Logger.Calls.{
  IsHolding, IsHolding-IsKept, run_round-IsHolding, finish_lem, log_active_strategy-IsHolding,
}
use low_latency_prediction_m.Logger.Worker.Journal.{
  IsJournal, IsJournal-IsKept, begin-IsJournal, run_round-IsJournal, IsFile, finish-IsFile,
}
use low_latency_prediction_m.Queue.Invariant.{Holds}
use low_latency_prediction_m.Engine.{StrategyEngine, tick_queue_size}
use low_latency_prediction_m.Engine.Rounds.{size_of, tick_queue-IsSize}
use low_latency_prediction_m.Client.{resolve}
use low_latency_prediction_m.Client as Client
use low_latency_prediction_m.Cli.{
  StrategySelection, Endpoint, endpoint, strategy_name, parse_strategy_selection,
}
use low_latency_prediction_m.Main.{
  Move, Process, failure, success, new_client, new_engine, boot, play, until_joined, main,
}
use low_latency_prediction_m.Main.Market.{Market, ticks_taken, market_play}
use low_latency_prediction_m.Main.Refinement.{IsKeptBy, IsRun, IsRunWithin, play-IsRunWithin}

abbrev pub opening : Market
opening = record {
  feed = record { pending = some resolve; items = [] };
  book = Book.empty;
  network_running = true;
  strategy_running = true;
}

-- The logger's queue when the threads start.
abbrev log_started : {d : Arithmetic} → StrategySelection → Log.Queue d
log_started {d} selection =
    (Log.log_active_strategy d (strategy_name selection) (Spsc.empty Log.queue_size)).0

started-IsHolding :
    {d : Arithmetic} (selection : StrategySelection) → IsHolding {d = d} (log_started selection)
started-IsHolding selection =
    log_active_strategy-IsHolding (strategy_name selection) (Spsc.empty Log.queue_size)
      ([], empty-Holds queue-IsSize)

IsHolding-IsKeptBy :
    {d : Arithmetic} (format : Log.Format d) (opened : Bool)
    → IsKeptBy format opened (λ q w. IsHolding q)
IsHolding-IsKeptBy format opened = record {
  by_engine = λ w. IsHolding-IsKept;
  by_logger = λ now q w h. run_round-IsHolding format opened now q w h;
}

IsJournal-IsKeptBy :
    {d : Arithmetic} (format : Log.Format d) (now : ℕ) (name : Bytes)
    → IsKeptBy format true (IsJournal format now name)
IsJournal-IsKeptBy format now name = record {
  by_engine = IsJournal-IsKept format now name;
  by_logger = run_round-IsJournal format now name;
}

module _ (j : Simdjson) (d : Arithmetic) (format : Log.Format d) (clock : ℕ → ℕ) where
  -- `parser_.allocate` in the constructor.
  abbrev ready : Bool
  ready = (Messages.init j).initialized

  boot-IsRun :
      (e : Endpoint) (selection : StrategySelection) (now : ℕ)
      (IsJournal : Log.Queue d → Log.Writer d → Type 0)
      → IsJournal (log_started selection) (Log.start d format now)
      → IsRun j ready IsJournal (boot j d format clock e selection now) opening
  unfolding boot new_client new_engine Client.run
  boot-IsRun e selection now IsJournal logs =
      ((refl, refl, refl, empty-Holds tick_queue-IsSize), refl, refl, refl, logs)

  boot-size :
      (e : Endpoint) (selection : StrategySelection) (now : ℕ)
      → size_of d clock (boot j d format clock e selection now).engine ≡ 0
  unfolding boot new_engine Positions.init
  boot-size e selection now = refl

  -- `play-IsRun` from the start of the program.
  boot-play :
      (e : Endpoint) (selection : StrategySelection) (opened : Bool) (now : ℕ) (moves : List Move)
      (IsJournal : Log.Queue d → Log.Writer d → Type 0)
      → IsKeptBy format opened IsJournal
      → IsJournal (log_started selection) (Log.start d format now)
      → ReadsLength j
      → 10 * ticks_taken j ready moves opening < 2 ^ 31
      → Both
          (IsRunWithin j ready IsJournal (10 * ticks_taken j ready moves opening))
          (play j d format clock opened moves (boot j d format clock e selection now))
          (market_play j ready moves opening)
  boot-play e selection opened now moves IsJournal kept logs reads fits =
      rw (boot-size e selection now, zero-add) at
        (play-IsRunWithin j d format clock opened ready IsJournal kept moves
          (boot j d format clock e selection now) opening reads
          (boot-IsRun e selection now IsJournal logs)
          (rw (boot-size e selection now) (omega arith)))

  -- Whatever the network reports and however the threads' moves interleave, the program does from its
  -- start what the specification does: the client has the same operation under way, the queue holds the
  -- same ticks, the book is the same, and the process ends where the specification does. The logger's
  -- queue stays sound, and the position, long or short, is at most ten contracts for each tick taken.
  -- The conditions: simdjson reads a document from the given length alone, and ten contracts for each
  -- tick fit an `int`.
  pub play_refines :
      (e : Endpoint) (selection : StrategySelection) (opened : Bool) (now : ℕ) (moves : List Move)
      → ReadsLength j
      → 10 * ticks_taken j ready moves opening < 2 ^ 31
      → Both
          (IsRunWithin j ready (λ q w. IsHolding q) (10 * ticks_taken j ready moves opening))
          (play j d format clock opened moves (boot j d format clock e selection now))
          (market_play j ready moves opening)
  play_refines e selection opened now moves reads fits =
      boot-play e selection opened now moves (λ q w. IsHolding q) (IsHolding-IsKeptBy format opened)
        (started-IsHolding selection) reads fits

  main-failure :
      (args : List Bytes) (opened : Bool) (now : ℕ) (before between late : List Move) (fuel : ℕ)
      → (parse_strategy_selection args).0 ≡ false
      → main j d format clock args opened now before between late fuel ≡ some failure
  unfolding main
  main-failure args opened now before between late fuel e = rw e refl

  main-success :
      (args : List Bytes) (opened : Bool) (now : ℕ) (before between late : List Move) (fuel : ℕ)
      (s : Process d) (q : Log.Queue d) (w : Log.Writer d) (buffer : List (Option MarketTick))
      → (parse_strategy_selection args).0 ≡ true
      → play j d format clock opened
          (until_joined before between late)
          (boot j d format clock (endpoint args) (parse_strategy_selection args).1 now)
        ≡ some s
      → Log.finish d format opened fuel s.engine.log_queue s.writer ≡ some (q, w)
      → Spsc.destroy tick_queue_size fuel s.engine.queue ≡ some buffer
      → main j d format clock args opened now before between late fuel ≡ some (success s.engine w)
  unfolding main
  main-success args opened now before between late fuel s q w buffer valid played finished
        destroyed =
      rw (valid, played, finished, destroyed) refl

  module _ (args : List Bytes) (opened : Bool) (now : ℕ) (before between late : List Move)
      (m : Market) (fuel : ℕ) (reads : ReadsLength j)
      (fits : 10 * ticks_taken j ready (until_joined before between late) opening < 2 ^ 31)
      (played : market_play j ready (until_joined before between late) opening ≡ some m)
      (enough : tick_queue_size < fuel) where
    -- The return of `main`, with what the logger's destructor makes of the journal.
    main_ended :
        (IsJournal : Log.Queue d → Log.Writer d → Type 0) (IsEnd : Log.Writer d → Type 0)
        → IsKeptBy format opened IsJournal
        → IsJournal (log_started (parse_strategy_selection args).1) (Log.start d format now)
        → ((q : Log.Queue d) (w : Log.Writer d)
            → IsJournal q w
            → (q' : Log.Queue d) × (w' : Log.Writer d) × (Log.finish d format opened fuel q w
                ≡ some (q', w'))
              × IsEnd w')
        → (parse_strategy_selection args).0 ≡ true
        → (e : StrategyEngine d) × (w : Log.Writer d) × (main j d format clock args opened now
              before between late fuel
            ≡ some (success e w))
          × (e.book ≡ m.book)
          × (magnitude e.position_manager.position_size
              ≤ 10 * ticks_taken j ready (until_joined before between late) opening)
          × IsEnd w
    main_ended IsJournal IsEnd kept logs ending valid =
        let selection = (parse_strategy_selection args).1 in
        let (s, ran, (((at, clean, ini, holds), book, net, strat, logs'), moved)) =
          Both-some
            (IsRunWithin j ready IsJournal
              (10 * ticks_taken j ready (until_joined before between late) opening))
            _ m
            (rw played at (
              boot-play (endpoint args) selection opened now (until_joined before between late)
                IsJournal kept logs reads fits)) in
        let (q, w, finished, end) = ending s.engine.log_queue s.writer logs' in
        let (buffer, destroyed, raw) =
          destroy-IsRaw tick_queue-IsSize m.feed.items fuel holds (fuel_enough holds) in
        (
          s.engine,
          w,
          main-success args opened now before between late fuel s q w buffer valid ran finished
              destroyed,
          book,
          moved,
          end,
        )
      where
        fuel_enough :
            {q : Spsc.SpscQueue MarketTick}
            → Holds tick_queue_size q m.feed.items
            → length m.feed.items < fuel
        fuel_enough h = omega (arith, h.fits, enough)

  -- `main` returns: with `EXIT_FAILURE` if the strategy on the command line is unknown; else, once its
  -- threads have made their moves, the loops of the shutdown end within one round more than a queue
  -- has slots, and it returns `EXIT_SUCCESS` with the book of the specification and a position of at
  -- most ten contracts for each tick taken. A log file that could be opened then has the header line, the line that names the strategy, and lines of events of the
  -- engine, of type 'P' or 'T', and is flushed to its last line. The conditions: simdjson reads a document
  -- from the given length alone, no message makes the parser end the process, and ten contracts for
  -- each tick fit an `int`.
  pub main_returns :
      (args : List Bytes) (opened : Bool) (now : ℕ) (before between late : List Move) (m : Market)
      (fuel : ℕ)
      → ReadsLength j
      → 10 * ticks_taken j ready (until_joined before between late) opening < 2 ^ 31
      → market_play j ready (until_joined before between late) opening ≡ some m
      → tick_queue_size < fuel
      → let (valid, selection) = parse_strategy_selection args in
        let result = main j d format clock args opened now before between late fuel in
        (valid ≡ false → result ≡ some failure)
        × (valid ≡ true
            → (e : StrategyEngine d) × (w : Log.Writer d) × (result ≡ some (success e w))
              × (e.book ≡ m.book)
              × (magnitude e.position_manager.position_size
                  ≤ 10 * ticks_taken j ready (until_joined before between late) opening)
              × (opened ≡ true → IsFile format now (strategy_name selection) w))
  main_returns args true now before between late m fuel reads fits played enough = (
    main-failure args true now before between late fuel,
    let name = strategy_name (parse_strategy_selection args).1 in
        main_ended args true now before between late m fuel reads fits played enough
          (IsJournal format now name) (λ w. true ≡ true → IsFile format now name w)
          (IsJournal-IsKeptBy format now name) (begin-IsJournal format now name)
          (λ q w h.
            let (q', w', done, file) = finish-IsFile format now name fuel q w h (omega arith) in
            (q', w', done, λ e. file)),
  )
  main_returns args false now before between late m fuel reads fits played enough = (
    main-failure args false now before between late fuel,
    main_ended args false now before between late m fuel reads fits played enough
        (λ q w. IsHolding q) (λ w. false ≡ true → IsFile format now _ w)
        (IsHolding-IsKeptBy format false) (started-IsHolding (parse_strategy_selection args).1)
        (λ q w h.
          let (q', w', done, whole) = finish_lem format false fuel q w h (omega arith) in
          (q', w', done, λ e. absurd cc)),
  )
