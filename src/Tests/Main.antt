-- ===== src/Tests/Main.antt =====
-- A run of the program: a session opens, a book message arrives, and the strategy makes a round.
use low_latency_prediction_m.Base.{
  ℕ, ◌≤◌, ◌*◌, ◌≡◌, refl, true, false, some, List, [], ◌∷◌, codes, arith,
}
use low_latency_prediction_m.Base.Both.{Both}
use low_latency_prediction_m.Base.Int.{magnitude}
use low_latency_prediction_m.Book.{MarketTick, apply_tick}
use low_latency_prediction_m.Book as Book
use low_latency_prediction_m.Parser.Json.{Simdjson}
use low_latency_prediction_m.Parser.Sample.{sample_json, sample_json-ReadsLength}
use low_latency_prediction_m.Parser.Messages as Messages
use low_latency_prediction_m.Parser.Messages.{fill}
use low_latency_prediction_m.Parser.Messages.Emitted.{
  document_emission, message_emission, typed_emission, sides_emission, field_emission,
  levels_emission,
}
use low_latency_prediction_m.Parser.Levels.{read_pair, level_of_texts, element_string, make_tick}
use low_latency_prediction_m.Parser.Numbers.{
  parse_price_cents, split_dot, price_of_parts, parse_whole, parse_u32, in_price_range,
  parse_size_u32,
}
use low_latency_prediction_m.Logger as Log
use low_latency_prediction_m.Logger.Calls.{IsHolding}
use low_latency_prediction_m.Logger.Worker.Journal.{IsFile}
use low_latency_prediction_m.Engine.{StrategyEngine}
use low_latency_prediction_m.Client.{completed, closing_posted, read}
use low_latency_prediction_m.Client.Session.{success, message}
use low_latency_prediction_m.Client.Feed.{ticks_of, feed_complete, feed_event}
use low_latency_prediction_m.Cli.{
  StrategySelection, Endpoint, parse_strategy_selection, strategy_name,
}
use low_latency_prediction_m.Main.{
  Move, network, strategy, logging, Exit, failure, boot, play, until_joined, main,
}
use low_latency_prediction_m.Main as Main
use low_latency_prediction_m.Main.Market.{Market, market_play, ticks_taken}
use low_latency_prediction_m.Main.Refinement.{IsRunWithin}
use low_latency_prediction_m.Main.Shutdown.{opening, play_refines, main_returns}
use low_latency_prediction_m.Tests.Cents.{cents}
use low_latency_prediction_m.Tests.Logger.{digits}
use low_latency_prediction_m.Tests.Parser.Messages.{mock, payload, tick}

abbrev json : Simdjson
json = sample_json payload mock

abbrev clock : ℕ → ℕ
clock n = n

abbrev opens : Move
opens = network (completed success)

-- The first tick of the message reaches the book.
abbrev before : List Move
before =
    opens
    ∷ opens
    ∷ opens
    ∷ opens
    ∷ opens
    ∷ logging 1
    ∷ network (completed (message payload))
    ∷ strategy
    ∷ []

-- The socket is asked to close between the stops, and the strategy's thread finds itself stopped.
abbrev between : List Move
between = network closing_posted ∷ strategy ∷ []

abbrev moves : List Move
moves = until_joined before between (logging 2 ∷ [])

abbrev closing_market : Market
closing_market = record {
  feed = record { pending = some read; items = tick true 56 300 ∷ tick false 59 500 ∷ [] };
  book = apply_tick Book.empty (tick true 57 1200);
  network_running = false;
  strategy_running = false;
}

ticks_of-payload :
    ticks_of json true payload
    ≡ some (tick true 57 1200 ∷ tick true 56 300 ∷ tick false 59 500 ∷ [])
unfolding ticks_of fill document_emission message_emission typed_emission sides_emission
    field_emission levels_emission read_pair element_string level_of_texts parse_price_cents
    split_dot price_of_parts parse_whole parse_u32 in_price_range parse_size_u32 make_tick
ticks_of-payload = refl

init-initialized : (Messages.init json).initialized ≡ true
unfolding Messages.init
init-initialized = refl

market_play-moves :
    market_play json (Messages.init json).initialized moves opening ≡ some closing_market
unfolding market_play feed_event feed_complete
market_play-moves = rw (init-initialized, ticks_of-payload) refl

ticks_taken-moves : ticks_taken json (Messages.init json).initialized moves opening ≡ 1
unfolding ticks_taken feed_event feed_complete
ticks_taken-moves = rw (init-initialized, ticks_of-payload) refl

abbrev endpoint : Endpoint
endpoint = record { host = codes "example.com"; port = codes "443"; target = codes "/" }

play_refines_example :
    Both
      (IsRunWithin json
        (Messages.init json).initialized
        (λ q w. IsHolding q)
        (10 * ticks_taken json (Messages.init json).initialized moves opening))
      (play json cents digits clock true moves
        (boot json cents digits clock endpoint StrategySelection.ofi 0))
      (market_play json (Messages.init json).initialized moves opening)
play_refines_example =
    play_refines json cents digits clock endpoint StrategySelection.ofi true 0 moves
      (sample_json-ReadsLength payload mock) (omega (arith, ticks_taken-moves))

main_returns_example :
    let (valid, selection) = parse_strategy_selection [] in
    let result = main json cents digits clock [] true 0 before between (logging 2 ∷ []) 65537 in
    (valid ≡ false → result ≡ some failure)
    × (valid ≡ true
        → (e : StrategyEngine cents) × (w : Log.Writer cents) × (result ≡ some (Main.success e w))
          × (e.book ≡ apply_tick Book.empty (tick true 57 1200))
          × (magnitude e.position_manager.position_size
              ≤ 10 * ticks_taken json (Messages.init json).initialized moves opening)
          × (true ≡ true → IsFile digits 0 (strategy_name selection) w))
main_returns_example =
    main_returns json cents digits clock [] true 0 before between (logging 2 ∷ []) closing_market
      65537 (sample_json-ReadsLength payload mock) (omega (arith, ticks_taken-moves))
      market_play-moves (omega arith)
