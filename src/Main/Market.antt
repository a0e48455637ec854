-- ===== src/Main/Market.antt =====
-- The specification of the program's data path: a bounded list of ticks between what the client is
-- told and the book.
use low_latency_prediction_m.Base.{
  ℕ, refl, length, arith, ◌+◌, ◌≤◌, ◌≡◌, Bool, Option, none, some, List, [], ◌∷◌, ◌>>=◌, take, drop,
  if◌then◌else◌, false,
}
use low_latency_prediction_m.Book.{LimitOrderBook}
use low_latency_prediction_m.Book.Order.{apply_all}
use low_latency_prediction_m.Parser.Json.{Simdjson}
use low_latency_prediction_m.Client.Feed.{Feed, feed_event}
use low_latency_prediction_m.Main.{Move, network, strategy, logging, stop_strategy, stop_network}

pub record Market : Type 0 where
  pub feed : Feed
  pub book : LimitOrderBook
  pub network_running : Bool
  pub strategy_running : Bool

-- A round of the strategy takes the first tick, if there is one, into the book.
abbrev pub trade_first : Market → Market
trade_first m = record m {
  feed = record (m.feed) { items = drop 1 m.feed.items };
  book = apply_all m.book (take 1 m.feed.items);
}

-- The ticks that a move takes out of the queue.
abbrev pub taken : Move → Market → ℕ
taken strategy m = if m.strategy_running then length (take 1 m.feed.items) else 0
taken _ m = 0

module _ (j : Simdjson) (ready : Bool) where
  abbrev pub market_step : Move → Market → Option Market
  market_step (network e) m =
      let fed = (do f ← feed_event j ready e m.feed; some (record m { feed = f })) in
      if m.network_running then fed else some m
  market_step strategy m = if m.strategy_running then some (trade_first m) else some m
  market_step (logging now) m = some m
  market_step stop_strategy m = some (record m { strategy_running = false })
  market_step stop_network m = some (record m { network_running = false })

  unfoldable pub market_play : List Move → Market → Option Market
  market_play [] m = some m
  market_play (move ∷ moves) m = do m' ← market_step move m; market_play moves m'

  -- The ticks that the strategy takes in the course of the moves.
  unfoldable pub ticks_taken : List Move → Market → ℕ
  ticks_taken [] m = 0
  ticks_taken (move ∷ moves) m =
      taken move m + elim (market_step move m) [ none ↦ 0 | some m' ↦ ticks_taken moves m' ]

  pub ticks_taken-cons :
      (move : Move) (moves : List Move) (m m' : Market)
      → market_step move m ≡ some m'
      → ticks_taken (move ∷ moves) m ≡ taken move m + ticks_taken moves m'
  unfolding ticks_taken
  ticks_taken-cons move moves m m' e = rw e refl

  pub taken_le :
      (move : Move) (moves : List Move) (m : Market) → taken move m ≤ ticks_taken (move ∷ moves) m
  unfolding ticks_taken
  taken_le move moves m = omega arith
