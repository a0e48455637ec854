-- ===== src/Book.antt =====
-- `MarketTick` and `LimitOrderBook` of include/order_book.hpp.
pub mod Levels
pub mod Best
pub mod Order
pub mod Update
use low_latency_prediction_m.Base.{
  ℕ, zero, suc, ◌+◌, Bool, true, false, List, [], ◌∷◌, ◌||◌, ltb, ◌==◌, not, if◌then◌else◌, get_or,
  set, replicate,
}

-- `price` is a `std::uint8_t`, `size` a `std::uint32_t`.
pub record MarketTick : Type 0 where
  pub price : ℕ
  pub size : ℕ
  pub is_bid : Bool

abbrev pub min_price : ℕ
min_price = 0

abbrev pub max_price : ℕ
max_price = 100

abbrev pub level_count : ℕ
level_count = 101

abbrev pub no_bid : ℕ
no_bid = 255

abbrev pub no_ask : ℕ
no_ask = 255

-- One size for each price in cents.
pub record LimitOrderBook : Type 0 where
  pub bids : List ℕ
  pub asks : List ℕ

unfoldable pub empty : LimitOrderBook
empty = record { bids = replicate level_count 0; asks = replicate level_count 0 }

unfoldable pub apply_tick : LimitOrderBook → MarketTick → LimitOrderBook
apply_tick book tick =
    if ltb tick.price min_price || ltb max_price tick.price
    then book
    else if tick.is_bid
    then record book { bids = set book.bids tick.price tick.size }
    else record book { asks = set book.asks tick.price tick.size }

-- `for (p = kMaxPrice; p >= kMinPrice; --p)`, entered with the rounds left: the price that is tried
-- is one below them.
unfoldable pub scan_down : List ℕ → ℕ → ℕ
scan_down sizes zero = no_bid
scan_down sizes (suc p) =
    let rest = scan_down sizes p in if not (get_or sizes p 0 == 0) then p else rest

-- `for (p = kMinPrice; p <= kMaxPrice; ++p)`, at `p` with the rounds left.
unfoldable pub scan_up : List ℕ → ℕ → ℕ → ℕ
scan_up sizes zero p = no_ask
scan_up sizes (suc left) p =
    let rest = scan_up sizes left (p + 1) in if not (get_or sizes p 0 == 0) then p else rest

unfoldable pub get_best_bid : LimitOrderBook → ℕ
get_best_bid book = scan_down book.bids (max_price + 1)

unfoldable pub get_best_ask : LimitOrderBook → ℕ
get_best_ask book = scan_up book.asks (max_price + 1) min_price

unfoldable pub get_bid_size : LimitOrderBook → ℕ → ℕ
get_bid_size book price =
    if ltb price min_price || ltb max_price price then 0 else get_or book.bids price 0

unfoldable pub get_ask_size : LimitOrderBook → ℕ → ℕ
get_ask_size book price =
    if ltb price min_price || ltb max_price price then 0 else get_or book.asks price 0
