-- ===== src/Tests/Book.antt =====
-- `LimitOrderBookTest`, and the theorems on `LimitOrderBook` at concrete books.
use mathlib.Core.List.{Pairwise, Pairwise-pair}
use mathlib.Core.List.Perm
use low_latency_prediction_m.Base.{
  [], ◌∷◌, ℕ, ◌≡◌, refl, ◌≢◌, ◌⊎◌, true, false, if◌then◌else◌, arith, ◌==◌, ◌||◌, ltb, ◌<◌,
}
use low_latency_prediction_m.Book.{
  MarketTick, LimitOrderBook, no_bid, no_ask, scan_down, scan_up, empty, apply_tick, get_best_bid,
  get_best_ask, get_bid_size, get_ask_size,
}
use low_latency_prediction_m.Book.Levels.{IsBook, empty-IsBook, apply_tick-IsBook, sizes-apply_tick}
use low_latency_prediction_m.Book.Best.{
  IsHighest, IsLowest, get_best_bid-IsHighest, get_best_ask-IsLowest,
}
use low_latency_prediction_m.Book.Order.{IsApart, apply_all, apply_all-Perm}
use low_latency_prediction_m.Book.Update.{
  get_best_bid-apply_tick, get_best_ask-apply_tick, other_side-apply_tick,
}

abbrev bid : ℕ → ℕ → MarketTick
bid price size = record { price = price; size = size; is_bid = true }

abbrev ask : ℕ → ℕ → MarketTick
ask price size = record { price = price; size = size; is_bid = false }

-- The books of the test, one after the other.
abbrev two_bids : LimitOrderBook
two_bids = apply_tick (apply_tick empty (bid 57 100)) (bid 58 200)

abbrev one_bid : LimitOrderBook
one_bid = apply_tick two_bids (bid 58 0)

abbrev one_ask : LimitOrderBook
one_ask = apply_tick one_bid (ask 59 123)

best_bids :
    (get_best_bid empty ≡ no_bid) × (get_best_bid two_bids ≡ 58) × (get_best_bid one_bid ≡ 57)
unfolding empty apply_tick get_best_bid scan_down
best_bids = (refl, refl, refl)

best_asks :
    (get_best_ask empty ≡ no_ask)
    × (get_best_ask one_ask ≡ 59)
    × (get_best_ask (apply_tick one_ask (ask 59 0)) ≡ no_ask)
unfolding empty apply_tick get_best_ask scan_up
best_asks = (refl, refl, refl)

-- A price off the grid changes nothing.
off_grid : apply_tick two_bids (bid 101 5) ≡ two_bids
unfolding apply_tick
off_grid = refl

two_bids-IsBook : IsBook two_bids
two_bids-IsBook =
    apply_tick-IsBook (bid 58 200) (apply_tick-IsBook (bid 57 100) empty-IsBook (omega arith))
      (omega arith)

sizes-apply_tick_example :
    (get_bid_size one_bid 58 ≡ 0) × (get_ask_size one_bid 58 ≡ get_ask_size two_bids 58)
sizes-apply_tick_example = sizes-apply_tick (bid 58 0) 58 two_bids-IsBook

get_best_bid-IsHighest_example : IsHighest (get_bid_size two_bids) (get_best_bid two_bids)
get_best_bid-IsHighest_example = get_best_bid-IsHighest two_bids

get_best_ask-IsLowest_example : IsLowest (get_ask_size one_ask) (get_best_ask one_ask)
get_best_ask-IsLowest_example = get_best_ask-IsLowest one_ask

-- The two sides of the price 58.
sides-IsApart : Pairwise IsApart (bid 58 0 ∷ ask 58 7 ∷ [])
sides-IsApart = (Pairwise-pair {R = IsApart} (λ t u. hlevel)).1 (λ same. cc)

apply_all-Perm_example :
    apply_all two_bids (bid 58 0 ∷ ask 58 7 ∷ []) ≡ apply_all two_bids (ask 58 7 ∷ bid 58 0 ∷ [])
apply_all-Perm_example =
    apply_all-Perm two_bids (bid 58 0 ∷ ask 58 7 ∷ []) (ask 58 7 ∷ bid 58 0 ∷ [])
      (Perm.swap (ask 58 7) (bid 58 0) []) sides-IsApart

get_best_bid-apply_tick_example :
    let size : ℕ = 0 in
    let price : ℕ = 58 in
    let best = get_best_bid two_bids in
    let next = get_best_bid one_bid in
    (size ≢ 0 → next ≡ (if best == no_bid || ltb best 58 then 58 else best))
    × (size ≡ 0 → price ≢ best → next ≡ best)
    × (size ≡ 0 → price ≡ best → (next ≡ no_bid) ⊎ (next < best))
get_best_bid-apply_tick_example =
    get_best_bid-apply_tick (bid 58 0) two_bids-IsBook (omega arith) refl

get_best_ask-apply_tick_example :
    let size : ℕ = 123 in
    let price : ℕ = 59 in
    let best = get_best_ask two_bids in
    let next = get_best_ask (apply_tick two_bids (ask 59 123)) in
    (size ≢ 0 → next ≡ (if best == no_ask || ltb 59 best then 59 else best))
    × (size ≡ 0 → price ≢ best → next ≡ best)
    × (size ≡ 0 → price ≡ best → (next ≡ no_ask) ⊎ (best < next))
get_best_ask-apply_tick_example =
    get_best_ask-apply_tick (ask 59 123) two_bids-IsBook (omega arith) refl

other_side-apply_tick_example :
    (true ≡ true → get_best_ask one_bid ≡ get_best_ask two_bids)
    × (true ≡ false → get_best_bid one_bid ≡ get_best_bid two_bids)
other_side-apply_tick_example = other_side-apply_tick two_bids (bid 58 0)
