-- ===== src/Book/Levels.antt =====
-- What `apply_tick` does to the sizes that `get_bid_size` and `get_ask_size` read.
use low_latency_prediction_m.Base.{
  ℕ, zero, suc, ◌^◌, ◌≤◌, ◌<◌, ◌≡◌, refl, ◌&&◌, not, List, [], ◌∷◌, arith, ltb, ◌==◌, if◌then◌else◌,
  length, get_or, set, length-set, length-replicate, All, replicate,
}
use low_latency_prediction_m.Book.{
  MarketTick, LimitOrderBook, level_count, max_price, empty, apply_tick, get_bid_size, get_ask_size,
}

-- What the parser sends: a price of the grid, and a size that fits `std::uint32_t`.
pub record IsTick (t : MarketTick) : Type 0 where
  pub price_le : t.price ≤ max_price
  pub size_lt : t.size < 2 ^ 32

-- Both arrays keep their length, and every size fits its type.
pub record IsBook (book : LimitOrderBook) : Type 0 where
  pub bid_levels : length book.bids ≡ level_count
  pub ask_levels : length book.asks ≡ level_count
  pub bid_sizes : All (λ n. n < 2 ^ 32) book.bids
  pub ask_sizes : All (λ n. n < 2 ^ 32) book.asks

All-set : (P : ℕ → Type 0) (xs : List ℕ) (i v : ℕ) → All P xs → P v → All P (set xs i v)
All-set P [] i v h p = tt
All-set P (x ∷ xs) zero v h p = (p, h.1)
All-set P (x ∷ xs) (suc i) v h p = (h.0, All-set P xs i v h.1 p)

All-replicate : (P : ℕ → Type 0) (n v : ℕ) → P v → All P (replicate n v)
All-replicate P zero v p = tt
All-replicate P (suc n) v p = (p, All-replicate P n v p)

pub All-get_or : (P : ℕ → Type 0) (xs : List ℕ) (i d : ℕ) → All P xs → P d → P (get_or xs i d)
All-get_or P [] i d h p = p
All-get_or P (x ∷ xs) zero d h p = h.0
All-get_or P (x ∷ xs) (suc i) d h p = All-get_or P xs i d h.1 p

get_or-set :
    (xs : List ℕ) (i j v d : ℕ)
    → i < length xs
    → get_or (set xs i v) j d ≡ (if i == j then v else get_or xs j d)
get_or-set [] i j v d h = elim h [ ]
get_or-set (x ∷ xs) zero zero v d h = refl
get_or-set (x ∷ xs) zero (suc j) v d h = ground arith
get_or-set (x ∷ xs) (suc i) zero v d h = ground arith
get_or-set (x ∷ xs) (suc i) (suc j) v d h = ground (arith, get_or-set xs i j v d)

pub empty-IsBook : IsBook empty
unfolding empty
empty-IsBook = record {
  bid_levels = length-replicate {A = ℕ} level_count 0;
  ask_levels = length-replicate {A = ℕ} level_count 0;
  bid_sizes = All-replicate (λ n. n < 2 ^ 32) level_count 0 (omega arith);
  ask_sizes = All-replicate (λ n. n < 2 ^ 32) level_count 0 (omega arith);
}

-- `apply_tick` keeps the arrays' length and range, whatever the price of the tick.
pub apply_tick-IsBook :
    {book : LimitOrderBook} (t : MarketTick)
    → IsBook book
    → t.size < 2 ^ 32
    → IsBook (apply_tick book t)
unfolding apply_tick
apply_tick-IsBook {book} t b small = ground (
  arith,
  length-set book.bids t.price t.size,
  length-set book.asks t.price t.size,
  All-set (λ n. n < 2 ^ 32) book.bids t.price t.size b.bid_sizes small,
  All-set (λ n. n < 2 ^ 32) book.asks t.price t.size b.ask_sizes small,
)

-- The book is as its type says, 101 levels a side with sizes of 32 bits. After a tick with a price of
-- the grid, the level of that price on the tick's side has the tick's size, and every other level of
-- either side is as before. A tick off the grid changes nothing.
pub sizes-apply_tick :
    {book : LimitOrderBook} (t : MarketTick) (p : ℕ)
    → IsBook book
    → (get_bid_size (apply_tick book t) p ≡ (
        if t.is_bid && t.price == p && not (ltb max_price p) then t.size else get_bid_size book p))
      × (get_ask_size (apply_tick book t) p ≡ (
          if not t.is_bid && t.price == p && not (ltb max_price p)
          then t.size
          else get_ask_size book p))
unfolding apply_tick get_bid_size get_ask_size
sizes-apply_tick {book} t p b =
    ground (arith, get_or-set book.bids t.price p t.size 0, get_or-set book.asks t.price p t.size 0)
