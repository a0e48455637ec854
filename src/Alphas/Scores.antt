-- ===== src/Alphas/Scores.antt =====
-- The range of the scores.
use low_latency_prediction_m.Base.{
  ℕ, ◌+◌, ◌*◌, ◌^◌, ◌≤◌, ◌<◌, inl, inr, ◌==◌, if◌then◌else◌, Bool-cases, arith,
}
use low_latency_prediction_m.Base.Int.{pos, negsuc, ◌+ℤ◌, neg, magnitude}
use low_latency_prediction_m.Base.Double.{Arithmetic}
use low_latency_prediction_m.Base.Double.Bounds.{
  IsWithin, IsOneOrMore, IsBounded, if-IsWithin, of_int-IsWithin, IsWithin-le, of_nat-IsOneOrMore,
}
use low_latency_prediction_m.Book.{
  MarketTick, LimitOrderBook, get_best_bid, get_best_ask, get_bid_size, get_ask_size,
}
use low_latency_prediction_m.Book.Levels.{IsBook, All-get_or}
use low_latency_prediction_m.Book.Best.{get_best_bid-IsHighest, get_best_ask-IsLowest}
use low_latency_prediction_m.Alphas.{
  of_nat, max, clamp, microprice, sum_u32, MomentumAlpha, OfiAlpha, Signal, momentum, ofi,
  momentum_score, bid_contribution, ask_contribution, book_pressure, confidence, update_momentum,
  update_ofi, update,
}

get_bid_size-lt : (book : LimitOrderBook) (p : ℕ) → IsBook book → get_bid_size book p < 2 ^ 32
unfolding get_bid_size
get_bid_size-lt book p b =
    ground (arith, All-get_or (λ n. n < 2 ^ 32) book.bids p 0 b.bid_sizes (omega arith))

get_ask_size-lt : (book : LimitOrderBook) (p : ℕ) → IsBook book → get_ask_size book p < 2 ^ 32
unfolding get_ask_size
get_ask_size-lt book p b =
    ground (arith, All-get_or (λ n. n < 2 ^ 32) book.asks p 0 b.ask_sizes (omega arith))

get_best_bid-le : (book : LimitOrderBook) → get_best_bid book ≤ 255
get_best_bid-le book = elim (get_best_bid-IsHighest book) [
  | inl (e, _) ↦ omega arith
  | inr (le, _, _) ↦ omega arith
]

get_best_ask-le : (book : LimitOrderBook) → get_best_ask book ≤ 255
get_best_ask-le book = elim (get_best_ask-IsLowest book) [
  | inl (e, _) ↦ omega arith
  | inr (le, _, _) ↦ omega arith
]

minus-magnitude : (a b n : ℕ) → a ≤ n → b ≤ n → magnitude (pos a +ℤ neg (pos b)) ≤ n
unfolding ◌+ℤ◌ neg
minus-magnitude a b n ha hb = ground arith

-- The sizes of the top of the book that the alpha keeps fit `std::uint32_t`.
abbrev pub IsSized : (d : Arithmetic) → Signal d → Type 0
IsSized d (momentum a) = Unit {0}
IsSized d (ofi a) = (a.prev_best_bid_size < 2 ^ 32) × (a.prev_best_ask_size < 2 ^ 32)

module _ (d : Arithmetic) (laws : IsBounded d) where
  open d use {Double, of_int, decimal, add, sub, mul, div, lt}

  nat-IsWithin : (n a : ℕ) → n ≤ 2 ^ 53 → a ≤ n → IsWithin d n (of_nat d a)
  nat-IsWithin n a small le = of_int-IsWithin d laws n (pos a) small (omega arith)

  low-IsWithin : IsWithin d 1 (of_int (negsuc 0))
  low-IsWithin = of_int-IsWithin d laws 1 (negsuc 0) (omega arith) (omega arith)

  high-IsWithin : IsWithin d 1 (of_int (pos 1))
  high-IsWithin = nat-IsWithin 1 1 (omega arith) (omega arith)

  clamp-IsWithin :
      (n : ℕ) (v : Double)
      → IsWithin d n v
      → IsWithin d 1 (clamp d v (of_int (negsuc 0)) (of_nat d 1))
  unfolding clamp
  clamp-IsWithin n v h = ground (
    arith,
    low-IsWithin,
    high-IsWithin,
    laws.not_lt→le n 1 v (of_int (negsuc 0)) h low-IsWithin,
    laws.not_lt→le 1 n (of_nat d 1) v high-IsWithin h,
  )

  one-IsOneOrMore : IsOneOrMore d (of_nat d 1)
  one-IsOneOrMore = of_nat-IsOneOrMore d laws 1 (omega arith) (omega arith)

  max-IsOneOrMore : (x : Double) → IsOneOrMore d (max d (of_nat d 1) x)
  unfolding max
  max-IsOneOrMore x = elim (Bool-cases (lt (of_nat d 1) x)) [
    | inl e ↦ rw e (laws.lt→le _ x e)
    | inr e ↦ rw e one-IsOneOrMore
  ]

  -- The change of a size, on `std::int64_t`.
  between-IsWithin :
      (a b : ℕ) → a < 2 ^ 32 → b < 2 ^ 32 → IsWithin d (2 ^ 32) (of_int (pos a +ℤ neg (pos b)))
  between-IsWithin a b ha hb =
      of_int-IsWithin d laws _ _ (omega arith)
        (minus-magnitude a b (2 ^ 32) (omega arith) (omega arith))

  module _ (bid ask bid_size ask_size : ℕ) (bid_le : bid ≤ 255) (ask_le : ask ≤ 255)
      (bid_lt : bid_size < 2 ^ 32) (ask_lt : ask_size < 2 ^ 32) where
    bid_contribution-IsWithin :
        (a : OfiAlpha d) (v : Double)
        → a.prev_best_bid_size < 2 ^ 32
        → IsWithin d 0 v
        → IsWithin d (2 ^ 32) (bid_contribution d a bid bid_size v)
    unfolding bid_contribution
    bid_contribution-IsWithin a v prev h = ground (
      arith,
      laws.add-IsWithin 0 (2 ^ 32) v _ (omega arith) h
          (nat-IsWithin _ bid_size (omega arith) (omega arith)),
      laws.add-IsWithin 0 (2 ^ 32) v _ (omega arith) h
          (between-IsWithin bid_size a.prev_best_bid_size bid_lt prev),
      laws.sub-IsWithin 0 (2 ^ 32) v _ (omega arith) h
          (nat-IsWithin _ a.prev_best_bid_size (omega arith) (omega arith)),
    )

    ask_contribution-IsWithin :
        (a : OfiAlpha d) (v : Double)
        → a.prev_best_ask_size < 2 ^ 32
        → IsWithin d (2 ^ 32) v
        → IsWithin d (2 ^ 33) (ask_contribution d a ask ask_size v)
    unfolding ask_contribution
    ask_contribution-IsWithin a v prev h = ground (
      arith,
      laws.sub-IsWithin (2 ^ 32) (2 ^ 32) v _ (omega arith) h
          (nat-IsWithin _ ask_size (omega arith) (omega arith)),
      laws.sub-IsWithin (2 ^ 32) (2 ^ 32) v _ (omega arith) h
          (between-IsWithin ask_size a.prev_best_ask_size ask_lt prev),
      laws.add-IsWithin (2 ^ 32) (2 ^ 32) v _ (omega arith) h
          (nat-IsWithin _ a.prev_best_ask_size (omega arith) (omega arith)),
    )

    mid_cents-IsWithin :
        IsWithin d 510 (mul (add (of_nat d bid) (of_nat d ask)) (decimal (pos 1) 2))
    mid_cents-IsWithin =
        laws.mul-IsWithin 510 1 _ _ (omega arith)
          (laws.add-IsWithin 255 255 _ _ (omega arith) (nat-IsWithin 255 bid (omega arith) bid_le)
            (nat-IsWithin 255 ask (omega arith) ask_le))
          (laws.decimal-IsWithin 1 2 (omega arith) (omega arith))

    product-IsWithin :
        (price size : ℕ)
        → price ≤ 255
        → size < 2 ^ 32
        → IsWithin d (2 ^ 40) (mul (of_nat d price) (of_nat d size))
    product-IsWithin price size small fits =
        IsWithin-le d laws (255 * 2 ^ 32) (2 ^ 40) _ (omega arith) (omega arith) (
          laws.mul-IsWithin 255 (2 ^ 32) _ _ (omega arith)
            (nat-IsWithin 255 price (omega arith) small)
            (nat-IsWithin _ size (omega arith) (omega arith)))

    microprice-IsWithin :
        (denom : ℕ)
        → 1 ≤ denom
        → denom < 2 ^ 32
        → IsWithin d (2 ^ 41) (microprice d bid ask bid_size ask_size denom)
    unfolding microprice
    microprice-IsWithin denom positive fits =
        laws.div-IsWithin (2 ^ 41) _ _ (omega arith)
          (laws.add-IsWithin (2 ^ 40) (2 ^ 40) _ _ (omega arith)
            (product-IsWithin bid ask_size bid_le ask_lt)
            (product-IsWithin ask bid_size ask_le bid_lt))
          (of_nat-IsOneOrMore d laws denom positive (omega arith))

    -- The microprice, or the middle where no size is left of the sum.
    price_cents-IsWithin :
        let denom = sum_u32 bid_size ask_size in
        IsWithin d (2 ^ 41) (
          if denom == 0
          then mul (add (of_nat d bid) (of_nat d ask)) (decimal (pos 1) 2)
          else microprice d bid ask bid_size ask_size denom)
    price_cents-IsWithin =
        if-IsWithin d (2 ^ 41) (sum_u32 bid_size ask_size == 0)
          (mul (add (of_nat d bid) (of_nat d ask)) (decimal (pos 1) 2))
          (microprice d bid ask bid_size ask_size (sum_u32 bid_size ask_size))
          (λ none_left.
            IsWithin-le d laws 510 (2 ^ 41) _ (omega arith) (omega arith) mid_cents-IsWithin)
          (λ some_left.
            microprice-IsWithin (sum_u32 bid_size ask_size) (ground arith) (omega arith))

    book_pressure-IsWithin : IsWithin d 1 (book_pressure d bid ask bid_size ask_size)
    unfolding book_pressure
    book_pressure-IsWithin = clamp-IsWithin (2 ^ 41 + 510) _ (
        laws.div-IsWithin (2 ^ 41 + 510) _ _ (omega arith)
          (laws.sub-IsWithin (2 ^ 41) 510 _ _ (omega arith) price_cents-IsWithin mid_cents-IsWithin)
          (max-IsOneOrMore _))

    confidence-IsWithin :
        (a : OfiAlpha d)
        → IsSized d (ofi a)
        → IsWithin d 1 (confidence d a bid ask bid_size ask_size)
    unfolding confidence
    confidence-IsWithin a (prev_bid, prev_ask) = clamp-IsWithin 2 _ (
        laws.add-IsWithin 1 1 _ _ (omega arith)
          (laws.mul-IsWithin 1 1 _ _ (omega arith)
            (laws.decimal-IsWithin 65 100 (omega arith) (omega arith))
            (clamp-IsWithin (2 ^ 33) _ (
              laws.div-IsWithin (2 ^ 33) _ _ (omega arith)
                (ask_contribution-IsWithin a _ prev_ask (
                  bid_contribution-IsWithin a _ prev_bid
                    (nat-IsWithin 0 0 (omega arith) (omega arith))))
                (max-IsOneOrMore _))))
          (laws.mul-IsWithin 1 1 _ _ (omega arith)
            (laws.decimal-IsWithin 35 100 (omega arith) (omega arith)) book_pressure-IsWithin))

  zero-IsWithin : IsWithin d 1 (of_nat d 0)
  zero-IsWithin = nat-IsWithin 1 0 (omega arith) (omega arith)

  momentum_score-IsWithin : (delta : Double) → IsWithin d 1 (momentum_score d delta)
  unfolding momentum_score
  momentum_score-IsWithin delta = ground (arith, low-IsWithin, high-IsWithin, zero-IsWithin)

  update_momentum-IsWithin :
      (a : MomentumAlpha d) (book : LimitOrderBook) (tick : MarketTick)
      → IsWithin d 1 (update_momentum d a book tick).1
  unfolding update_momentum
  update_momentum-IsWithin a book tick =
      let bid = get_best_bid book in
      let ask = get_best_ask book in
      let bid_size = get_bid_size book bid in
      let ask_size = get_ask_size book ask in
      let micro = microprice d bid ask bid_size ask_size (sum_u32 bid_size ask_size) in
      ground (arith, zero-IsWithin, momentum_score-IsWithin (sub micro a.prev_microprice_cents))

  update_ofi-IsWithin :
      (a : OfiAlpha d) (book : LimitOrderBook) (tick : MarketTick)
      → IsSized d (ofi a)
      → IsBook book
      → IsWithin d 1 (update_ofi d a book tick).1
  unfolding update_ofi
  update_ofi-IsWithin a book tick sized b =
      let bid = get_best_bid book in
      let ask = get_best_ask book in
      ground (
        arith,
        zero-IsWithin,
        confidence-IsWithin bid ask (get_bid_size book bid) (get_ask_size book ask)
            (get_best_bid-le book) (get_best_ask-le book) (get_bid_size-lt book bid b)
            (get_ask_size-lt book ask b) a sized,
      )

  update_ofi-IsSized :
      (a : OfiAlpha d) (book : LimitOrderBook) (tick : MarketTick)
      → IsSized d (ofi a)
      → IsBook book
      → IsSized d (ofi (update_ofi d a book tick).0)
  unfolding update_ofi
  update_ofi-IsSized a book tick sized b =
      let bid = get_best_bid book in
      let ask = get_best_ask book in
      ground (arith, get_bid_size-lt book bid b, get_ask_size-lt book ask b)

  -- Every score of either alpha is a number from -1 to 1 and never a NaN, whether the book is locked,
  -- crossed or without sizes, and the sizes that the alpha keeps still fit 32 bits. The conditions: the
  -- sizes that it has kept fit 32 bits, the book is as its type says, 101 levels a side with sizes of 32
  -- bits, and the arithmetic keeps the bounds of `IsBounded`, as IEEE arithmetic does.
  pub update-IsWithin :
      (a : Signal d) (book : LimitOrderBook) (tick : MarketTick)
      → IsSized d a
      → IsBook book
      → IsWithin d 1 (update d a book tick).1 × IsSized d (update d a book tick).0
  unfolding update
  update-IsWithin (momentum a) book tick sized b = (update_momentum-IsWithin a book tick, tt)
  update-IsWithin (ofi a) book tick sized b =
      (update_ofi-IsWithin a book tick sized b, update_ofi-IsSized a book tick sized b)
