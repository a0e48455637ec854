-- ===== src/Alphas.antt =====
-- `IAlphaSignal` of include/alpha_base.hpp with its two implementations, `MomentumAlpha` of
-- include/momentum_alpha.hpp and `OFIAlpha` of include/ofi_alpha.hpp. `update` returns the state and
-- the score.
pub mod Scores
pub mod Top
use low_latency_prediction_m.Base.{
  ℕ, ◌+◌, ◌%◌, Bool, true, false, ◌||◌, not, ltb, ◌==◌, if◌then◌else◌,
}
use low_latency_prediction_m.Base.Words.{u32_size}
use low_latency_prediction_m.Base.Int.{ℤ, pos, negsuc, ◌+ℤ◌, neg}
use low_latency_prediction_m.Base.Double.{Arithmetic}
use low_latency_prediction_m.Book.{
  MarketTick, LimitOrderBook, no_bid, no_ask, get_best_bid, get_best_ask, get_bid_size,
  get_ask_size,
}

-- `best_bid_size + best_ask_size` in `std::uint32_t`.
abbrev pub sum_u32 : ℕ → ℕ → ℕ
sum_u32 a b = (a + b) % u32_size

module _ (d : Arithmetic) where
  open d use {Double, of_int, decimal, add, sub, mul, div, lt}

  -- `static_cast<double>` of an unsigned number.
  abbrev pub of_nat : ℕ → Double
  of_nat n = of_int (pos n)

  -- `std::max`
  pub max : Double → Double → Double
  max a b = if lt a b then b else a

  -- `std::clamp`
  pub clamp : Double → Double → Double → Double
  clamp v lo hi = if lt v lo then lo else if lt hi v then hi else v

  pub microprice : ℕ → ℕ → ℕ → ℕ → ℕ → Double
  microprice bid ask bid_size ask_size denom =
      div (add (mul (of_nat bid) (of_nat ask_size)) (mul (of_nat ask) (of_nat bid_size)))
        (of_nat denom)

  pub record MomentumAlpha : Type 0 where
    pub has_prev : Bool
    pub prev_microprice_cents : Double

  pub init_momentum : MomentumAlpha
  init_momentum = record { has_prev = false; prev_microprice_cents = of_nat 0 }

  -- The score of a move of the microprice.
  pub momentum_score : Double → Double
  momentum_score delta =
      if lt (of_nat 1) delta
      then of_nat 1
      else if lt delta (of_int (negsuc 0))
      then of_int (negsuc 0)
      else of_nat 0

  pub update_momentum : MomentumAlpha → LimitOrderBook → MarketTick → MomentumAlpha × Double
  unfolding momentum_score
  update_momentum a book tick =
      let bid = get_best_bid book in
      let ask = get_best_ask book in
      let denom = sum_u32 (get_bid_size book bid) (get_ask_size book ask) in
      let micro = microprice bid ask (get_bid_size book bid) (get_ask_size book ask) denom in
      let next = record a { has_prev = true; prev_microprice_cents = micro } in
      if bid == no_bid || ask == no_ask
      then (a, of_nat 0)
      else if denom == 0
      then (a, of_nat 0)
      else if not a.has_prev
      then (next, of_nat 0)
      else (next, momentum_score (sub micro a.prev_microprice_cents))

  pub record OfiAlpha : Type 0 where
    pub initialized : Bool
    pub prev_best_bid : ℕ
    pub prev_best_ask : ℕ
    pub prev_best_bid_size : ℕ
    pub prev_best_ask_size : ℕ

  pub init_ofi : OfiAlpha
  init_ofi = record {
    initialized = false;
    prev_best_bid = no_bid;
    prev_best_ask = no_ask;
    prev_best_bid_size = 0;
    prev_best_ask_size = 0;
  }

  -- The contribution of the bid, added to `ofi`.
  pub bid_contribution : OfiAlpha → ℕ → ℕ → Double → Double
  bid_contribution a bid bid_size ofi =
      if ltb a.prev_best_bid bid
      then add ofi (of_nat bid_size)
      else if bid == a.prev_best_bid
      then add ofi (of_int (pos bid_size +ℤ neg (pos a.prev_best_bid_size)))
      else sub ofi (of_nat a.prev_best_bid_size)

  pub ask_contribution : OfiAlpha → ℕ → ℕ → Double → Double
  ask_contribution a ask ask_size ofi =
      if ltb ask a.prev_best_ask
      then sub ofi (of_nat ask_size)
      else if ask == a.prev_best_ask
      then sub ofi (of_int (pos ask_size +ℤ neg (pos a.prev_best_ask_size)))
      else add ofi (of_nat a.prev_best_ask_size)

  pub book_pressure : ℕ → ℕ → ℕ → ℕ → Double
  unfolding max clamp microprice
  book_pressure bid ask bid_size ask_size =
      let denom_sizes = sum_u32 bid_size ask_size in
      let mid_cents = mul (add (of_nat bid) (of_nat ask)) (decimal (pos 1) 2) in
      let microprice_cents =
        if denom_sizes == 0 then mid_cents else microprice bid ask bid_size ask_size denom_sizes in
      let spread_cents = max (of_nat 1) (of_int (pos ask +ℤ neg (pos bid))) in
      clamp (div (sub microprice_cents mid_cents) spread_cents) (of_int (negsuc 0)) (of_nat 1)

  pub confidence : OfiAlpha → ℕ → ℕ → ℕ → ℕ → Double
  unfolding max clamp bid_contribution ask_contribution book_pressure
  confidence a bid ask bid_size ask_size =
      let ofi = ask_contribution a ask ask_size (bid_contribution a bid bid_size (of_nat 0)) in
      let norm_denom = max (of_nat 1) (of_nat (sum_u32 bid_size ask_size)) in
      let ofi_norm = clamp (div ofi norm_denom) (of_int (negsuc 0)) (of_nat 1) in
      let blend =
        add (mul (decimal (pos 65) 100) ofi_norm)
          (mul (decimal (pos 35) 100) (book_pressure bid ask bid_size ask_size)) in
      clamp blend (of_int (negsuc 0)) (of_nat 1)

  pub update_ofi : OfiAlpha → LimitOrderBook → MarketTick → OfiAlpha × Double
  unfolding confidence
  update_ofi a book tick =
      let bid = get_best_bid book in
      let ask = get_best_ask book in
      let next : OfiAlpha = record {
        initialized = true;
        prev_best_bid = bid;
        prev_best_ask = ask;
        prev_best_bid_size = get_bid_size book bid;
        prev_best_ask_size = get_ask_size book ask;
      } in
      let forgotten : OfiAlpha = record a { initialized = false } in
      if bid == no_bid || ask == no_ask
      then (forgotten, of_nat 0)
      else if not a.initialized
      then (next, of_nat 0)
      else (next, confidence a bid ask (get_bid_size book bid) (get_ask_size book ask))

  -- The objects behind `IAlphaSignal`.
  pub data Signal : Type 0 where
    momentum : MomentumAlpha → Signal
    ofi : OfiAlpha → Signal

  pub update : Signal → LimitOrderBook → MarketTick → Signal × Double
  unfolding update_momentum update_ofi
  update (momentum a) book tick =
      let (next, score) = update_momentum a book tick in (momentum next, score)
  update (ofi a) book tick = let (next, score) = update_ofi a book tick in (ofi next, score)
