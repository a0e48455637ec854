-- ===== src/Tests/Alphas.antt =====
-- The alphas at concrete books.
use low_latency_prediction_m.Base.{ℕ, ◌≡◌, refl, inl, true, false, arith, inr, [], ◌∷◌, ◌⊎◌}
use low_latency_prediction_m.Base.Int.{pos, ◌+ℤ◌, neg}
use low_latency_prediction_m.Book.{
  MarketTick, LimitOrderBook, empty, apply_tick, scan_down, scan_up, get_best_bid, get_best_ask,
  get_bid_size, get_ask_size,
}
use low_latency_prediction_m.Book.Levels.{IsBook, empty-IsBook, apply_tick-IsBook}
use low_latency_prediction_m.Base.Double.Bounds.{IsWithin}
use low_latency_prediction_m.Alphas.{
  init_momentum, update_momentum, momentum_score, OfiAlpha, ofi, init_ofi, update_ofi, update,
}
use low_latency_prediction_m.Alphas.Scores.{IsSized, update-IsWithin}
use low_latency_prediction_m.Tests.CentsBounds.{cents-IsBounded}
use low_latency_prediction_m.Alphas.Top.{
  IsOneSided, IsTwoSided, IsScored, IsSkipped, microprice_of, momentum_after, top_of, change_of,
  update_ofi-last, update_momentum-last,
}
use low_latency_prediction_m.Tests.Cents.{cents}

abbrev tick : MarketTick
tick = record { price = 40; size = 7; is_bid = true }

-- A book with a bid and an ask of a given size.
abbrev quotes : ℕ → ℕ → LimitOrderBook
quotes bid_size ask_size =
    apply_tick (apply_tick empty (record { price = 40; size = bid_size; is_bid = true }))
      (record { price = 60; size = ask_size; is_bid = false })

quotes-IsBook : IsBook (quotes 20 10)
quotes-IsBook =
    apply_tick-IsBook (record { price = 60; size = 10; is_bid = false })
      (apply_tick-IsBook (record { price = 40; size = 20; is_bid = true }) empty-IsBook
        (omega arith))
      (omega arith)

-- Ten contracts more are bid at the same price.
abbrev seen : OfiAlpha cents
seen = record {
  initialized = true;
  prev_best_bid = 40;
  prev_best_ask = 60;
  prev_best_bid_size = 10;
  prev_best_ask_size = 10;
}

update-IsWithin_example :
    IsWithin cents 1 (update cents (ofi seen) (quotes 20 10) tick).1
    × IsSized cents (update cents (ofi seen) (quotes 20 10) tick).0
update-IsWithin_example =
    update-IsWithin cents cents-IsBounded (ofi seen) (quotes 20 10) tick (omega arith, omega arith)
      quotes-IsBook

empty-IsOneSided : IsOneSided empty
unfolding empty get_best_bid scan_down
empty-IsOneSided = inl refl

quotes-IsTwoSided : IsTwoSided (quotes 10 10)
unfolding empty apply_tick get_best_bid get_best_ask scan_down scan_up
quotes-IsTwoSided = (λ e. ground arith, λ e. ground arith)

update_ofi-last_example :
    let o = init_ofi cents in
    let last = quotes 10 10 in
    let book = quotes 20 10 in
    (IsTwoSided last → (update_ofi cents o last tick).0 ≡ top_of cents last)
    × (IsTwoSided last
        → IsTwoSided book
        → (update_ofi cents (update_ofi cents o last tick).0 book tick).1
          ≡ change_of cents last book)
    × ((IsOneSided last ⊎ IsOneSided book)
        → (update_ofi cents (update_ofi cents o last tick).0 book tick).1 ≡ pos 0)
update_ofi-last_example =
    update_ofi-last cents (init_ofi cents) (quotes 10 10) (quotes 20 10) tick tick

-- Two sizes of 2 ^ 31 add up to 0.
abbrev huge : LimitOrderBook
huge = quotes 2147483648 2147483648

huge-IsSkipped : IsSkipped huge
unfolding empty apply_tick get_best_bid get_best_ask scan_down scan_up get_bid_size get_ask_size
huge-IsSkipped = inr refl

even-IsScored : IsScored (quotes 10 10)
unfolding empty apply_tick get_best_bid get_best_ask scan_down scan_up get_bid_size get_ask_size
even-IsScored = (quotes-IsTwoSided, λ e. ground arith)

more_bid-IsTwoSided : IsTwoSided (quotes 20 10)
unfolding empty apply_tick get_best_bid get_best_ask scan_down scan_up
more_bid-IsTwoSided = (λ e. ground arith, λ e. ground arith)

more_bid-IsScored : IsScored (quotes 20 10)
unfolding empty apply_tick get_best_bid get_best_ask scan_down scan_up get_bid_size get_ask_size
more_bid-IsScored = (more_bid-IsTwoSided, λ e. ground arith)

update_momentum-last_example :
    let first = (update_momentum cents (init_momentum cents) (quotes 10 10) tick).0 in
    let reached = momentum_after cents tick first (huge ∷ []) in
    ((update_momentum cents reached empty tick).1 ≡ pos 0)
    × ((update_momentum cents reached (quotes 20 10) tick).1
        ≡ momentum_score cents
            (microprice_of cents (quotes 20 10) +ℤ neg (microprice_of cents (quotes 10 10))))
update_momentum-last_example =
    update_momentum-last cents (init_momentum cents) (quotes 10 10) (huge ∷ []) empty (quotes 20 10)
      tick even-IsScored (huge-IsSkipped, tt) (inl empty-IsOneSided) more_bid-IsScored
