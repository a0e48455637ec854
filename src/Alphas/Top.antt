-- ===== src/Alphas/Top.antt =====
-- What the alphas keep of the top of the book from one update to the next.
use low_latency_prediction_m.Base.{
  ℕ, ◌≡◌, ◌≢◌, refl, ap, ◌⊎◌, true, false, arith, inl, inr, List, [], ◌∷◌, All,
}
use low_latency_prediction_m.Base.Double.{Arithmetic}
use low_latency_prediction_m.Book.{
  MarketTick, LimitOrderBook, no_bid, no_ask, get_best_bid, get_best_ask, get_bid_size,
  get_ask_size,
}
use low_latency_prediction_m.Alphas.{
  sum_u32, microprice, momentum_score, of_nat, MomentumAlpha, OfiAlpha, momentum, ofi,
  update_momentum, update_ofi, update, confidence,
}

-- A side of the book is empty.
abbrev pub IsOneSided : LimitOrderBook → Type 0
IsOneSided book = (get_best_bid book ≡ no_bid) ⊎ (get_best_ask book ≡ no_ask)

abbrev pub IsTwoSided : LimitOrderBook → Type 0
IsTwoSided book = (get_best_bid book ≢ no_bid) × (get_best_ask book ≢ no_ask)

-- `MomentumAlpha` scores a book with both sides whose best sizes do not add up to 0 in 32 bits.
abbrev pub sizes_of : LimitOrderBook → ℕ
sizes_of book =
    sum_u32 (get_bid_size book (get_best_bid book)) (get_ask_size book (get_best_ask book))

abbrev pub IsScored : LimitOrderBook → Type 0
IsScored book = IsTwoSided book × (sizes_of book ≢ 0)

abbrev pub IsSkipped : LimitOrderBook → Type 0
IsSkipped book = IsOneSided book ⊎ (sizes_of book ≡ 0)

module _ (d : Arithmetic) where
  open d use {Double, sub}

  -- While a side of the book is empty the score is 0. `MomentumAlpha` keeps its state, `OFIAlpha`
  -- only forgets that it has a previous top of the book.
  pub update-one_sided :
      (m : MomentumAlpha d) (o : OfiAlpha d) (book : LimitOrderBook) (tick : MarketTick)
      → IsOneSided book
      → (update d (momentum m) book tick ≡ (momentum m, of_nat d 0))
        × (update d (ofi o) book tick ≡ (ofi (record o { initialized = false }), of_nat d 0))
  unfolding update update_momentum update_ofi
  update-one_sided m o book tick h = ground arith

  -- What `OFIAlpha` keeps of a book with both sides: its best prices and their sizes.
  abbrev pub top_of : LimitOrderBook → OfiAlpha d
  top_of book = record {
    initialized = true;
    prev_best_bid = get_best_bid book;
    prev_best_ask = get_best_ask book;
    prev_best_bid_size = get_bid_size book (get_best_bid book);
    prev_best_ask_size = get_ask_size book (get_best_ask book);
  }

  -- The score of a book against the book of the update before.
  abbrev pub change_of : LimitOrderBook → LimitOrderBook → Double
  change_of last book =
      confidence d (top_of last) (get_best_bid book) (get_best_ask book)
        (get_bid_size book (get_best_bid book)) (get_ask_size book (get_best_ask book))

  update_ofi-keeps :
      (o : OfiAlpha d) (book : LimitOrderBook) (tick : MarketTick)
      → IsTwoSided book
      → (update_ofi d o book tick).0 ≡ top_of book
  unfolding update_ofi
  update_ofi-keeps o book tick two = ground arith

  update_ofi-scores :
      (last book : LimitOrderBook) (tick : MarketTick)
      → IsTwoSided book
      → (update_ofi d (top_of last) book tick).1 ≡ change_of last book
  unfolding update_ofi
  update_ofi-scores last book tick two = ground arith

  update_ofi-forgets :
      (o : OfiAlpha d) (book : LimitOrderBook) (tick : MarketTick)
      → IsOneSided book
      → ((update_ofi d o book tick).0.initialized ≡ false)
        × ((update_ofi d o book tick).1 ≡ of_nat d 0)
  unfolding update_ofi
  update_ofi-forgets o book tick one = ground arith

  update_ofi-restarts :
      (o : OfiAlpha d) (book : LimitOrderBook) (tick : MarketTick)
      → o.initialized ≡ false
      → (update_ofi d o book tick).1 ≡ of_nat d 0
  unfolding update_ofi
  update_ofi-restarts o book tick fresh = ground arith

  -- Whatever updates came before, `OFIAlpha` compares a book with the book of the update just before:
  -- where both have both sides, the score is that of the change from the one's top to the other's, and
  -- where either lacks a side the score is 0. Of a book with both sides it keeps the top.
  pub update_ofi-last :
      (o : OfiAlpha d) (last book : LimitOrderBook) (tick tick' : MarketTick)
      → (IsTwoSided last → (update_ofi d o last tick).0 ≡ top_of last)
        × (IsTwoSided last
            → IsTwoSided book
            → (update_ofi d (update_ofi d o last tick).0 book tick').1 ≡ change_of last book)
        × ((IsOneSided last ⊎ IsOneSided book)
            → (update_ofi d (update_ofi d o last tick).0 book tick').1 ≡ of_nat d 0)
  update_ofi-last o last book tick tick' = (
    update_ofi-keeps o last tick,
    λ a b. rw (update_ofi-keeps o last tick a) (update_ofi-scores last book tick' b),
    λ h. elim h [
      | inl a ↦ update_ofi-restarts _ book tick' (update_ofi-forgets o last tick a).0
      | inr b ↦ (update_ofi-forgets _ book tick' b).1
    ],
  )

  abbrev pub microprice_of : LimitOrderBook → Double
  microprice_of book =
      microprice d (get_best_bid book) (get_best_ask book) (get_bid_size book (get_best_bid book))
        (get_ask_size book (get_best_ask book)) (sizes_of book)

  -- The state after several updates.
  abbrev pub momentum_after : MarketTick → MomentumAlpha d → List LimitOrderBook → MomentumAlpha d
  momentum_after tick a [] = a
  momentum_after tick a (book ∷ books) = momentum_after tick (update_momentum d a book tick).0 books

  update_momentum-skips :
      (a : MomentumAlpha d) (book : LimitOrderBook) (tick : MarketTick)
      → IsSkipped book
      → update_momentum d a book tick ≡ (a, of_nat d 0)
  unfolding update_momentum
  update_momentum-skips a book tick skipped = ground arith

  update_momentum-keeps :
      (a : MomentumAlpha d) (book : LimitOrderBook) (tick : MarketTick)
      → IsScored book
      → (update_momentum d a book tick).0
        ≡ record { has_prev = true; prev_microprice_cents = microprice_of book }
  unfolding update_momentum
  update_momentum-keeps a book tick scored = ground arith

  update_momentum-scores :
      (a : MomentumAlpha d) (book : LimitOrderBook) (tick : MarketTick)
      → IsScored book
      → a.has_prev ≡ true
      → (update_momentum d a book tick).1
        ≡ momentum_score d (sub (microprice_of book) a.prev_microprice_cents)
  unfolding update_momentum
  update_momentum-scores a book tick scored prev = ground arith

  momentum_after-skips :
      (tick : MarketTick) (a : MomentumAlpha d) (books : List LimitOrderBook)
      → All IsSkipped books
      → momentum_after tick a books ≡ a
  momentum_after-skips tick a [] skipped = refl
  momentum_after-skips tick a (book ∷ books) (first, others) =
      rw (update_momentum-skips a book tick first) (momentum_after-skips tick a books others)

  -- `MomentumAlpha` compares the microprice of a book with that of the last book that it scored,
  -- whatever updates came before it, and however many books in between lacked a side or had best sizes
  -- that add up to 0 in 32 bits: the score of those is 0, and that of the book is the score of the move
  -- of the microprice.
  pub update_momentum-last :
      (a : MomentumAlpha d) (last : LimitOrderBook) (gap : List LimitOrderBook)
      (skipped book : LimitOrderBook) (tick : MarketTick)
      → IsScored last
      → All IsSkipped gap
      → IsSkipped skipped
      → IsScored book
      → let reached = momentum_after tick (update_momentum d a last tick).0 gap in
        ((update_momentum d reached skipped tick).1 ≡ of_nat d 0)
        × ((update_momentum d reached book tick).1
            ≡ momentum_score d (sub (microprice_of book) (microprice_of last)))
  update_momentum-last a last gap skipped book tick h between out scored = (
    ap (λ (r : MomentumAlpha d × Double). r.1) (update_momentum-skips _ skipped tick out),
    rw (momentum_after-skips tick _ gap between, update_momentum-keeps a last tick h)
        (update_momentum-scores _ book tick scored refl),
  )
