-- ===== src/Book/Update.antt =====
-- How one tick moves the best prices.
use native.Mathlib.Decide.{dec_lt}
use low_latency_prediction_m.Base.{
  ℕ, ◌≤◌, ◌<◌, ◌≡◌, ◌≢◌, ◌⊎◌, inl, inr, true, false, ◌||◌, arith, ltb, ◌==◌, if◌then◌else◌,
  Bool-cases, ==_iff, ne→==,
}
use low_latency_prediction_m.Book.{
  MarketTick, LimitOrderBook, no_bid, no_ask, max_price, get_best_bid, get_best_ask, get_bid_size,
  get_ask_size, apply_tick,
}
use low_latency_prediction_m.Book.Levels.{IsBook, sizes-apply_tick}
use low_latency_prediction_m.Book.Best.{
  IsHighest, IsLowest, get_best_bid-IsHighest, get_best_ask-IsLowest, highest_unique, lowest_unique,
}

-- `g` is `f` with the size at `p` replaced.
abbrev IsUpdate : (ℕ → ℕ) → (ℕ → ℕ) → ℕ → ℕ → Type 0
IsUpdate f g p s = (q : ℕ) → g q ≡ (if q == p then s else f q)

module _ (f g : ℕ → ℕ) (p s best : ℕ) (grid : p ≤ max_price) (up : IsUpdate f g p s) where
  IsHighest-raise :
      s ≢ 0 → IsHighest f best → IsHighest g (if best == no_bid || ltb best p then p else best)
  IsHighest-raise some_size (inl (e, zeros)) =
      rw ((==_iff best no_bid).1 e)
        (inr (grid, ground (arith, up p), λ q lo. ground (arith, up q, zeros q)))
  IsHighest-raise some_size (inr (le, ne, above)) =
      rw (ne→== best no_bid (omega arith)) (elim (Bool-cases (ltb best p)) [
        | inl lt ↦ rw lt (inr (grid, ground (arith, up p), λ q lo. ground (arith, up q, above q)))
        | inr ge ↦
            rw ge (inr (le, ground (arith, up best), λ q lo. ground (arith, up q, above q lo)))
      ])

  IsLowest-raise :
      s ≢ 0 → IsLowest f best → IsLowest g (if best == no_ask || ltb p best then p else best)
  IsLowest-raise some_size (inl (e, zeros)) =
      rw ((==_iff best no_ask).1 e)
        (inr (grid, ground (arith, up p), λ q lo. ground (arith, up q, zeros q)))
  IsLowest-raise some_size (inr (le, ne, below)) =
      rw (ne→== best no_ask (omega arith)) (elim (Bool-cases (ltb p best)) [
        | inl lt ↦ rw lt (inr (grid, ground (arith, up p), λ q lo. ground (arith, up q, below q)))
        | inr ge ↦
            rw ge (inr (le, ground (arith, up best), λ q lo. ground (arith, up q, below q lo)))
      ])

  IsHighest-delete : s ≡ 0 → p ≢ best → IsHighest f best → IsHighest g best
  IsHighest-delete gone other (inl (e, zeros)) = inl (e, λ q. ground (arith, up q, zeros q))
  IsHighest-delete gone other (inr (le, ne, above)) =
      inr (le, ground (arith, up best), λ q lo. ground (arith, up q, above q lo))

  IsLowest-delete : s ≡ 0 → p ≢ best → IsLowest f best → IsLowest g best
  IsLowest-delete gone other (inl (e, zeros)) = inl (e, λ q. ground (arith, up q, zeros q))
  IsLowest-delete gone other (inr (le, ne, below)) =
      inr (le, ground (arith, up best), λ q lo. ground (arith, up q, below q lo))

  -- Once the best level is gone the next one lies strictly beyond it.
  IsHighest-drop :
      s ≡ 0 → p ≡ best → IsHighest f best → (b : ℕ) → IsHighest g b → (b ≡ no_bid) ⊎ (b < best)
  IsHighest-drop gone same (inl (e, zeros)) b h = absurd (omega arith)
  IsHighest-drop gone same (inr (le, ne, above)) b (inl (e, zeros)) = inl e
  IsHighest-drop gone same (inr (le, ne, above)) b (inr (le', ne', above')) = elim (dec_lt b best) [
    | yes lt ↦ inr lt
    | no ge ↦ absurd (ground (arith, up b, above b))
  ]

  IsLowest-drop :
      s ≡ 0 → p ≡ best → IsLowest f best → (b : ℕ) → IsLowest g b → (b ≡ no_ask) ⊎ (best < b)
  IsLowest-drop gone same (inl (e, zeros)) b h = absurd (omega arith)
  IsLowest-drop gone same (inr (le, ne, below)) b (inl (e, zeros)) = inl e
  IsLowest-drop gone same (inr (le, ne, below)) b (inr (le', ne', below')) = elim (dec_lt best b) [
    | yes lt ↦ inr lt
    | no ge ↦ absurd (ground (arith, up b, below b))
  ]

module _ {book : LimitOrderBook} (t : MarketTick) (b : IsBook book)
    (grid : t.price ≤ max_price) where
  bid-IsUpdate :
      t.is_bid ≡ true
      → IsUpdate (get_bid_size book) (get_bid_size (apply_tick book t)) t.price t.size
  bid-IsUpdate side q = ground (arith, sizes-apply_tick t q b)

  ask-IsUpdate :
      t.is_bid ≡ false
      → IsUpdate (get_ask_size book) (get_ask_size (apply_tick book t)) t.price t.size
  ask-IsUpdate side q = ground (arith, sizes-apply_tick t q b)

  -- The tick's price is on the grid, 0 to 100, and the book is as its type says, 101 levels a side with
  -- sizes of 32 bits. A bid tick with a size makes its price the best bid where there was none or a
  -- lower one, and leaves the best bid otherwise; one of size 0 leaves a best bid at another price, and
  -- where its price was the best bid the new one is lower or the sentinel.
  pub get_best_bid-apply_tick :
      t.is_bid ≡ true
      → let best = get_best_bid book in
        let next = get_best_bid (apply_tick book t) in
        (t.size ≢ 0 → next ≡ (if best == no_bid || ltb best t.price then t.price else best))
        × (t.size ≡ 0 → t.price ≢ best → next ≡ best)
        × (t.size ≡ 0 → t.price ≡ best → (next ≡ no_bid) ⊎ (next < best))
  get_best_bid-apply_tick side = (
    λ ne. unique _ (IsHighest-raise f g t.price t.size best grid (bid-IsUpdate side) ne old),
    λ e ne. unique _ (IsHighest-delete f g t.price t.size best grid (bid-IsUpdate side) e ne old),
    λ e same. IsHighest-drop f g t.price t.size best grid (bid-IsUpdate side) e same old _ new,
  )
    where
      f : ℕ → ℕ
      f = get_bid_size book

      g : ℕ → ℕ
      g = get_bid_size (apply_tick book t)

      best : ℕ
      best = get_best_bid book

      old : IsHighest f best
      old = get_best_bid-IsHighest book

      new : IsHighest g (get_best_bid (apply_tick book t))
      new = get_best_bid-IsHighest (apply_tick book t)

      unique : (c : ℕ) → IsHighest g c → get_best_bid (apply_tick book t) ≡ c
      unique c h = highest_unique g _ c new h

  -- The tick's price is on the grid, 0 to 100, and the book is as its type says, 101 levels a side with
  -- sizes of 32 bits. An ask tick with a size makes its price the best ask where there was none or a
  -- higher one, and leaves the best ask otherwise; one of size 0 leaves a best ask at another price, and
  -- where its price was the best ask the new one is higher (the sentinel, where no ask is left).
  pub get_best_ask-apply_tick :
      t.is_bid ≡ false
      → let best = get_best_ask book in
        let next = get_best_ask (apply_tick book t) in
        (t.size ≢ 0 → next ≡ (if best == no_ask || ltb t.price best then t.price else best))
        × (t.size ≡ 0 → t.price ≢ best → next ≡ best)
        × (t.size ≡ 0 → t.price ≡ best → (next ≡ no_ask) ⊎ (best < next))
  get_best_ask-apply_tick side = (
    λ ne. unique _ (IsLowest-raise f g t.price t.size best grid (ask-IsUpdate side) ne old),
    λ e ne. unique _ (IsLowest-delete f g t.price t.size best grid (ask-IsUpdate side) e ne old),
    λ e same. IsLowest-drop f g t.price t.size best grid (ask-IsUpdate side) e same old _ new,
  )
    where
      f : ℕ → ℕ
      f = get_ask_size book

      g : ℕ → ℕ
      g = get_ask_size (apply_tick book t)

      best : ℕ
      best = get_best_ask book

      old : IsLowest f best
      old = get_best_ask-IsLowest book

      new : IsLowest g (get_best_ask (apply_tick book t))
      new = get_best_ask-IsLowest (apply_tick book t)

      unique : (c : ℕ) → IsLowest g c → get_best_ask (apply_tick book t) ≡ c
      unique c h = lowest_unique g _ c new h

-- A tick for one side leaves the best price of the other.
pub other_side-apply_tick :
    (book : LimitOrderBook) (t : MarketTick)
    → (t.is_bid ≡ true → get_best_ask (apply_tick book t) ≡ get_best_ask book)
      × (t.is_bid ≡ false → get_best_bid (apply_tick book t) ≡ get_best_bid book)
unfolding get_best_bid get_best_ask apply_tick
other_side-apply_tick book t = ground arith
