-- ===== src/Book/Best.antt =====
-- The best prices: what the two scans find.
use native.Mathlib.Decide.{dec_lt, ℕ_discrete}
use low_latency_prediction_m.Base.{
  Bool-cases, ==_iff, ℕ, zero, suc, ◌+◌, ◌≤◌, ◌<◌, ◌≡◌, ◌≢◌, refl, ◌⊎◌, inl, inr, true, List, arith,
  ◌==◌, get_or,
}
use low_latency_prediction_m.Book.{
  LimitOrderBook, no_bid, no_ask, max_price, scan_down, scan_up, get_best_bid, get_best_ask,
  get_bid_size, get_ask_size,
}

-- `best` is the highest price with a size, or the sentinel where no price has one.
abbrev pub IsHighest : (ℕ → ℕ) → ℕ → Type 0
IsHighest size_at best =
    ((best ≡ no_bid) × ((p : ℕ) → size_at p ≡ 0))
    ⊎ ((best ≤ max_price) × (size_at best ≢ 0) × ((p : ℕ) → best < p → size_at p ≡ 0))

-- `best` is the lowest price with a size, or the sentinel where no price has one.
abbrev pub IsLowest : (ℕ → ℕ) → ℕ → Type 0
IsLowest size_at best =
    ((best ≡ no_ask) × ((p : ℕ) → size_at p ≡ 0))
    ⊎ ((best ≤ max_price) × (size_at best ≢ 0) × ((p : ℕ) → p < best → size_at p ≡ 0))

-- A bound that grows by a price without a size.
extend :
    (sizes : List ℕ) (n p : ℕ)
    → (get_or sizes n 0 == 0) ≡ true
    → (p ≢ n → get_or sizes p 0 ≡ 0)
    → get_or sizes p 0 ≡ 0
extend sizes n p z other = elim (ℕ_discrete p n) [
  | yes e ↦ rw e ((==_iff (get_or sizes n 0) 0).0 z)
  | no ne ↦ other ne
]

scan_down-cases :
    (sizes : List ℕ) (n : ℕ)
    → let r = scan_down sizes n in
      ((r ≡ no_bid) × ((p : ℕ) → p < n → get_or sizes p 0 ≡ 0))
      ⊎ ((r < n) × (get_or sizes r 0 ≢ 0) × ((p : ℕ) → r < p → p < n → get_or sizes p 0 ≡ 0))
unfolding scan_down
scan_down-cases sizes zero = inl (refl, λ p lt. elim lt [ ])
scan_down-cases sizes (suc n) = elim (Bool-cases (get_or sizes n 0 == 0)) [
  | inl z ↦ rw z (elim (scan_down-cases sizes n) [
    | inl (e, zeros) ↦ inl (e, λ p lt. extend sizes n p z (λ ne. zeros p (omega arith)))
    | inr (lt, ne, above) ↦
        inr (omega arith, ne, λ p lo hi. extend sizes n p z (λ ne. above p lo (omega arith)))
  ])
  | inr s ↦ rw s (inr (omega arith, ground arith, λ p lo hi. absurd (omega arith)))
]

scan_up-cases :
    (sizes : List ℕ) (left p : ℕ)
    → let r = scan_up sizes left p in
      ((r ≡ no_ask) × ((q : ℕ) → p ≤ q → q < p + left → get_or sizes q 0 ≡ 0))
      ⊎ ((r < p + left)
          × (p ≤ r)
          × (get_or sizes r 0 ≢ 0)
          × ((q : ℕ) → p ≤ q → q < r → get_or sizes q 0 ≡ 0))
unfolding scan_up
scan_up-cases sizes zero p = inl (refl, λ q lo hi. absurd (omega arith))
scan_up-cases sizes (suc left) p = elim (Bool-cases (get_or sizes p 0 == 0)) [
  | inl z ↦ rw z (elim (scan_up-cases sizes left (p + 1)) [
    | inl (e, zeros) ↦
        inl (e, λ q lo hi. extend sizes p q z (λ ne. zeros q (omega arith) (omega arith)))
    | inr (lt, le, ne, below) ↦ inr (
      omega arith,
      omega arith,
      ne,
      λ q lo hi. extend sizes p q z (λ ne'. below q (omega arith) hi),
    )
  ])
  | inr s ↦ rw s (inr (omega arith, omega arith, ground arith, λ q lo hi. absurd (omega arith)))
]

-- `get_best_bid` finds the highest price at which `get_bid_size` is not 0, and returns the sentinel
-- 255 exactly when there is none; this holds of every book.
pub get_best_bid-IsHighest :
    (book : LimitOrderBook) → IsHighest (get_bid_size book) (get_best_bid book)
unfolding get_best_bid get_bid_size
get_best_bid-IsHighest book = elim (scan_down-cases book.bids 101) [
  | inl (e, zeros) ↦ inl (e, λ p. ground (arith, zeros p))
  | inr (lt, ne, above) ↦ inr (omega arith, ground arith, λ p lo. ground (arith, above p lo))
]

-- `get_best_ask` finds the lowest price at which `get_ask_size` is not 0, and returns the sentinel
-- 255 exactly when there is none; this holds of every book.
pub get_best_ask-IsLowest :
    (book : LimitOrderBook) → IsLowest (get_ask_size book) (get_best_ask book)
unfolding get_best_ask get_ask_size
get_best_ask-IsLowest book = elim (scan_up-cases book.asks 101 0) [
  | inl (e, zeros) ↦ inl (e, λ p. ground (arith, zeros p))
  | inr (lt, le, ne, below) ↦ inr (omega arith, ground arith, λ p hi. ground (arith, below p))
]

pub highest_unique : (f : ℕ → ℕ) (a b : ℕ) → IsHighest f a → IsHighest f b → a ≡ b
highest_unique f a b (inl (e, zeros)) (inl (e', zeros')) = omega arith
highest_unique f a b (inl (e, zeros)) (inr (le, ne, above)) = absurd (ne (zeros b))
highest_unique f a b (inr (le, ne, above)) (inl (e, zeros)) = absurd (ne (zeros a))
highest_unique f a b (inr (le, ne, above)) (inr (le', ne', above')) = elim (dec_lt a b) [
  | yes lt ↦ absurd (ne' (above b lt))
  | no ge ↦ elim (dec_lt b a) [ yes lt ↦ absurd (ne (above' a lt)) | no ge' ↦ omega arith ]
]

pub lowest_unique : (f : ℕ → ℕ) (a b : ℕ) → IsLowest f a → IsLowest f b → a ≡ b
lowest_unique f a b (inl (e, zeros)) (inl (e', zeros')) = omega arith
lowest_unique f a b (inl (e, zeros)) (inr (le, ne, below)) = absurd (ne (zeros b))
lowest_unique f a b (inr (le, ne, below)) (inl (e, zeros)) = absurd (ne (zeros a))
lowest_unique f a b (inr (le, ne, below)) (inr (le', ne', below')) = elim (dec_lt a b) [
  | yes lt ↦ absurd (ne (below' a lt))
  | no ge ↦ elim (dec_lt b a) [ yes lt ↦ absurd (ne' (below b lt)) | no ge' ↦ omega arith ]
]
