-- ===== src/Book/Order.antt =====
-- Which ticks commute, and which overwrite one another.
use mathlib.Core.List.{Perm, Permᴰ, Pairwise, mem-cons_self}
use mathlib.Core.List.Permᴰ
use mathlib.Core.Logic.{∥∥₁_elim}
use native.Mathlib.Decide.{ℕ_discrete}
use low_latency_prediction_m.Base.{
  ℕ, zero, suc, ◌≡◌, ◌≢◌, refl, sym, ◌∙◌, ap, ◌⊎◌, inl, inr, List, [], ◌∷◌, arith, set,
}
use low_latency_prediction_m.Book.{MarketTick, LimitOrderBook, apply_tick}

set_comm : (xs : List ℕ) (i j v w : ℕ) → i ≢ j → set (set xs i v) j w ≡ set (set xs j w) i v
set_comm [] i j v w ne = refl
set_comm (x ∷ xs) zero zero v w ne = absurd (ne refl)
set_comm (x ∷ xs) zero (suc j) v w ne = refl
set_comm (x ∷ xs) (suc i) zero v w ne = refl
set_comm (x ∷ xs) (suc i) (suc j) v w ne = ap (◌∷◌ x) (set_comm xs i j v w (λ e. ne (ap suc e)))

set_twice : (xs : List ℕ) (i v w : ℕ) → set (set xs i v) i w ≡ set xs i w
set_twice [] i v w = refl
set_twice (x ∷ xs) zero v w = refl
set_twice (x ∷ xs) (suc i) v w = ap (◌∷◌ x) (set_twice xs i v w)

-- Ticks for different levels (another price, or the other side) can be applied in either order.
pub apply_tick_comm :
    (book : LimitOrderBook) (t u : MarketTick)
    → (t.price ≢ u.price) ⊎ (t.is_bid ≢ u.is_bid)
    → apply_tick (apply_tick book t) u ≡ apply_tick (apply_tick book u) t
unfolding apply_tick
apply_tick_comm book t u apart = ground (
  arith,
  set_comm book.bids t.price u.price t.size u.size,
  set_comm book.asks t.price u.price t.size u.size,
)

-- Of two ticks for one level only the later counts: updates are absolute sizes, not differences.
pub apply_tick_last :
    (book : LimitOrderBook) (t u : MarketTick)
    → t.price ≡ u.price
    → t.is_bid ≡ u.is_bid
    → apply_tick (apply_tick book t) u ≡ apply_tick book u
unfolding apply_tick
apply_tick_last book t u same_price same_side =
    ground
      (arith, set_twice book.bids u.price t.size u.size, set_twice book.asks u.price t.size u.size)

-- A book after several ticks.
abbrev pub apply_all : LimitOrderBook → List MarketTick → LimitOrderBook
apply_all book [] = book
apply_all book (t ∷ ticks) = apply_all (apply_tick book t) ticks

-- The ticks are for different levels.
abbrev pub IsApart : MarketTick → MarketTick → Type 0
IsApart t u = ¬ ((t.price ≡ u.price) × (t.is_bid ≡ u.is_bid))

IsApart-prop : (t u : MarketTick) → IsProp (IsApart t u)
IsApart-prop t u = hlevel

IsApart-symm : (t u : MarketTick) → IsApart t u → IsApart u t
IsApart-symm t u h (price, side) = h (sym price, sym side)

IsApart-or : (t u : MarketTick) → IsApart t u → (t.price ≢ u.price) ⊎ (t.is_bid ≢ u.is_bid)
IsApart-or t u h = elim (ℕ_discrete t.price u.price) [
  | yes same ↦ inr (λ side. h (same, side))
  | no differ ↦ inl differ
]

apply_all-Permᴰ :
    {ts us : List MarketTick} (book : LimitOrderBook)
    → Permᴰ ts us
    → Pairwise IsApart ts
    → apply_all book ts ≡ apply_all book us
apply_all-Permᴰ book Permᴰ.nil apart = refl
apply_all-Permᴰ book (Permᴰ.cons {a = t} {b = u} {l₁ = ts} {l₂ = us} e p) (Pairwise.cons h apart) =
    apply_all-Permᴰ (apply_tick book t) p apart ∙ ap (λ x. apply_all (apply_tick book x) us) e
apply_all-Permᴰ book (Permᴰ.swap {a = t} {b = u} {a' = a} {b' = b} {l = l} e e')
      (Pairwise.cons h apart) =
    ap (λ x. apply_all x l) (apply_tick_comm book t u (IsApart-or t u (h u mem-cons_self)))
    ∙ ap (λ x. apply_all (apply_tick (apply_tick book u) x) l) e
    ∙ ap (λ x. apply_all (apply_tick (apply_tick book x) b) l) e'
apply_all-Permᴰ book (Permᴰ.trans p q) apart =
    apply_all-Permᴰ book p apart
    ∙ apply_all-Permᴰ book q (Permᴰ.pairwise IsApart-prop IsApart-symm p apart)

LimitOrderBook-set : IsSet LimitOrderBook
LimitOrderBook-set = hlevel

-- Ticks for different levels leave the same book in whatever order they are applied.
pub apply_all-Perm :
    (book : LimitOrderBook) (ts us : List MarketTick)
    → Perm ts us
    → Pairwise IsApart ts
    → apply_all book ts ≡ apply_all book us
apply_all-Perm book ts us p apart =
    ∥∥₁_elim p (LimitOrderBook-set _ _) (λ q. apply_all-Permᴰ book q apart)
