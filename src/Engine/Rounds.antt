-- ===== src/Engine/Rounds.antt =====
-- The loop of `run` against the ticks in the queue.
use low_latency_prediction_m.Base.{
  ℕ, zero, suc, ◌+◌, ◌*◌, ◌^◌, ◌≤◌, ◌<◌, ◌≡◌, refl, sym, inl, inr, ◌∙◌, ap, some, List, [], ◌∷◌,
  take, drop, length, take-nil, arith,
}
use low_latency_prediction_m.Base.Int.{ℤ, pos, negsuc, magnitude, ◌+ℤ◌, +ℤ_zero, +ℤ_assoc}
use low_latency_prediction_m.Base.Double.{Arithmetic}
use low_latency_prediction_m.Queue.{nothing, item, pop}
use low_latency_prediction_m.Queue.Invariant.{IsSize, Holds}
use low_latency_prediction_m.Queue.Fifo.{pop_refines}
use low_latency_prediction_m.Book.{MarketTick}
use low_latency_prediction_m.Book.Order.{apply_all}
use low_latency_prediction_m.Positions.{PositionManager}
use low_latency_prediction_m.Positions.Entry.{add_fill-size}
use low_latency_prediction_m.Positions.Filled.{magnitude-+ℤ}
use low_latency_prediction_m.Engine.Trades.{IsTrade}
use low_latency_prediction_m.Engine.Ticks.{on_tick-IsTrade}
use low_latency_prediction_m.Engine.{
  cents_to_price, tick_queue_size, StrategyEngine, on_tick, round, run,
}

pub tick_queue-IsSize : IsSize tick_queue_size
tick_queue-IsSize = record {
  exponent = 16;
  at_least_two = omega arith;
  representable = omega arith;
  power = refl;
}

drop-nil : (n : ℕ) → drop {A = MarketTick} n [] ≡ []
drop-nil zero = refl
drop-nil (suc n) = refl

-- The size changes by a fill of at most `n` contracts, bought or sold.
abbrev pub MovesBy : ℕ → ℤ → ℤ → Type 0
MovesBy n before after = (f : ℤ) × (magnitude f ≤ n) × (after ≡ before +ℤ f)

MovesBy-stays : (n : ℕ) (a : ℤ) → MovesBy n a a
MovesBy-stays n a = (pos 0, omega arith, sym (+ℤ_zero a))

MovesBy-trans : (m n k : ℕ) (a b c : ℤ) → MovesBy m a b → MovesBy n b c → m + n ≤ k → MovesBy k a c
MovesBy-trans m n k a b c (f, small, e) (g, small', e') le =
    (f +ℤ g, omega (arith, magnitude-+ℤ f g), e' ∙ ap (λ t. t +ℤ g) e ∙ +ℤ_assoc a f g)

pub MovesBy-size : (n : ℕ) (a b : ℤ) → MovesBy n a b → magnitude b ≤ magnitude a + n
MovesBy-size n a b (f, small, e) = rw e (omega (arith, magnitude-+ℤ a f))

kept-MovesBy :
    (d : Arithmetic) (n : ℕ) (pm pm' : PositionManager d)
    → pm' ≡ pm
    → MovesBy n pm.position_size pm'.position_size
kept-MovesBy d n pm pm' same = rw same (MovesBy-stays n pm.position_size)

-- A trade moves the position by ten contracts.
IsTrade-MovesBy :
    (d : Arithmetic) (score : d.Double) (bid ask : ℕ) (pm pm' : PositionManager d)
    → magnitude pm.position_size + 10 < 2 ^ 31
    → IsTrade d score bid ask pm pm'
    → MovesBy 10 pm.position_size pm'.position_size
IsTrade-MovesBy d score bid ask pm pm' fits (inl same) = rw same (MovesBy-stays 10 pm.position_size)
IsTrade-MovesBy d score bid ask pm pm' fits (inr (inl (high, filled))) =
    let (pm2, filled2, size) = add_fill-size d pm (pos 10) (cents_to_price d ask) fits in
    let e : pm' ≡ pm2 = cc in
    (pos 10, omega arith, ap (λ (p : PositionManager d). p.position_size) e ∙ size)
IsTrade-MovesBy d score bid ask pm pm' fits (inr (inr (low, filled))) =
    let (pm2, filled2, size) = add_fill-size d pm (negsuc 9) (cents_to_price d bid) fits in
    let e : pm' ≡ pm2 = cc in
    (negsuc 9, omega arith, ap (λ (p : PositionManager d). p.position_size) e ∙ size)

module _ (d : Arithmetic) (clock : ℕ → ℕ) where
  abbrev pub position : StrategyEngine d → ℤ
  position e = e.position_manager.position_size

  abbrev pub size_of : StrategyEngine d → ℕ
  size_of e = magnitude (position e)

  -- The engine with the rest of the queue.
  abbrev popped : StrategyEngine d → StrategyEngine d
  popped e = record e { queue = (pop tick_queue_size e.queue).0 }

  round-none :
      (e : StrategyEngine d)
      → (pop tick_queue_size e.queue).1 ≡ nothing
      → round d clock e ≡ some (popped e)
  unfolding round
  round-none e h = ground arith

  round-item :
      (e : StrategyEngine d) (tick : MarketTick)
      → (pop tick_queue_size e.queue).1 ≡ item tick
      → round d clock e ≡ on_tick d clock tick (popped e)
  unfolding round
  round-item e tick h = ground arith

  -- One round takes the first tick of the queue into the book.
  pub round-step :
      (e : StrategyEngine d) (items : List MarketTick)
      → Holds tick_queue_size e.queue items
      → size_of e + 10 * length (take 1 items) < 2 ^ 31
      → (e' : StrategyEngine d) × (round d clock e ≡ some e')
        × Holds tick_queue_size e'.queue (drop 1 items)
        × (e'.book ≡ apply_all e.book (take 1 items))
        × MovesBy (10 * length (take 1 items)) (position e) (position e')
  round-step e [] h fits =
      let (rest, empty) = pop_refines tick_queue-IsSize h in
      (popped e, round-none e empty, rest, refl, MovesBy-stays _ (position e))
  round-step e (t ∷ items) h fits =
      let (rest, out) = pop_refines tick_queue-IsSize h in
      let (e', done, q, b, traded, moved) = on_tick-IsTrade d clock t (popped e) (omega arith) in
      (
        e',
        round-item e t out ∙ done,
        rw q rest,
        b,
        elim traded [
          | inl same ↦ kept-MovesBy d 10 e.position_manager _ same
          | inr (two, trade) ↦ IsTrade-MovesBy d _ _ _ e.position_manager _ (omega arith) trade
        ],
      )

  run-zero : (e : StrategyEngine d) → run d clock 0 e ≡ some e
  unfolding run
  run-zero e = refl

  run-suc :
      (n : ℕ) (e e' : StrategyEngine d)
      → round d clock e ≡ some e'
      → run d clock (suc n) e ≡ run d clock n e'
  unfolding run
  run-suc n e e' h = rw h refl

  -- While the position cannot leave the range of `int`, which ten contracts for each tick bound, every
  -- round is carried out: after `n` rounds the book is the one it was with the first `n` ticks of the
  -- queue applied in order, the rest is still in the queue, and the position differs from the one
  -- before by at most ten contracts, bought or sold, for each of those ticks.
  pub run_lem :
      (n : ℕ) (e : StrategyEngine d) (items : List MarketTick)
      → Holds tick_queue_size e.queue items
      → size_of e + 10 * length (take n items) < 2 ^ 31
      → (e' : StrategyEngine d) × (run d clock n e ≡ some e')
        × Holds tick_queue_size e'.queue (drop n items)
        × (e'.book ≡ apply_all e.book (take n items))
        × MovesBy (10 * length (take n items)) (position e) (position e')
  run_lem zero e items h fits = (e, run-zero e, h, refl, MovesBy-stays _ (position e))
  run_lem (suc n) e [] h fits =
      let no_tick : length (take {A = MarketTick} n []) ≡ 0 = ap length (take-nil n) in
      let (e1, first, h1, b1, moved1) = round-step e [] h (omega arith) in
      let (e2, rest, h2, b2, moved2) =
        run_lem n e1 [] h1 (omega (arith, MovesBy-size _ _ _ moved1)) in
      (
        e2,
        run-suc n e e1 first ∙ rest,
        rw (drop-nil n) at h2,
        b2 ∙ ap (apply_all e1.book) (take-nil n) ∙ b1,
        MovesBy-trans _ _ _ _ _ _ moved1 moved2 (omega arith),
      )
  run_lem (suc n) e (t ∷ items) h fits =
      let (e1, first, h1, b1, moved1) = round-step e (t ∷ items) h (omega arith) in
      let (e2, rest, h2, b2, moved2) =
        run_lem n e1 items h1 (omega (arith, MovesBy-size _ _ _ moved1)) in
      (
        e2,
        run-suc n e e1 first ∙ rest,
        h2,
        b2 ∙ ap (λ b. apply_all b (take n items)) b1,
        MovesBy-trans _ _ _ _ _ _ moved1 moved2 (omega arith),
      )
