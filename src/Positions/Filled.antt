-- ===== src/Positions/Filled.antt =====
-- What `add_fill` leaves, without the checks for overflow: those pass while the sizes stay in range.
use low_latency_prediction_m.Base.{
  ℕ, ◌+◌, ◌^◌, ◌≤◌, ◌<◌, ◌≡◌, ◌≢◌, refl, some, if◌then◌else◌, arith, ◌⊎◌, ltb,
}
use low_latency_prediction_m.Base.Int.{
  ℤ, pos, negsuc, ◌+ℤ◌, neg, checked, above_zero, below_zero, magnitude,
}
use low_latency_prediction_m.Base.Double.{Arithmetic}
use low_latency_prediction_m.Positions.{
  PositionManager, abs_int, same_direction, increase, reduce, close, entry_after, add_fill,
}

checked_lem : (a : ℤ) → magnitude a < 2 ^ 31 → checked a ≡ some a
checked_lem a lt = ground arith

abs_int_lem : (a : ℤ) → magnitude a < 2 ^ 31 → abs_int a ≡ some (pos (magnitude a))
unfolding abs_int neg
abs_int_lem (pos n) lt = ground arith
abs_int_lem (negsuc n) lt = ground arith

pub magnitude-+ℤ : (a b : ℤ) → magnitude (a +ℤ b) ≤ magnitude a + magnitude b
unfolding ◌+ℤ◌
magnitude-+ℤ a b = ground arith

module _ (d : Arithmetic) where
  open d use {Double, of_int, add, sub, mul, div}

  -- The cost of the position and the fill together.
  abbrev pub weighted : PositionManager d → ℤ → Double → Double
  weighted pm fill_size fill_price =
      add (mul pm.average_entry_price (of_int (pos (magnitude pm.position_size))))
        (mul fill_price (of_int (pos (magnitude fill_size))))

  abbrev pub increased : PositionManager d → ℤ → Double → PositionManager d
  increased pm fill_size fill_price = record pm {
    average_entry_price =
        div (weighted pm fill_size fill_price)
          (of_int (pos (magnitude pm.position_size) +ℤ pos (magnitude fill_size)));
    position_size = pm.position_size +ℤ fill_size;
  }

  -- The smaller of the two sizes is closed.
  abbrev pub closed : ℤ → ℤ → ℕ
  closed size fill_size =
      if ltb (magnitude fill_size) (magnitude size) then magnitude fill_size else magnitude size

  abbrev pub reduced : PositionManager d → ℤ → Double → PositionManager d
  reduced pm fill_size fill_price = record {
    position_size = pm.position_size +ℤ fill_size;
    realized_pnl = close d pm (pos (closed pm.position_size fill_size)) fill_price;
    average_entry_price = entry_after d pm (pm.position_size +ℤ fill_size) fill_size fill_price;
  }

  module _ (pm : PositionManager d) (f : ℤ) (p : Double)
      (fits : magnitude pm.position_size + magnitude f < 2 ^ 31) where
    increase_lem : increase d pm f p ≡ some (increased pm f p)
    unfolding increase
    increase_lem = rw (
      abs_int_lem pm.position_size (omega arith),
      abs_int_lem f (omega arith),
      checked_lem (pos (magnitude pm.position_size) +ℤ pos (magnitude f))
          (omega (arith, magnitude-+ℤ (pos (magnitude pm.position_size)) (pos (magnitude f)))),
      checked_lem (pm.position_size +ℤ f) (omega (arith, magnitude-+ℤ pm.position_size f)),
    )

    reduce_lem : reduce d pm f p ≡ some (reduced pm f p)
    unfolding reduce
    reduce_lem =
        rw
          (
            abs_int_lem pm.position_size (omega arith),
            abs_int_lem f (omega arith),
            checked_lem (pm.position_size +ℤ f) (omega (arith, magnitude-+ℤ pm.position_size f)),
          )
          (ground arith)

-- Two sizes of the same direction, and of opposite directions.
abbrev pub IsSame : ℤ → ℤ → Type 0
IsSame a b = ((0 < above_zero a) × (0 < above_zero b)) ⊎ ((0 < below_zero a) × (0 < below_zero b))

abbrev pub IsOpposite : ℤ → ℤ → Type 0
IsOpposite a b =
    ((0 < above_zero a) × (0 < below_zero b)) ⊎ ((0 < below_zero a) × (0 < above_zero b))

pub direction : (a b : ℤ) → (b ≡ pos 0) ⊎ (b ≢ pos 0) × ((a ≡ pos 0) ⊎ IsSame a b ⊎ IsOpposite a b)
direction a b = ground arith

module _ (d : Arithmetic) (pm : PositionManager d) (f : ℤ) (p : d.Double) where
  pub add_fill-none : f ≡ pos 0 → add_fill d pm f p ≡ some pm
  unfolding add_fill
  add_fill-none z = rw z refl

  pub add_fill-flat :
      pm.position_size ≡ pos 0
      → f ≢ pos 0
      → add_fill d pm f p ≡ some (record pm { position_size = f; average_entry_price = p })
  unfolding add_fill
  add_fill-flat z ne = ground arith

  module _ (fits : magnitude pm.position_size + magnitude f < 2 ^ 31) where
    pub add_fill-along : IsSame pm.position_size f → add_fill d pm f p ≡ some (increased d pm f p)
    unfolding add_fill same_direction
    add_fill-along same = ground (arith, increase_lem d pm f p fits)

    pub add_fill-against :
        IsOpposite pm.position_size f → add_fill d pm f p ≡ some (reduced d pm f p)
    unfolding add_fill same_direction
    add_fill-against opposite = ground (arith, reduce_lem d pm f p fits)
