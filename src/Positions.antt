-- ===== src/Positions.antt =====
-- `PositionManager` of include/position_manager.hpp. A call is `none` where an `int` overflows, which
-- is undefined behaviour.
pub mod Filled
pub mod Entry
pub mod Algebra
pub mod Average
pub mod Profit
use low_latency_prediction_m.Base.{
  ℕ, Bool, true, false, ◌&&◌, ◌||◌, Option, none, some, if◌then◌else◌, ◌>>=◌,
}
use low_latency_prediction_m.Base.Int.{ℤ, pos, negsuc, ◌+ℤ◌, neg, ltb_ℤ, eqb_ℤ, checked}
use low_latency_prediction_m.Base.Double.{Arithmetic}

-- `(a >= 0) ? a : -a`
unfoldable pub abs_int : ℤ → Option ℤ
abs_int a = if ltb_ℤ a (pos 0) then checked (neg a) else some a

-- `(a > 0 && b > 0) || (a < 0 && b < 0)`
unfoldable pub same_direction : ℤ → ℤ → Bool
same_direction a b = (ltb_ℤ (pos 0) a && ltb_ℤ (pos 0) b) || (ltb_ℤ a (pos 0) && ltb_ℤ b (pos 0))

module _ (d : Arithmetic) where
  open d use {Double, of_int, add, sub, mul, div}

  pub record PositionManager : Type 0 where
    pub position_size : ℤ
    pub realized_pnl : Double
    pub average_entry_price : Double

  unfoldable pub init : PositionManager
  init = record {
    position_size = pos 0;
    realized_pnl = of_int (pos 0);
    average_entry_price = of_int (pos 0);
  }

  -- A fill in the direction of the position.
  pub increase : PositionManager → ℤ → Double → Option PositionManager
  unfolding abs_int
  increase pm fill_size fill_price = do
    old_abs ← abs_int pm.position_size
    add_abs ← abs_int fill_size
    new_abs ← checked (old_abs +ℤ add_abs)
    let weighted =
        add (mul pm.average_entry_price (of_int old_abs)) (mul fill_price (of_int add_abs))
    size ← checked (pm.position_size +ℤ fill_size)
    some (record pm { average_entry_price = div weighted (of_int new_abs); position_size = size })

  -- The profit realised on the closing portion.
  unfoldable pub close : PositionManager → ℤ → Double → Double
  close pm closing_abs fill_price =
      if ltb_ℤ (pos 0) pm.position_size
      then add pm.realized_pnl (mul (of_int closing_abs) (sub fill_price pm.average_entry_price))
      else add pm.realized_pnl (mul (of_int closing_abs) (sub pm.average_entry_price fill_price))

  -- The entry price after a fill against the position, from the new size on.
  unfoldable pub entry_after : PositionManager → ℤ → ℤ → Double → Double
  unfolding same_direction
  entry_after pm size fill_size fill_price =
      if eqb_ℤ size (pos 0)
      then of_int (pos 0)
      else if same_direction size fill_size
      then fill_price
      else pm.average_entry_price

  -- A fill against the position, which may flip it.
  unfoldable pub reduce : PositionManager → ℤ → Double → Option PositionManager
  unfolding abs_int close entry_after
  reduce pm fill_size fill_price = do
    pos_abs ← abs_int pm.position_size
    fill_abs ← abs_int fill_size
    let closing_abs = if ltb_ℤ fill_abs pos_abs then fill_abs else pos_abs
    size ← checked (pm.position_size +ℤ fill_size)
    some record {
      position_size = size;
      realized_pnl = close pm closing_abs fill_price;
      average_entry_price = entry_after pm size fill_size fill_price;
    }

  unfoldable pub add_fill : PositionManager → ℤ → Double → Option PositionManager
  unfolding increase reduce same_direction
  add_fill pm fill_size fill_price =
      if eqb_ℤ fill_size (pos 0)
      then some pm
      else if eqb_ℤ pm.position_size (pos 0)
      then some (record pm { position_size = fill_size; average_entry_price = fill_price })
      else if same_direction pm.position_size fill_size
      then increase pm fill_size fill_price
      else reduce pm fill_size fill_price

  unfoldable pub get_unrealized_pnl : PositionManager → Double → Double
  get_unrealized_pnl pm current_mid_price =
      mul (of_int pm.position_size) (sub current_mid_price pm.average_entry_price)
