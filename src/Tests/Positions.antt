-- ===== src/Tests/Positions.antt =====
-- `PositionManagerTest`, in cents, and the theorems on `PositionManager` at its fills.
use low_latency_prediction_m.Base.{◌≡◌, ◌⊎◌, refl, none, some, arith}
use low_latency_prediction_m.Base.Int.{ℤ, pos, negsuc, ◌+ℤ◌, neg}
use low_latency_prediction_m.Positions.{
  PositionManager, abs_int, same_direction, reduce, close, entry_after, add_fill,
  get_unrealized_pnl,
}
use low_latency_prediction_m.Positions.Filled.{IsOpposite}
use low_latency_prediction_m.Positions.Entry.{IsEntry, add_fill-IsEntry}
use low_latency_prediction_m.Positions.Profit.{total_pnl, add_fill-total_pnl}
use low_latency_prediction_m.Tests.Cents.{◌*ℤ◌, cents, cents-IsExact}

abbrev account : ℤ → ℤ → ℤ → PositionManager cents
account size pnl entry = record {
  position_size = size;
  realized_pnl = pnl;
  average_entry_price = entry;
}

long_open :
    (add_fill cents (account (pos 0) (pos 0) (pos 0)) (pos 10) (pos 50)
      ≡ some (account (pos 10) (pos 0) (pos 50)))
    × (get_unrealized_pnl cents (account (pos 10) (pos 0) (pos 50)) (pos 55) ≡ pos 50)
unfolding add_fill get_unrealized_pnl ◌*ℤ◌ ◌+ℤ◌ neg
long_open = (refl, refl)

long_close :
    add_fill cents (account (pos 10) (pos 0) (pos 50)) (negsuc 3) (pos 60)
    ≡ some (account (pos 6) (pos 40) (pos 50))
unfolding add_fill same_direction reduce abs_int close entry_after ◌*ℤ◌ ◌+ℤ◌ neg
long_close = refl

flips :
    add_fill cents (account (pos 5) (pos 0) (pos 40)) (negsuc 7) (pos 45)
    ≡ some (account (negsuc 2) (pos 25) (pos 45))
unfolding add_fill same_direction reduce abs_int close entry_after ◌*ℤ◌ ◌+ℤ◌ neg
flips = refl

-- The most negative `int` has no absolute value.
overflows : add_fill cents (account (pos 5) (pos 0) (pos 40)) (negsuc 2147483647) (pos 45) ≡ none
unfolding add_fill same_direction reduce abs_int neg
overflows = refl

add_fill-IsEntry_example :
    let old = account (pos 5) (pos 0) (pos 40) in
    (pm : PositionManager cents) × (add_fill cents old (negsuc 7) (pos 45) ≡ some pm)
    × IsEntry cents old (negsuc 7) (pos 45) pm.average_entry_price
    × (IsOpposite (pos 5) (negsuc 7) ⊎ (pm.realized_pnl ≡ pos 0))
add_fill-IsEntry_example =
    add_fill-IsEntry cents (account (pos 5) (pos 0) (pos 40)) (negsuc 7) (pos 45) (omega arith)
      (λ e. ground arith)

-- Ten at 50 and ten at 60 make twenty at 55.
add_fill-total_pnl_example :
    let old = account (pos 10) (pos 0) (pos 50) in
    (pm : PositionManager cents) × (add_fill cents old (pos 10) (pos 60) ≡ some pm)
    × ((mid : ℤ)
        → total_pnl cents-IsExact pm mid
          ≡ total_pnl cents-IsExact old mid +ℤ pos 10 *ℤ (mid +ℤ neg (pos 60)))
unfolding ◌*ℤ◌ ◌+ℤ◌
add_fill-total_pnl_example =
    add_fill-total_pnl cents-IsExact (account (pos 10) (pos 0) (pos 50)) (pos 10) (pos 60)
      (omega arith) (λ same. refl)
