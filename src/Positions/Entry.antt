-- ===== src/Positions/Entry.antt =====
-- `PositionManager`: what a fill does to the size and the entry price.
use low_latency_prediction_m.Base.{
  ◌+◌, ◌^◌, ◌<◌, ◌≡◌, ◌≢◌, refl, sym, ◌∙◌, some, ◌⊎◌, inl, inr, arith,
}
use low_latency_prediction_m.Base.Int.{ℤ, pos, ◌+ℤ◌, magnitude, parts-+ℤ, +ℤ_zero, +ℤ_comm}
use low_latency_prediction_m.Base.Double.{Arithmetic}
use low_latency_prediction_m.Positions.{PositionManager, same_direction, entry_after, add_fill}
use low_latency_prediction_m.Positions.Filled.{
  IsOpposite, direction, add_fill-none, add_fill-flat, add_fill-along, add_fill-against,
}

-- A fill that keeps the sum of the sizes in the range of `int` is carried out, and the size moves by
-- exactly the fill's.
pub add_fill-size :
    (d : Arithmetic) (pm : PositionManager d) (f : ℤ) (p : d.Double)
    → magnitude pm.position_size + magnitude f < 2 ^ 31
    → (pm' : PositionManager d) × (add_fill d pm f p ≡ some pm')
      × (pm'.position_size ≡ pm.position_size +ℤ f)
add_fill-size d pm f p fits = elim (direction pm.position_size f) [
  | inl z ↦ (pm, add_fill-none d pm f p z, rw z (sym (+ℤ_zero pm.position_size)))
  | inr (ne, inl z) ↦ (_, add_fill-flat d pm f p z ne, rw z (sym (+ℤ_comm (pos 0) f ∙ +ℤ_zero f)))
  | inr (ne, inr (inl same)) ↦ (_, add_fill-along d pm f p fits same, refl)
  | inr (ne, inr (inr opposite)) ↦ (_, add_fill-against d pm f p fits opposite, refl)
]

-- The entry price after a fill: that of the fill where it opens a position or flips it, 0 where it
-- closes the position exactly, and the old one where it closes a part.
abbrev pub IsEntry : (d : Arithmetic) → PositionManager d → ℤ → d.Double → d.Double → Type 0
IsEntry d pm f p entry =
    (pm.position_size ≡ pos 0 → entry ≡ p)
    × (IsOpposite pm.position_size f
        → magnitude f ≡ magnitude pm.position_size
        → entry ≡ d.of_int (pos 0))
    × (IsOpposite pm.position_size f
        → magnitude f < magnitude pm.position_size
        → entry ≡ pm.average_entry_price)
    × (IsOpposite pm.position_size f → magnitude pm.position_size < magnitude f → entry ≡ p)

pub entry_after-IsEntry :
    (d : Arithmetic) (pm : PositionManager d) (f : ℤ) (p : d.Double)
    → IsOpposite pm.position_size f
    → IsEntry d pm f p (entry_after d pm (pm.position_size +ℤ f) f p)
unfolding entry_after same_direction
entry_after-IsEntry d pm f p opposite = ground (arith, parts-+ℤ pm.position_size f)

-- A fill of a size other than 0 sets the entry price as `IsEntry` says, and realises profit only
-- where it is against the position.
pub add_fill-IsEntry :
    (d : Arithmetic) (pm : PositionManager d) (f : ℤ) (p : d.Double)
    → magnitude pm.position_size + magnitude f < 2 ^ 31
    → f ≢ pos 0
    → (pm' : PositionManager d) × (add_fill d pm f p ≡ some pm')
      × IsEntry d pm f p pm'.average_entry_price
      × (IsOpposite pm.position_size f ⊎ (pm'.realized_pnl ≡ pm.realized_pnl))
add_fill-IsEntry d pm f p fits ne = elim (direction pm.position_size f) [
  | inl z ↦ absurd (ne z)
  | inr (_, inl z) ↦ (_, add_fill-flat d pm f p z ne, ground arith, inr refl)
  | inr (_, inr (inl same)) ↦ (_, add_fill-along d pm f p fits same, ground arith, inr refl)
  | inr (_, inr (inr opposite)) ↦ (
    _,
    add_fill-against d pm f p fits opposite,
    entry_after-IsEntry d pm f p opposite,
    inl opposite,
  )
]
