-- ===== src/Positions/Profit.antt =====
-- `PositionManager` as an account: what fills do to the size, the entry price and the profit.
use low_latency_prediction_m.Base.{ℕ, ◌+◌, ◌^◌, ◌≤◌, ◌<◌, ◌≡◌, sym, ◌∙◌, ap, some, inl, inr, arith}
use mathlib.Core.Path.{ap₂}
use low_latency_prediction_m.Base.Int.{
  ℤ, pos, ◌+ℤ◌, neg, above_zero, below_zero, magnitude, parts-+ℤ, parts-neg, eq_of_parts,
}
use low_latency_prediction_m.Base.Double.{Arithmetic, IsExact}
use low_latency_prediction_m.Positions.{
  PositionManager, close, entry_after, add_fill, get_unrealized_pnl,
}
use low_latency_prediction_m.Positions.Filled.{
  weighted, increased, closed, reduced, IsSame, IsOpposite, direction, add_fill-none, add_fill-flat,
  add_fill-along, add_fill-against,
}
use low_latency_prediction_m.Positions.Entry.{entry_after-IsEntry}
use native.Mathlib.Decide.{dec_lt, ℕ_discrete}
use low_latency_prediction_m.Positions.Average.{balance, balance_short, merge}
use low_latency_prediction_m.Positions.Algebra.{
  gain, add-zero, add_left_comm, zero-gain, gain-+ℤ, gain-chain, gain-neg,
}

module _ {d : Arithmetic} (e : IsExact d) where
  open d use {Double, of_int, add, sub, mul, div}

  -- The profit of the account at the market price `mid`, realised and unrealised.
  abbrev pub total_pnl : PositionManager d → Double → Double
  total_pnl pm mid = add pm.realized_pnl (get_unrealized_pnl d pm mid)

  -- The division that gives the average entry price has no rounding error.
  abbrev pub IsWeighted : PositionManager d → ℤ → Double → Type 0
  IsWeighted pm f p =
      let total = of_int (pos (magnitude pm.position_size) +ℤ pos (magnitude f)) in
      mul (div (weighted d pm f p) total) total ≡ weighted d pm f p

  module _ (pm : PositionManager d) (f : ℤ) (p : Double) where
    close_long :
        (c : ℕ)
        → 0 < above_zero pm.position_size
        → close d pm (pos c) p ≡ add pm.realized_pnl (gain e (pos c) p pm.average_entry_price)
    unfolding close
    close_long c long = ground arith

    close_short :
        (c : ℕ)
        → 0 < below_zero pm.position_size
        → close d pm (pos c) p ≡ add pm.realized_pnl (gain e (neg (pos c)) p pm.average_entry_price)
    unfolding close
    close_short c short = rw (gain-neg e (pos c) p pm.average_entry_price) (ground arith)

    -- What is closed has the sign of the position.
    close_signed :
        (t : ℤ)
        → IsOpposite pm.position_size f
        → (0 < above_zero pm.position_size → pos (closed d pm.position_size f) ≡ t)
        → (0 < below_zero pm.position_size → neg (pos (closed d pm.position_size f)) ≡ t)
        → close d pm (pos (closed d pm.position_size f)) p
          ≡ add pm.realized_pnl (gain e t p pm.average_entry_price)
    close_signed t (inl (long, _)) el es =
        rw (← el long) (close_long (closed d pm.position_size f) long)
    close_signed t (inr (short, _)) el es =
        rw (← es short) (close_short (closed d pm.position_size f) short)

    close_part :
        IsOpposite pm.position_size f
        → magnitude f < magnitude pm.position_size
        → close d pm (pos (closed d pm.position_size f)) p
          ≡ add pm.realized_pnl (gain e (neg f) p pm.average_entry_price)
    close_part opposite part =
        close_signed (neg f) opposite (λ long. eq_of_parts _ _ (ground (arith, parts-neg f)))
          (λ short.
            eq_of_parts _ _
              (ground (arith, parts-neg f, parts-neg (pos (closed d pm.position_size f)))))

    close_whole :
        IsOpposite pm.position_size f
        → magnitude pm.position_size ≤ magnitude f
        → close d pm (pos (closed d pm.position_size f)) p
          ≡ add pm.realized_pnl (gain e pm.position_size p pm.average_entry_price)
    close_whole opposite whole =
        close_signed pm.position_size opposite (λ long. eq_of_parts _ _ (ground arith))
          (λ short. eq_of_parts _ _ (ground (arith, parts-neg (pos (closed d pm.position_size f)))))

    -- The account keeps its balance: `pm'` is worth at every price what `pm` and the fill are.
    abbrev IsBalanced : PositionManager d → Type 0
    IsBalanced pm' = (mid : Double) → total_pnl pm' mid ≡ add (total_pnl pm mid) (gain e f mid p)

    none-IsBalanced : f ≡ pos 0 → IsBalanced pm
    none-IsBalanced z mid = rw (z, zero-gain e mid p) (sym (add-zero e (total_pnl pm mid)))

    flat-IsBalanced :
        pm.position_size ≡ pos 0
        → IsBalanced (record pm { position_size = f; average_entry_price = p })
    unfolding get_unrealized_pnl
    flat-IsBalanced z mid =
        let nothing : gain e pm.position_size mid pm.average_entry_price ≡ of_int (pos 0) =
          ap (λ s. gain e s mid pm.average_entry_price) z
          ∙ zero-gain e mid pm.average_entry_price in
        ap (λ t. add t (gain e f mid p))
          (sym (ap (add pm.realized_pnl) nothing ∙ add-zero e pm.realized_pnl))

    increased-IsBalanced :
        IsSame pm.position_size f → IsWeighted pm f p → IsBalanced (increased d pm f p)
    unfolding get_unrealized_pnl
    increased-IsBalanced same w mid =
        ap (add pm.realized_pnl) (
          merge e pm.position_size f mid pm.average_entry_price p
            (increased d pm f p).average_entry_price (balanced same))
        ∙ sym (e.add_assoc _ _ _)
      where
        s : ℤ
        s = pos (magnitude pm.position_size)

        n : ℤ
        n = pos (magnitude f)

        a : Double
        a = (increased d pm f p).average_entry_price

        long : add (gain e s pm.average_entry_price a) (gain e n p a) ≡ of_int (pos 0)
        long = balance e s n pm.average_entry_price p a w

        balanced :
            IsSame pm.position_size f
            → add (gain e pm.position_size pm.average_entry_price a) (gain e f p a) ≡ of_int (pos 0)
        balanced (inl up) =
            let es : pm.position_size ≡ s = eq_of_parts _ _ (ground arith) in
            let ef : f ≡ n = eq_of_parts _ _ (ground arith) in
            ap₂ (λ s f. add (gain e s pm.average_entry_price a) (gain e f p a)) es ef ∙ long
        balanced (inr down) =
            let es : pm.position_size ≡ neg s = eq_of_parts _ _ (ground (arith, parts-neg s)) in
            let ef : f ≡ neg n = eq_of_parts _ _ (ground (arith, parts-neg n)) in
            ap₂ (λ s f. add (gain e s pm.average_entry_price a) (gain e f p a)) es ef
            ∙ ap₂ add (gain-neg e s pm.average_entry_price a) (gain-neg e n p a)
            ∙ balance_short e s n pm.average_entry_price p a long

    -- What is left after a partial close is worth what the position and the fill are.
    part_value :
        (mid a : Double)
        → add (gain e (neg f) p a) (gain e (pm.position_size +ℤ f) mid a)
          ≡ add (gain e pm.position_size mid a) (gain e f mid p)
    part_value mid a =
        ap₂ add (gain-neg e f p a) (gain-+ℤ e pm.position_size f mid a)
        ∙ add_left_comm e (gain e f a p) (gain e pm.position_size mid a) (gain e f mid a)
        ∙ ap (add (gain e pm.position_size mid a))
            (e.add_comm (gain e f a p) (gain e f mid a) ∙ gain-chain e f mid a p)

    whole_value :
        (mid a : Double)
        → add (gain e pm.position_size p a) (gain e (pm.position_size +ℤ f) mid p)
          ≡ add (gain e pm.position_size mid a) (gain e f mid p)
    whole_value mid a =
        ap (add (gain e pm.position_size p a)) (gain-+ℤ e pm.position_size f mid p)
        ∙ sym (e.add_assoc _ _ _)
        ∙ ap (λ t. add t (gain e f mid p))
            (e.add_comm (gain e pm.position_size p a) (gain e pm.position_size mid p)
              ∙ gain-chain e pm.position_size mid p a)

    reduced-IsBalanced : IsOpposite pm.position_size f → IsBalanced (reduced d pm f p)
    unfolding get_unrealized_pnl
    reduced-IsBalanced opposite mid = elim (dec_lt (magnitude f) (magnitude pm.position_size)) [
      | yes part ↦
          let kept : entry ≡ a = (entry_after-IsEntry d pm f p opposite).2 opposite part in
          ap₂ (λ r x. add r (gain e next mid x)) (close_part opposite part) kept
          ∙ e.add_assoc _ _ _
          ∙ ap (add pm.realized_pnl) (part_value mid a)
          ∙ sym (e.add_assoc _ _ _)
      | no whole ↦
          ap₂ add (close_whole opposite (omega arith)) (rest whole)
          ∙ e.add_assoc _ _ _
          ∙ ap (add pm.realized_pnl) (whole_value mid a)
          ∙ sym (e.add_assoc _ _ _)
    ]
      where
        a : Double
        a = pm.average_entry_price

        next : ℤ
        next = pm.position_size +ℤ f

        entry : Double
        entry = entry_after d pm next f p

        rest :
            ¬ (magnitude f < magnitude pm.position_size) → gain e next mid entry ≡ gain e next mid p
        rest whole = elim (ℕ_discrete (magnitude f) (magnitude pm.position_size)) [
          | yes same ↦
              let flat : next ≡ pos 0 =
                eq_of_parts _ _ (ground (arith, parts-+ℤ pm.position_size f)) in
              ap (λ z. gain e z mid entry) flat
              ∙ zero-gain e mid entry
              ∙ sym (ap (λ z. gain e z mid p) flat ∙ zero-gain e mid p)
          | no more ↦
              ap (gain e next mid)
                ((entry_after-IsEntry d pm f p opposite).3 opposite (omega arith))
        ]

  -- Where sums and products are exact, and so is the average of a fill that adds to the position: the
  -- realised and unrealised profit after the fill is, at every market price, the profit before it and
  -- what the fill itself has gained from its own price.
  pub add_fill-total_pnl :
      (pm : PositionManager d) (f : ℤ) (p : Double)
      → magnitude pm.position_size + magnitude f < 2 ^ 31
      → (IsSame pm.position_size f → IsWeighted pm f p)
      → (pm' : PositionManager d) × (add_fill d pm f p ≡ some pm')
        × ((mid : Double) → total_pnl pm' mid ≡ add (total_pnl pm mid) (mul (of_int f) (sub mid p)))
  add_fill-total_pnl pm f p fits exact = elim (direction pm.position_size f) [
    | inl z ↦ (pm, add_fill-none d pm f p z, none-IsBalanced pm f p z)
    | inr (ne, inl z) ↦ (_, add_fill-flat d pm f p z ne, flat-IsBalanced pm f p z)
    | inr (_, inr (inl same)) ↦
        (_, add_fill-along d pm f p fits same, increased-IsBalanced pm f p same (exact same))
    | inr (_, inr (inr opposite)) ↦
        (_, add_fill-against d pm f p fits opposite, reduced-IsBalanced pm f p opposite)
  ]
