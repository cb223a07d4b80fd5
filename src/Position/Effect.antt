-- ===== src/Position/Effect.antt =====
-- What one fill does to a position of nexus/internal/execution/position.go.
use mmh.Prelude.{◌≡◌, ℕ, ◌+◌, true, arith}
use mmh.Numbers.{Numbers, is_zero}
use mmh.Position.{Position, side_from_qty, same_direction, apply_fill_to_position}

module _ ⦃N : Numbers⦄ where
  -- Whatever the branch, the quantity grows by the signed quantity of the fill, the fee is added, the
  -- trade is counted, and the side is the one that the new quantity shows. A realized profit or
  -- loss is booked only by a fill against the position.
  pub apply_fill_to_position_effect :
      (pos : Position) (price signed_qty fee : N.Decimal) (ts : ℕ)
      → let pos' = apply_fill_to_position pos price signed_qty fee ts in
        (pos'.qty ≡ N.add pos.qty signed_qty)
        × (pos'.side ≡ side_from_qty pos'.qty)
        × (pos'.total_fees ≡ N.add pos.total_fees fee)
        × (pos'.trade_count ≡ pos.trade_count + 1)
        × (pos'.updated_at ≡ ts)
        × (is_zero pos.qty ≡ true → pos'.realized_pnl ≡ pos.realized_pnl)
        × (same_direction pos.qty signed_qty ≡ true → pos'.realized_pnl ≡ pos.realized_pnl)
  unfolding apply_fill_to_position
  apply_fill_to_position_effect pos price signed_qty fee ts = ground arith
