-- ===== src/Position.antt =====
-- nexus/internal/execution/position.go: positions by strategy and netted over strategies. The two maps
-- of pointers are association lists of values: only `ApplyFill` writes to a position. A side is a
-- text, as in the source. `TradeCount` is a number without bound; times are in nanoseconds. The
-- mutex is left out: a fill is applied in one step.
pub mod Effect
pub mod Refinement
pub mod Netting
pub mod Examples
use Prim.Native.String.{◌++◌}
use mmh.Prelude.{
  ℕ, ◌+◌, String, Bool, true, false, Option, none, some, List, [], ◌∷◌, foldl, ◌&&◌, ◌||◌,
  if◌then◌else◌, Map, lookup, insert, str_eq, not,
}
use mmh.Numbers.{Numbers, Sign, negative, nought, positive, is_zero}

module _ ⦃N : Numbers⦄ where
  pub record Position : Type 0 where
    pub strategy_id : String
    pub exchange : String
    pub symbol : String
    pub side : String
    pub qty : N.Decimal
    pub avg_entry : N.Decimal
    pub unrealized_pnl : N.Decimal
    pub realized_pnl : N.Decimal
    pub total_fees : N.Decimal
    pub opened_at : ℕ
    pub updated_at : ℕ
    pub trade_count : ℕ

  -- bus.Fill, with the fields of its BaseEvent that are read.
  pub record Fill : Type 0 where
    pub event_id : String
    pub timestamp : ℕ
    pub trace_id : String
    pub exchange : String
    pub symbol : String
    pub order_id : String
    pub intent_id : String
    pub strategy_id : String
    pub side : String
    pub qty : N.Decimal
    pub price : N.Decimal
    pub fee : N.Decimal
    pub fee_currency : String
    pub expected_price : N.Decimal
    pub slippage_bps : N.Float

  pub record PositionManager : Type 0 where
    pub positions : Map Position
    pub global_pos : Map Position

  unfoldable pub new_position_manager : PositionManager
  new_position_manager = record { positions = []; global_pos = [] }

-- `fmt.Sprintf("%s.%s.%s", …)`
unfoldable pub position_key : String → String → String → String
position_key strategy_id exchange symbol = strategy_id ++ "." ++ exchange ++ "." ++ symbol

unfoldable pub global_key : String → String → String
global_key exchange symbol = exchange ++ "." ++ symbol

abbrev pub same_sign : Sign → Sign → Bool
same_sign positive positive = true
same_sign negative negative = true
same_sign nought nought = true
same_sign _ _ = false

module _ ⦃N : Numbers⦄ where
  unfoldable pub side_from_qty : N.Decimal → String
  side_from_qty qty = elim (N.sign qty) [ positive ↦ "long" | negative ↦ "short" | nought ↦ "flat" ]

  -- Both quantities are above zero, or both below.
  unfoldable pub same_direction : N.Decimal → N.Decimal → Bool
  same_direction old_qty signed_qty =
      let s = N.sign old_qty in
      let t = N.sign signed_qty in
      (same_sign s positive && same_sign t positive)
      || (same_sign s negative && same_sign t negative)

  -- Case 2: the position grows.
  unfoldable pub add_to_position : Position → N.Decimal → N.Decimal → Position
  unfolding side_from_qty
  add_to_position pos fill_price signed_qty =
      let abs_old = N.abs pos.qty in
      let abs_fill = N.abs signed_qty in
      let new_qty = N.add pos.qty signed_qty in
      let total_cost = N.add (N.mul pos.avg_entry abs_old) (N.mul fill_price abs_fill) in
      let total_qty = N.add abs_old abs_fill in
      record pos {
        avg_entry = N.div total_cost total_qty;
        qty = new_qty;
        side = side_from_qty new_qty;
      }

  -- Case 3: the position shrinks, closes or flips.
  unfoldable pub reduce_position : Position → N.Decimal → N.Decimal → ℕ → Position
  unfolding side_from_qty
  reduce_position pos fill_price signed_qty ts =
      let old_qty = pos.qty in
      let new_qty = N.add old_qty signed_qty in
      let abs_old = N.abs old_qty in
      let abs_fill = N.abs signed_qty in
      let close_qty = if N.less_than abs_fill abs_old then abs_fill else abs_old in
      let gain =
        if same_sign (N.sign old_qty) positive
        then N.sub fill_price pos.avg_entry
        else N.sub pos.avg_entry fill_price in
      let flips = not (same_sign (N.sign new_qty) (N.sign old_qty)) in
      let entry = if flips then fill_price else pos.avg_entry in
      let opened = if flips then ts else pos.opened_at in
      record pos {
        realized_pnl = N.add pos.realized_pnl (N.mul gain close_qty);
        qty = new_qty;
        side = side_from_qty new_qty;
        avg_entry = if is_zero new_qty then N.zero else entry;
        opened_at = if is_zero new_qty then pos.opened_at else opened;
      }

  unfoldable pub apply_fill_to_position :
      Position → N.Decimal → N.Decimal → N.Decimal → ℕ → Position
  unfolding side_from_qty same_direction add_to_position reduce_position
  apply_fill_to_position pos fill_price signed_qty fee ts =
      let counted = record pos {
        total_fees = N.add pos.total_fees fee;
        trade_count = pos.trade_count + 1;
        updated_at = ts;
      } in
      let new_qty = N.add pos.qty signed_qty in
      if is_zero pos.qty
      then record counted {
        avg_entry = fill_price;
        qty = new_qty;
        side = side_from_qty new_qty;
        opened_at = ts;
      }
      else if same_direction pos.qty signed_qty
      then add_to_position counted fill_price signed_qty
      else reduce_position counted fill_price signed_qty ts

  unfoldable pub signed_qty_of : Fill → N.Decimal
  signed_qty_of fill = if str_eq fill.side "sell" then N.neg fill.qty else fill.qty

  -- A position with nothing in it; `UnrealizedPnL` is Go's zero value.
  unfoldable pub flat : String → String → String → Position
  flat strategy_id exchange symbol = record {
    strategy_id = strategy_id;
    exchange = exchange;
    symbol = symbol;
    side = "flat";
    qty = N.zero;
    avg_entry = N.zero;
    unrealized_pnl = N.zero;
    realized_pnl = N.zero;
    total_fees = N.zero;
    opened_at = 0;
    updated_at = 0;
    trade_count = 0;
  }

  abbrev pub found_or : Position → Option Position → Position
  found_or fresh none = fresh
  found_or fresh (some p) = p

  -- `m[key]`, made new where it is missing, with the fill applied to it.
  unfoldable pub apply_at : String → Position → Fill → Map Position → Map Position
  unfolding signed_qty_of
  apply_at key fresh fill m =
      let old = found_or fresh (lookup key m) in
      insert key
        (apply_fill_to_position old fill.price (signed_qty_of fill) fill.fee fill.timestamp) m

  unfoldable pub apply_fill : Fill → PositionManager → PositionManager
  unfolding apply_at
  apply_fill fill pm = record {
    positions =
        apply_at (position_key fill.strategy_id fill.exchange fill.symbol)
          (flat fill.strategy_id fill.exchange fill.symbol) fill pm.positions;
    global_pos =
        apply_at (global_key fill.exchange fill.symbol) (flat "_global" fill.exchange fill.symbol)
          fill pm.global_pos;
  }

  unfoldable pub get_position : String → String → String → PositionManager → Option Position
  get_position strategy_id exchange symbol pm =
      lookup (position_key strategy_id exchange symbol) pm.positions

  unfoldable pub get_global_position : String → String → PositionManager → Option Position
  get_global_position exchange symbol pm = lookup (global_key exchange symbol) pm.global_pos

  -- The loops over the maps, in the order of the list; a Go map gives any order.
  unfoldable pub strategy_pnl : String → PositionManager → N.Decimal
  strategy_pnl strategy_id pm =
      foldl
        (λ total e.
          if str_eq (e.1).strategy_id strategy_id then N.add total (e.1).realized_pnl else total)
        N.zero pm.positions

  unfoldable pub total_exposure_usd : PositionManager → N.Float
  total_exposure_usd pm = N.inexact_float64 (
      foldl
        (λ total e.
          if is_zero (e.1).qty
          then total
          else N.add total (N.mul (N.abs (e.1).qty) (e.1).avg_entry))
        N.zero pm.global_pos)

  -- Any fills in a row.
  unfoldable pub apply_fills : PositionManager → List Fill → PositionManager
  apply_fills pm [] = pm
  apply_fills pm (f ∷ fs) = apply_fills (apply_fill f pm) fs
