-- ===== src/Position/Examples.antt =====
-- Tests of the position manager on whole numbers, and the theorems at concrete fills.
use mmh.Prelude.{◌≡◌, refl, ℕ, ◌+◌, true, none, some, String, List, [], ◌∷◌, lookup, insert, str_eq}
use mmh.Prelude.Int.{pos, negsuc, ◌+ℤ◌, ◌-ℤ◌, ◌*ℤ◌, ◌/ℤ◌}
use mmh.Numbers.{is_zero}
use mmh.Numbers.Whole.{whole, whole-IsGroup}
use mmh.Position.{
  Fill, PositionManager, position_key, global_key, side_from_qty, same_direction,
  apply_fill_to_position, flat, apply_fill, apply_fills, new_position_manager, get_position,
  get_global_position, strategy_pnl, total_exposure_usd,
}
use mmh.Position.Effect.{apply_fill_to_position_effect}
use mmh.Position.Refinement.{
  replay, keep, key_of, flat_of, global_key_of, global_flat_of, apply_fills_refines,
}
use mmh.Position.Netting.{sum_qty, netted}

abbrev pub trade : String → String → ℕ → ℕ → Fill
trade strategy side q p = record {
  event_id = "e";
  timestamp = 5;
  trace_id = "t";
  exchange = "kraken";
  symbol = "SOL";
  order_id = "x1";
  intent_id = "i1";
  strategy_id = strategy;
  side = side;
  qty = pos q;
  price = pos p;
  fee = pos 1;
  fee_currency = "USD";
  expected_price = pos p;
  slippage_bps = pos 0;
}

abbrev history : List Fill
history =
    trade "a" "buy" 4 10
    ∷ trade "b" "sell" 3 11
    ∷ trade "a" "buy" 4 20
    ∷ trade "a" "sell" 10 30
    ∷ []

abbrev manager : PositionManager
manager = apply_fills new_position_manager history

-- Strategy "a" buys 8 at 15 on average, sells them at 30, and is short 2 from 30.
flips :
    get_position "a" "kraken" "SOL" manager
    ≡ some (record (flat "a" "kraken" "SOL") {
      side = "short";
      qty = negsuc 1;
      avg_entry = pos 30;
      realized_pnl = pos 120;
      total_fees = pos 3;
      opened_at = 5;
      updated_at = 5;
      trade_count = 3;
    })
unfolding get_position apply_fills apply_fill apply_fill_to_position new_position_manager flat
    position_key global_key lookup insert ◌+ℤ◌ ◌-ℤ◌ ◌*ℤ◌ ◌/ℤ◌
flips = refl

pnl : strategy_pnl "a" manager ≡ pos 120
unfolding strategy_pnl apply_fills apply_fill apply_fill_to_position new_position_manager flat
    position_key global_key lookup insert ◌+ℤ◌ ◌-ℤ◌ ◌*ℤ◌ ◌/ℤ◌
pnl = refl

exposure : total_exposure_usd manager ≡ pos 150
unfolding total_exposure_usd apply_fills apply_fill apply_fill_to_position new_position_manager flat
    position_key global_key lookup insert ◌+ℤ◌ ◌-ℤ◌ ◌*ℤ◌ ◌/ℤ◌
exposure = refl

apply_fill_to_position_effect_example :
    let pos' = apply_fill_to_position (flat "a" "kraken" "SOL") (pos 10) (pos 4) (pos 1) 5 in
    (pos'.qty ≡ pos 0 +ℤ pos 4)
    × (pos'.side ≡ side_from_qty pos'.qty)
    × (pos'.total_fees ≡ pos 0 +ℤ pos 1)
    × (pos'.trade_count ≡ 0 + 1)
    × (pos'.updated_at ≡ 5)
    × (is_zero (pos 0) ≡ true → pos'.realized_pnl ≡ pos 0)
    × (same_direction (pos 0) (pos 4) ≡ true → pos'.realized_pnl ≡ pos 0)
unfolding flat
apply_fill_to_position_effect_example =
    apply_fill_to_position_effect (flat "a" "kraken" "SOL") (pos 10) (pos 4) (pos 1) 5

apply_fills_refines_example :
    (get_position "a" "kraken" "SOL" manager
      ≡ replay flat_of none
          (keep (λ f. str_eq (key_of f) (position_key "a" "kraken" "SOL")) history))
    × (get_global_position "kraken" "SOL" manager
        ≡ replay global_flat_of none
            (keep (λ f. str_eq (global_key_of f) (global_key "kraken" "SOL")) history))
apply_fills_refines_example = apply_fills_refines "a" "kraken" "SOL" history

netted_example : sum_qty manager.positions ≡ sum_qty manager.global_pos
netted_example = netted whole-IsGroup history
