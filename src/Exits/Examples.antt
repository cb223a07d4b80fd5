-- ===== src/Exits/Examples.antt =====
-- Tests of the exit engine on whole numbers, and the theorems at concrete positions. Percentages
-- that divide 100 evenly come out as 0 or 1 in whole numbers.
use mmh.Prelude.{◌≡◌, refl, ℕ, ◌+◌, ◌≤◌, true, false, none, some, [], ◌∷◌, length}
use mmh.Prelude.Int.{pos, ◌+ℤ◌, ◌-ℤ◌, ◌*ℤ◌, ◌/ℤ◌, leb_ℤ}
use mmh.Numbers.Whole.{whole}
use mmh.Exits.{
  PositionStatus, open_status, Reason, no_reason, stop_loss, take_profit, timed_exit_4h,
  timed_exit_reason, Position, TpLevel, TimedExit, ExitConfig, ExitTracker, ExitDecision,
  new_exit_tracker, evaluate, apply_decision, count_sales, sell_share, float, remaining_tokens,
}
use mmh.Exits.Total.{IsJustified, new_exit_tracker-Fits, evaluate_total}
use mmh.Exits.Bounded.{sales_bounded}

abbrev config : ExitConfig
config = record {
  tp_levels =
      record { multiplier = pos 2; sell_pct = pos 0 }
      ∷ record { multiplier = pos 6; sell_pct = pos 100 }
      ∷ [];
  stop_loss_pct = pos 100;
  trailing_stop_enabled = true;
  trailing_stop_pct = pos 100;
  timed_exits =
      record { after_minutes = 240; sell_pct = pos 0 }
      ∷ record { after_minutes = 480; sell_pct = pos 0 }
      ∷ [];
  panic_liq_drop_pct = pos 50;
  panic_whale_sell_sol = pos 100;
}

abbrev pub position_at : ℕ → Position
position_at price = record {
  id = "p1";
  token_mint = "m1";
  pool_address = "pool";
  dex = "raydium";
  entry_price_usd = pos 10;
  amount_token = pos 50;
  cost_sol = pos 1;
  current_price = pos price;
  highest_price = pos price;
  pnl_pct = pos 0;
  safety_score = 80;
  buy_signature = "s";
  sell_signature = "";
  status = open_status;
  opened_at = 0;
  closed_at = none;
  close_reason = no_reason;
  sell_retries = 0;
}

abbrev tracker : ExitTracker
tracker = new_exit_tracker "p1" (pos 50) config

first_level :
    evaluate config 1 (position_at 25) tracker ≡ some (sell_share tracker (pos 0) (take_profit 1))
unfolding evaluate mmh.Exits.check_stop_loss mmh.Exits.check_multi_tp mmh.Exits.check_trailing_stop
    mmh.Exits.check_timed_exits new_exit_tracker ◌+ℤ◌ ◌-ℤ◌ ◌*ℤ◌ ◌/ℤ◌
first_level = refl

-- Level 1, then level 6 for the rest, then nothing.
two_sales :
    count_sales config tracker
      ((1, position_at 25) ∷ (2, position_at 70) ∷ (3, position_at 80) ∷ [])
    ≡ some 2
unfolding count_sales mmh.Exits.exit_step evaluate apply_decision mmh.Exits.check_stop_loss
    mmh.Exits.check_multi_tp mmh.Exits.check_trailing_stop mmh.Exits.check_timed_exits
    mmh.Exits.mark_all mmh.Exits.mark_at mmh.Exits.level_reasons mmh.Exits.timed_reasons
    timed_exit_reason new_exit_tracker ◌+ℤ◌ ◌-ℤ◌ ◌*ℤ◌ ◌/ℤ◌
two_sales = refl

evaluate_total_example :
    (d : ExitDecision) × (evaluate config 1 (position_at 25) tracker ≡ some d)
    × (d.should_sell ≡ true
        → (open_status ≡ open_status)
          × (leb_ℤ tracker.remaining_pct (pos 0) ≡ false)
          × IsJustified config tracker d)
evaluate_total_example =
    evaluate_total config 1 (position_at 25) tracker (new_exit_tracker-Fits "p1" (pos 50) config)

sales_bounded_example :
    (n : ℕ) × (count_sales config tracker ((1, position_at 25) ∷ (2, position_at 70) ∷ []) ≡ some n)
    × (n ≤ length config.tp_levels + length config.timed_exits + 1)
sales_bounded_example =
    sales_bounded config "p1" (pos 50) ((1, position_at 25) ∷ (2, position_at 70) ∷ []) refl

abbrev four_hours : ExitDecision
four_hours = record {
  should_sell = true;
  sell_amount = pos 0;
  sell_pct = pos 0;
  reason = timed_exit_4h;
  is_full_close = false;
}
