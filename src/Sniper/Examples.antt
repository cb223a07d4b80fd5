-- ===== src/Sniper/Examples.antt =====
-- Tests of nexus/internal/sniper/sniper.go on whole numbers, and the theorems at concrete engines.
use mmh.Prelude.{
  ◌≡◌, refl, inl, inr, ℕ, suc, zero, ◌+◌, String, Bool, true, false, Option, none, some, List, [],
  ◌∷◌, lookup, str_eq,
}
use mmh.Prelude.Int.{ℤ, pos, ◌+ℤ◌, ◌-ℤ◌, ◌*ℤ◌, ◌/ℤ◌}
use mmh.Numbers.Whole.{whole, whole-CanRefund}
use mmh.Exits.{
  Position, open_status, closing, closed, Reason, stop_loss, trailing_stop, ExitConfig, ExitTracker,
  ExitDecision, new_exit_tracker, default_exit_config, sell_all,
}
use mmh.Exits.Examples.{position_at}
use mmh.Sniper.{
  Config, Engine, TokenAnalysis, SwapParams, SwapResult, Verdict, verdict_buy, verdict_wait,
  new_engine, on_discovery, execute_sell, reserve_daily_budget, reset_daily, buy_amount, count_open,
}
use mmh.Sniper.Prices.{reprice, consider, keep}
use mmh.Sniper.Budget.{
  Call, discovers, sells, run, max_spend, spending_bounded, skipped_discovery_spends,
}
use mmh.Sniper.Closing.{IsShut, force_close_closes}
use mmh.Sniper.Running.{force_close}
use mmh.Sniper.Overlap.{begin_sell, finish_sell, status_of, overlapping_sale_reopens}
use mmh.Sniper.Selling.{failed_close_never_retried}

abbrev config : Config
config = record {
  max_buy_sol = pos 2;
  slippage_bps = 200;
  take_profit_multiplier = pos 2;
  stop_loss_pct = pos 50;
  trailing_stop_enabled = true;
  trailing_stop_pct = pos 20;
  max_positions = 5;
  max_daily_loss_sol = pos 10;
  max_daily_spend_sol = pos 5;
  price_check_interval_ms = 5_000;
  min_safety_score = 40;
  auto_sell_after_minutes = 60;
  dry_run = false;
  priority_fee = 100_000;
  use_jito = false;
  max_sell_retries = 3;
}

abbrev token : TokenAnalysis
token = record {
  mint = "m1";
  pool_address = "pool";
  dex = "raydium";
  price_usd = pos 10;
  safety_score = 80;
  verdict = verdict_buy;
}

-- An exchange that answers, and one that does not.
abbrev answers : ℕ → SwapParams → Option SwapResult
answers n p = some (record { signature = "sig"; amount_out = pos 50 })

abbrev silent : ℕ → SwapParams → Option SwapResult
silent n p = none

abbrev fresh : Engine
fresh = new_engine 0 config

abbrev discoveries : List Call
discoveries = discovers 1 "p1" token ∷ discovers 2 "p2" token ∷ discovers 3 "p3" token ∷ []

-- Two purchases of 2 fit into a limit of 5, the third does not.
two_purchases : (run answers discoveries fresh).daily_spent_sol ≡ pos 4
unfolding run mmh.Sniper.Budget.step on_discovery reserve_daily_budget reset_daily
    mmh.Sniper.execute_buy mmh.Sniper.buy_result new_engine new_exit_tracker default_exit_config
    mmh.Prelude.insert ◌+ℤ◌ ◌-ℤ◌ ◌*ℤ◌ ◌/ℤ◌
two_purchases = refl

spending_bounded_example :
    whole.greater_than (run answers discoveries fresh).daily_spent_sol (max_spend config) ≡ false
unfolding new_engine
spending_bounded_example =
    spending_bounded config whole-CanRefund refl refl answers discoveries fresh refl refl

abbrev waiting : TokenAnalysis
waiting = record token { verdict = verdict_wait }

abbrev stopped : ExitDecision
stopped = sell_all (new_exit_tracker "p1" (pos 50) default_exit_config) stop_loss

abbrev empty_tracker : ExitTracker
empty_tracker = record (new_exit_tracker "p1" (pos 50) default_exit_config) {
  remaining_pct = pos 0;
}

abbrev selling_position : Position
selling_position = record (position_at 4) { status = closing }

abbrev selling : Engine
selling = record fresh {
  positions = ("p1", selling_position) ∷ [];
  trackers = ("p1", some empty_tracker) ∷ [];
}

failed_close_never_retried_example :
    (pos' : Position) × (lookup "p1" (execute_sell silent 2 "p1" stop_loss selling).positions
      ≡ some pos')
    × (pos'.status ≡ open_status)
    × ((later : ℕ) (price : ℤ)
        → consider later (execute_sell silent 2 "p1" stop_loss selling) (reprice price pos')
          ≡ some keep)
unfolding new_engine mmh.Exits.apply_decision lookup
failed_close_never_retried_example =
    failed_close_never_retried refl silent 2 "p1" stop_loss selling selling_position stopped
      (new_exit_tracker "p1" (pos 50) default_exit_config) empty_tracker refl refl refl refl refl
      refl refl refl refl

abbrev bought : Engine
bought = run answers discoveries fresh

open_after_purchases : count_open bought.positions ≡ 2
unfolding run mmh.Sniper.Budget.step on_discovery reserve_daily_budget reset_daily
    mmh.Sniper.execute_buy mmh.Sniper.buy_result new_engine new_exit_tracker default_exit_config
    mmh.Prelude.insert ◌+ℤ◌ ◌-ℤ◌ ◌*ℤ◌ ◌/ℤ◌
open_after_purchases = refl

force_close_closes_example : IsShut "p1" (force_close answers 5 bought)
force_close_closes_example =
    force_close_closes answers 5 bought "p1"
      (λ n p. (record { signature = "sig"; amount_out = pos 50 }, refl))

-- The first swap is answered, the second is not.
abbrev answers_once : ℕ → SwapParams → Option SwapResult
answers_once zero p = answers zero p
answers_once (suc n) p = none

abbrev one_open : Engine
one_open = record fresh { positions = ("p1", position_at 4) ∷ [] }

overlapping_sale_reopens_example :
    (e₁ e₂ : Engine) × (begin_sell "p1" one_open ≡ some e₁)
    × (begin_sell "p1" e₁ ≡ some e₂)
    × (status_of "p1" (finish_sell answers_once 5 "p1" stop_loss e₂) ≡ some closed)
    × ((finish_sell answers_once 5 "p1" stop_loss e₂).total_sells ≡ 1)
    × (status_of "p1" (
          finish_sell answers_once 6 "p1" trailing_stop
            (finish_sell answers_once 5 "p1" stop_loss e₂))
        ≡ some open_status)
    × (lookup "p1"
          (finish_sell answers_once 6 "p1" trailing_stop
            (finish_sell answers_once 5 "p1" stop_loss e₂)).trackers
        ≡ some none)
unfolding new_engine lookup
overlapping_sale_reopens_example =
    overlapping_sale_reopens answers_once 5 6 "p1" stop_loss trailing_stop one_open (position_at 4)
      (record { signature = "sig"; amount_out = pos 50 }) refl refl refl refl refl
