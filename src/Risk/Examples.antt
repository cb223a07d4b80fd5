-- ===== src/Risk/Examples.antt =====
-- Tests of the risk engine on whole numbers, and the theorems at concrete engines.
use mmh.Prelude.{◌≡◌, refl, ◌↔◌, ◌+◌, ◌&&◌, true, false, List, [], ◌∷◌, lookup}
use mmh.Prelude.Int.{pos, negsuc, ◌+ℤ◌, ◌*ℤ◌}
use mmh.Numbers.Whole.{whole}
use mmh.Order.Examples.{sample_intent}
use mmh.Risk.{
  Config, Engine, kill_switch_active, exposure_exceeded, new, check, kill, update_pnl, is_active,
  step, Call, checks, freezes, resumes, updates_exposure, run,
}
use mmh.Risk.Policies.{check_effect}
use mmh.Risk.History.{after, pnl_after, exposure_after, kill_after, freeze_after, check_by_history}
use mmh.Risk.Halts.{kill_is_final, loss_limit_holds}

abbrev pub limits : Config
limits = record {
  max_daily_loss_usd = pos 100;
  max_total_exposure_usd = pos 500;
  max_position_per_symbol = pos 20;
  max_notional_per_order = pos 80;
  cooldown_after_losses = 3;
  cooldown_minutes = 5;
  feed_lag_threshold_ms = 500;
  order_reject_spike_threshold = 5;
}

abbrev pub engine : Engine
engine = new limits

-- An order of 10 at 7 passes; at exposure 450 it does not.
allows : (check sample_intent 1 engine).1.allowed ≡ true
unfolding check new lookup ◌+ℤ◌ ◌*ℤ◌
allows = refl

abbrev exposed : Engine
exposed = run (updates_exposure (pos 450) ∷ []) engine

denies :
    (check sample_intent 1 exposed).1.reason_codes
    ≡ exposure_exceeded (pos 450) (pos 70) (pos 500) ∷ []
unfolding check new run step lookup ◌+ℤ◌ ◌*ℤ◌
denies = refl

abbrev history : List Call
history = freezes ∷ updates_exposure (pos 450) ∷ resumes ∷ []

check_by_history_example : ((check sample_intent 1 (run history (new limits))).1.allowed ≡ true) ↔ (
    (after kill_after history false ≡ false)
    × (after (freeze_after (pos 100)) history false ≡ false)
    × (whole.flt (after pnl_after history (pos 0)) (whole.fneg (pos 100)) ≡ false)
    × (whole.flt
          (pos 500)
          (whole.fadd (after exposure_after history (pos 0)) (whole.fmul (pos 10) (pos 7)))
        ≡ false)
    × (whole.flt (pos 80) (whole.fmul (pos 10) (pos 7)) ≡ false)
    × ((whole.flt (pos 0) (pos 20) && whole.flt (pos 20) (whole.fadd (pos 0) (pos 10))) ≡ false))
check_by_history_example = check_by_history limits history sample_intent 1

check_effect_example :
    let (e', d) = check sample_intent 1 exposed in
    ((d.allowed ≡ true) ↔ (d.reason_codes ≡ []))
    × (d.intent_id ≡ "i1")
    × (e' ≡ record exposed { allowed = e'.allowed; denied = e'.denied })
    × (exposed.killed ≡ false
        → exposed.frozen ≡ false
        → e'.allowed + e'.denied ≡ exposed.allowed + exposed.denied + 1)
    × (d.allowed ≡ true → e'.allowed ≡ exposed.allowed + 1)
check_effect_example = check_effect sample_intent 1 exposed

abbrev calls : List Call
calls = resumes ∷ checks sample_intent 2 ∷ freezes ∷ resumes ∷ []

kill_is_final_example :
    let e' = run calls (kill engine) in
    (is_active e' ≡ false)
    × (check sample_intent 3 e' ≡ (
      e',
      record {
        intent_id = "i1";
        allowed = false;
        reason_codes = kill_switch_active ∷ [];
        timestamp = 3;
      },
    ))
kill_is_final_example = kill_is_final calls sample_intent 3 engine

loss_limit_holds_example :
    ((update_pnl (negsuc 100) engine).frozen ≡ true)
    × ((check sample_intent 3 (run calls (update_pnl (negsuc 100) engine))).1.allowed ≡ false)
unfolding new
loss_limit_holds_example =
    loss_limit_holds (negsuc 100) calls sample_intent 3 engine refl (tt, (tt, (tt, (tt, tt))))
