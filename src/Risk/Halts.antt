-- ===== src/Risk/Halts.antt =====
-- The kill switch, the freeze and the daily loss limit of nexus/internal/risk/engine.go over any calls.
use mmh.Prelude.{◌∙◌, String, lookup, ◌≡◌, refl, ℕ, true, false, List, [], ◌∷◌, arith, All}
use mmh.Numbers.{Numbers}
use mmh.Order.{OrderIntent}
use mmh.Risk.{
  Config, Engine, kill_switch_active, loses_too_much, check, new, Call, updates_pnl, kill,
  update_pnl, is_active, step, run, current_pos,
}

module _ ⦃N : Numbers⦄ where
  pub step-killed : (c : Call) (e : Engine) → e.killed ≡ true → (step c e).killed ≡ true
  unfolding step
  step-killed c e h = ground arith

  pub run-killed : (cs : List Call) (e : Engine) → e.killed ≡ true → (run cs e).killed ≡ true
  unfolding run
  run-killed [] e h = h
  run-killed (c ∷ cs) e h = run-killed cs (step c e) (step-killed c e h)

  check_of_killed :
      (intent : OrderIntent) (now : ℕ) (e : Engine)
      → e.killed ≡ true
      → check intent now e ≡ (
        e,
        record {
          intent_id = intent.intent_id;
          allowed = false;
          reason_codes = kill_switch_active ∷ [];
          timestamp = now;
        },
      )
  unfolding check
  check_of_killed intent now e h = ground arith

  -- After the kill switch every check denies, with the kill switch as its only reason, and counts
  -- nothing, whatever calls were made between, resumptions among them.
  pub kill_is_final :
      (cs : List Call) (intent : OrderIntent) (now : ℕ) (e : Engine)
      → let e' = run cs (kill e) in
        (is_active e' ≡ false)
        × (check intent now e' ≡ (
          e',
          record {
            intent_id = intent.intent_id;
            allowed = false;
            reason_codes = kill_switch_active ∷ [];
            timestamp = now;
          },
        ))
  unfolding is_active kill
  kill_is_final cs intent now e =
      let e' = run cs (kill e) in
      let dead = run-killed cs (kill e) refl in (ground arith, check_of_killed intent now e' dead)

  abbrev pub IsNoPnl : Call → Type 0
  IsNoPnl (updates_pnl x) = ⊥
  IsNoPnl _ = Unit

  step-loses :
      (c : Call) (e : Engine)
      → IsNoPnl c
      → loses_too_much e ≡ true
      → loses_too_much (step c e) ≡ true
  unfolding step loses_too_much
  step-loses c e n h = ground arith

  run-loses :
      (cs : List Call) (e : Engine)
      → All IsNoPnl cs
      → loses_too_much e ≡ true
      → loses_too_much (run cs e) ≡ true
  unfolding run
  run-loses [] e n h = h
  run-loses (c ∷ cs) e n h = run-loses cs (step c e) n.1 (step-loses c e n.0 h)

  check_of_loses :
      (intent : OrderIntent) (now : ℕ) (e : Engine)
      → loses_too_much e ≡ true
      → (check intent now e).1.allowed ≡ false
  unfolding check
  check_of_loses intent now e h = ground arith

  update_pnl-loses :
      (pnl : N.Float) (e : Engine)
      → N.flt pnl (N.fneg (e.config).max_daily_loss_usd) ≡ true
      → (loses_too_much (update_pnl pnl e) ≡ true) × ((update_pnl pnl e).frozen ≡ true)
  unfolding update_pnl loses_too_much
  update_pnl-loses pnl e h = ground arith

  -- A loss beyond the daily limit freezes the engine at once, and until the profit and loss is next
  -- updated no check allows an order, not even after the engine is resumed.
  pub loss_limit_holds :
      (pnl : N.Float) (cs : List Call) (intent : OrderIntent) (now : ℕ) (e : Engine)
      → N.flt pnl (N.fneg (e.config).max_daily_loss_usd) ≡ true
      → All IsNoPnl cs
      → ((update_pnl pnl e).frozen ≡ true)
        × ((check intent now (run cs (update_pnl pnl e))).1.allowed ≡ false)
  loss_limit_holds pnl cs intent now e h n =
      let (lost, frozen) = update_pnl-loses pnl e h in
      (
        frozen,
        check_of_loses intent now (run cs (update_pnl pnl e))
            (run-loses cs (update_pnl pnl e) n lost),
      )

  step-position_count : (c : Call) (e : Engine) → (step c e).position_count ≡ e.position_count
  unfolding step
  step-position_count c e = ground arith

  pub run-position_count :
      (cs : List Call) (e : Engine) → (run cs e).position_count ≡ e.position_count
  unfolding run
  run-position_count [] e = refl
  run-position_count (c ∷ cs) e = run-position_count cs (step c e) ∙ step-position_count c e

  -- No call ever counts a position: whatever calls are made of a new engine, the position that the
  -- limit per symbol starts from is 0.
  pub positions_never_counted :
      (cfg : Config) (cs : List Call) (symbol : String)
      → current_pos (run cs (new cfg)) symbol ≡ N.literal 0 1
  unfolding current_pos new lookup
  positions_never_counted cfg cs symbol = rw (run-position_count cs (new cfg))
