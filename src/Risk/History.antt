-- ===== src/Risk/History.antt =====
-- The decisions of nexus/internal/risk/engine.go by the calls that came before.
use mmh.Prelude.{
  ◌≡◌, ◌↔◌, refl, ap, sym, ◌∙◌, inl, inr, ℕ, Bool, true, false, ◌&&◌, List, [], ◌∷◌, arith,
  if◌then◌else◌, Bool-cases,
}
use mathlib.Core.Bool.{true≢false}
use mmh.Numbers.{Numbers}
use mmh.Order.{OrderIntent}
use mmh.Risk.{
  Config, Engine, loses_too_much, exceeds_exposure, exceeds_order, exceeds_position, notional,
  check, new, Call, kills, freezes, resumes, updates_pnl, updates_exposure, step, run,
}
use mmh.Risk.Halts.{step-killed, run-killed, positions_never_counted}
use mmh.Risk.Policies.{check-allowed_iff}

-- What is left of a value after some calls, one after the other.
abbrev pub after : {A C : Type 0} → (C → A → A) → List C → A → A
after f [] x = x
after f (c ∷ cs) x = after f cs (f c x)

module _ ⦃N : Numbers⦄ where
  -- The profit and loss that was reported last, and the exposure.
  abbrev pub pnl_after : Call → N.Float → N.Float
  pnl_after (updates_pnl pnl) x = pnl
  pnl_after _ x = x

  abbrev pub exposure_after : Call → N.Float → N.Float
  exposure_after (updates_exposure exposure) x = exposure
  exposure_after _ x = x

  abbrev pub kill_after : Call → Bool → Bool
  kill_after kills b = true
  kill_after _ b = b

  -- Without a kill: frozen by a freeze or by a loss beyond the limit, and released by a resumption.
  abbrev pub freeze_after : N.Float → Call → Bool → Bool
  freeze_after max_loss freezes b = true
  freeze_after max_loss resumes b = false
  freeze_after max_loss (updates_pnl pnl) b = if N.flt pnl (N.fneg max_loss) then true else b
  freeze_after max_loss _ b = b

  step-State :
      (c : Call) (e : Engine)
      → ((step c e).config ≡ e.config)
        × ((step c e).daily_pnl ≡ pnl_after c e.daily_pnl)
        × ((step c e).total_exposure ≡ exposure_after c e.total_exposure)
        × ((step c e).killed ≡ kill_after c e.killed)
        × (e.killed ≡ false
            → (step c e).frozen ≡ freeze_after e.config.max_daily_loss_usd c e.frozen)
  unfolding step
  step-State c e = ground arith

  run-State :
      (cs : List Call) (e : Engine)
      → ((run cs e).config ≡ e.config)
        × ((run cs e).daily_pnl ≡ after pnl_after cs e.daily_pnl)
        × ((run cs e).total_exposure ≡ after exposure_after cs e.total_exposure)
        × ((run cs e).killed ≡ after kill_after cs e.killed)
        × ((run cs e).killed ≡ false
            → (run cs e).frozen ≡ after (freeze_after e.config.max_daily_loss_usd) cs e.frozen)
  unfolding run
  run-State [] e = (refl, refl, refl, refl, λ h. refl)
  run-State (c ∷ cs) e =
      let (config, pnl, exposure, killed, frozen) = step-State c e in
      let (config', pnl', exposure', killed', frozen') = run-State cs (step c e) in
      (
        config' ∙ config,
        pnl' ∙ ap (after pnl_after cs) pnl,
        exposure' ∙ ap (after exposure_after cs) exposure,
        killed' ∙ ap (after kill_after cs) killed,
        λ h.
            let alive : e.killed ≡ false = elim (Bool-cases e.killed) [
              | inr lives ↦ lives
              | inl dead ↦
                  absurd (true≢false (sym (run-killed cs (step c e) (step-killed c e dead)) ∙ h))
            ] in
            frozen' h
            ∙ ap (λ x. after (freeze_after x.max_daily_loss_usd) cs (step c e).frozen) config
            ∙ ap (after (freeze_after e.config.max_daily_loss_usd) cs) (frozen alive),
      )

  -- After any calls of a new risk engine, an order is allowed exactly when none of the calls was a
  -- kill; no freeze and no loss beyond the limit came after the last resumption; the profit and loss
  -- reported last, or 0, is not below the negative of the daily limit; the exposure reported last,
  -- or 0, and the order's quantity times its limit price are together within the exposure limit;
  -- that product is within the limit of an order; and the order's quantity, added to 0, is within
  -- the limit of a position, if that is positive.
  pub check_by_history :
      (cfg : Config) (cs : List Call) (intent : OrderIntent) (now : ℕ)
      → let amount = N.fmul (N.inexact_float64 intent.qty) (N.inexact_float64 intent.limit_price) in
        let nothing = N.literal 0 1 in
        ((check intent now (run cs (new cfg))).1.allowed ≡ true) ↔ (
          (after kill_after cs false ≡ false)
          × (after (freeze_after cfg.max_daily_loss_usd) cs false ≡ false)
          × (N.flt (after pnl_after cs nothing) (N.fneg cfg.max_daily_loss_usd) ≡ false)
          × (N.flt cfg.max_total_exposure_usd (N.fadd (after exposure_after cs nothing) amount)
              ≡ false)
          × (N.flt cfg.max_notional_per_order amount ≡ false)
          × ((N.flt nothing cfg.max_position_per_symbol
                && N.flt cfg.max_position_per_symbol
                    (N.fadd nothing (N.inexact_float64 intent.qty)))
              ≡ false))
  unfolding new loses_too_much exceeds_exposure exceeds_order exceeds_position notional
  check_by_history cfg cs intent now =
      let e = run cs (new cfg) in
      let (config, pnl, exposure, killed, frozen) = run-State cs (new cfg) in
      let counted = positions_never_counted cfg cs intent.symbol in
      let (only_if, if_all) = check-allowed_iff intent now e in
      (
        λ h.
            let (alive, free, solvent, exposed, small, placed) = only_if h in
            (
              ground (arith, killed, alive),
              ground (arith, frozen alive, free),
              ground (arith, solvent, pnl, config),
              ground (arith, exposed, exposure, config),
              ground (arith, small, config),
              ground (arith, placed, counted, config),
            ),
        λ h.
            let (alive, free, solvent, exposed, small, placed) = h in
            let lives : e.killed ≡ false = ground (arith, killed, alive) in
            if_all (
              lives,
              ground (arith, frozen lives, free),
              ground (arith, solvent, pnl, config),
              ground (arith, exposed, exposure, config),
              ground (arith, small, config),
              ground (arith, placed, counted, config),
            ),
      )
