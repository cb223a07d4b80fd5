-- ===== src/Risk.antt =====
-- nexus/internal/risk/engine.go: the checks before a trade. The state is the engine's; the atomics and
-- the lock are left out, a call being one step. `fmt.Sprintf` in a reason code is the code with the
-- numbers that it prints. The counters are numbers without bound, and `Config` keeps the fields that
-- the engine reads. A cast `float64(n)` is `literal n 1`.
pub mod Policies
pub mod Halts
pub mod History
pub mod Examples
use mmh.Prelude.{
  ℕ, ◌+◌, String, Bool, true, false, Option, none, some, List, [], ◌∷◌, ◌++◌, not, ◌&&◌,
  if◌then◌else◌, Map, lookup,
}
use mmh.Numbers.{Numbers}
use mmh.Order.{OrderIntent}

module _ ⦃N : Numbers⦄ where
  pub record Config : Type 0 where
    pub max_daily_loss_usd : N.Float
    pub max_total_exposure_usd : N.Float
    pub max_position_per_symbol : N.Float
    pub max_notional_per_order : N.Float
    pub cooldown_after_losses : ℕ
    pub cooldown_minutes : ℕ
    pub feed_lag_threshold_ms : ℕ
    pub order_reject_spike_threshold : ℕ

  pub record Engine : Type 0 where
    pub config : Config
    pub daily_pnl : N.Float
    pub total_exposure : N.Float
    pub position_count : Map ℕ
    pub killed : Bool
    pub frozen : Bool
    pub allowed : ℕ
    pub denied : ℕ
    pub freezes : ℕ

  pub data ReasonCode : Type 0 where
    kill_switch_active system_frozen : ReasonCode
    daily_loss_exceeded : N.Float → N.Float → ReasonCode
    exposure_exceeded : N.Float → N.Float → N.Float → ReasonCode
    order_too_large : N.Float → N.Float → ReasonCode
    position_limit : String → N.Float → N.Float → ReasonCode

  pub record Decision : Type 0 where
    pub intent_id : String
    pub allowed : Bool
    pub reason_codes : List ReasonCode
    pub timestamp : ℕ

  -- `New`
  unfoldable pub new : Config → Engine
  new cfg = record {
    config = cfg;
    daily_pnl = N.literal 0 1;
    total_exposure = N.literal 0 1;
    position_count = [];
    killed = false;
    frozen = false;
    allowed = 0;
    denied = 0;
    freezes = 0;
  }

  unfoldable pub notional : OrderIntent → N.Float
  notional intent = N.fmul (N.inexact_float64 intent.qty) (N.inexact_float64 intent.limit_price)

  -- `e.dailyPnL < -e.config.MaxDailyLossUSD`
  unfoldable pub loses_too_much : Engine → Bool
  loses_too_much e = N.flt e.daily_pnl (N.fneg (e.config).max_daily_loss_usd)

  unfoldable pub exceeds_exposure : Engine → OrderIntent → Bool
  unfolding notional
  exceeds_exposure e intent =
      N.flt (e.config).max_total_exposure_usd (N.fadd e.total_exposure (notional intent))

  unfoldable pub exceeds_order : Engine → OrderIntent → Bool
  unfolding notional
  exceeds_order e intent = N.flt (e.config).max_notional_per_order (notional intent)

  -- `float64(e.positionCount[intent.Symbol])`; a missing key reads 0.
  unfoldable pub current_pos : Engine → String → N.Float
  current_pos e symbol = elim (lookup symbol e.position_count) [
    | none ↦ N.literal 0 1
    | some n ↦ N.literal n 1
  ]

  unfoldable pub exceeds_position : Engine → OrderIntent → Bool
  unfolding current_pos
  exceeds_position e intent =
      N.flt (N.literal 0 1) (e.config).max_position_per_symbol
      && N.flt (e.config).max_position_per_symbol
          (N.fadd (current_pos e intent.symbol) (N.inexact_float64 intent.qty))

  -- `d.Allowed = false` and the append of a code, under a test.
  abbrev deny_if : Bool → ReasonCode → Decision → Decision
  deny_if test r d =
      if test then record d { allowed = false; reason_codes = d.reason_codes ++ (r ∷ []) } else d

  -- The four policies, in the order of the code.
  unfoldable pub apply_policies : OrderIntent → Engine → Decision → Decision
  unfolding loses_too_much exceeds_exposure exceeds_order exceeds_position
  apply_policies intent e d =
      let d1 =
        deny_if (loses_too_much e)
          (daily_loss_exceeded e.daily_pnl (N.fneg (e.config).max_daily_loss_usd)) d in
      let d2 =
        deny_if (exceeds_exposure e intent)
          (exposure_exceeded e.total_exposure (notional intent) (e.config).max_total_exposure_usd)
          d1 in
      let d3 =
        deny_if (exceeds_order e intent)
          (order_too_large (notional intent) (e.config).max_notional_per_order) d2 in
      deny_if (exceeds_position e intent)
        (position_limit intent.symbol (current_pos e intent.symbol)
          (e.config).max_position_per_symbol)
        d3

  -- `Check`
  unfoldable pub check : OrderIntent → ℕ → Engine → Engine × Decision
  unfolding apply_policies
  check intent now e =
      let d : Decision = record {
        intent_id = intent.intent_id;
        allowed = true;
        reason_codes = [];
        timestamp = now;
      } in
      let decided = apply_policies intent e d in
      if e.killed
      then (
        e,
        record d { allowed = false; reason_codes = d.reason_codes ++ (kill_switch_active ∷ []) },
      )
      else if e.frozen
      then (e, record d { allowed = false; reason_codes = d.reason_codes ++ (system_frozen ∷ []) })
      else if decided.allowed
      then (record e { allowed = e.allowed + 1 }, decided)
      else (record e { denied = e.denied + 1 }, decided)

  unfoldable pub kill : Engine → Engine
  kill e = record e { killed = true }

  unfoldable pub freeze : Engine → Engine
  freeze e = record e { frozen = true; freezes = e.freezes + 1 }

  unfoldable pub resume : Engine → Engine
  resume e = if e.killed then e else record e { frozen = false }

  unfoldable pub update_pnl : N.Float → Engine → Engine
  unfolding loses_too_much
  update_pnl pnl e =
      let e' = record e { daily_pnl = pnl } in
      if loses_too_much e' then record e' { frozen = true } else e'

  unfoldable pub update_exposure : N.Float → Engine → Engine
  update_exposure exposure e = record e { total_exposure = exposure }

  unfoldable pub is_active : Engine → Bool
  is_active e = not e.killed && not e.frozen

  -- The calls that other parts make of the engine.
  pub data Call : Type 0 where
    checks : OrderIntent → ℕ → Call
    kills freezes resumes : Call
    updates_pnl updates_exposure : N.Float → Call

  unfoldable pub step : Call → Engine → Engine
  unfolding check kill freeze resume update_pnl update_exposure
  step (checks intent now) e = (check intent now e).0
  step kills e = kill e
  step freezes e = freeze e
  step resumes e = resume e
  step (updates_pnl pnl) e = update_pnl pnl e
  step (updates_exposure x) e = update_exposure x e

  unfoldable pub run : List Call → Engine → Engine
  run [] e = e
  run (c ∷ cs) e = run cs (step c e)
