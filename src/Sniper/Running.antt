-- ===== src/Sniper/Running.antt =====
-- nexus/internal/sniper/sniper.go: `ForceClose`, the answer to a warning of a monitor, and the reports. The
-- positions are closed in the order of the list; Go leaves the order open.
use mmh.Prelude.{
  ℕ, ◌+◌, String, Bool, true, false, Option, none, some, List, [], ◌∷◌, if◌then◌else◌, ltb, Map,
  lookup,
}
use mmh.Numbers.{Numbers}
use mmh.Exits.{Position, is_open, Reason, other_reason, float, percent}
use mmh.Sniper.{Engine, SwapParams, SwapResult, count_open, execute_sell, execute_partial_sell}

module _ ⦃N : Numbers⦄ where
  -- The ids of the open positions.
  unfoldable pub open_ids : Map Position → List String
  open_ids [] = []
  open_ids ((id, pos) ∷ m) = let rest = open_ids m in if is_open pos.status then id ∷ rest else rest

  unfoldable pub open_positions : Map Position → List Position
  open_positions [] = []
  open_positions ((id, pos) ∷ m) =
      let rest = open_positions m in if is_open pos.status then pos ∷ rest else rest

  unfoldable pub close_all :
      (ℕ → SwapParams → Option SwapResult) → ℕ → List String → Engine → Engine
  close_all swap now [] e = e
  close_all swap now (id ∷ ids) e =
      close_all swap now ids (execute_sell swap now id (other_reason "FORCE_CLOSE") e)

  unfoldable pub force_close : (ℕ → SwapParams → Option SwapResult) → ℕ → Engine → Engine
  unfolding close_all
  force_close swap now e = close_all swap now (open_ids e.positions) (record e { csm_running = [] })

  -- The partial sale that a warning of severity `severity` makes.
  unfoldable pub on_warning :
      (ℕ → SwapParams → Option SwapResult) → String → Reason → N.Float → Engine → Engine
  on_warning swap id why severity e =
      let pct = N.fadd (float 25) (N.fmul severity (float 25)) in
      elim (lookup id e.positions) [
        | none ↦ e
        | some pos ↦
            execute_partial_sell swap id
              (record {
                should_sell = true;
                sell_amount = N.mul pos.amount_token (N.new_from_float (percent pct));
                sell_pct = pct;
                reason = why;
                is_full_close = false;
              })
              e
      ]

  pub record SniperStats : Type 0 where
    pub total_snipes : ℕ
    pub total_sells : ℕ
    pub open_count : ℕ
    pub win_count : ℕ
    pub loss_count : ℕ
    pub win_rate : N.Float
    pub daily_spent_sol : N.Decimal
    pub daily_loss_sol : N.Decimal
    pub dry_run : Bool

  unfoldable pub stats : Engine → SniperStats
  stats e = record {
    total_snipes = e.total_snipes;
    total_sells = e.total_sells;
    open_count = count_open e.positions;
    win_count = e.win_count;
    loss_count = e.loss_count;
    win_rate =
        if ltb 0 (e.win_count + e.loss_count)
        then N.fmul (N.fdiv (float e.win_count) (float (e.win_count + e.loss_count))) (float 100)
        else float 0;
    daily_spent_sol = e.daily_spent_sol;
    daily_loss_sol = e.daily_loss_sol;
    dry_run = (e.config).dry_run;
  }
