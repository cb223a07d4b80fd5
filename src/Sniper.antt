-- ===== src/Sniper.antt =====
-- nexus/internal/sniper/sniper.go: the sniper engine. A position is known by its id in the map, from which
-- the code never takes one out. The goroutines that sell are a list of tasks, each run in one step of
-- its own; `swap n p` is the answer of Jupiter to the n-th swap, `none` an error, and `swaps` the
-- swaps asked for. A monitor is known by its id in `csm_running`; what it reports enters as a call
-- of `execute_sell` or `execute_partial_sell`. Times are nanoseconds since the Unix epoch. Of the
-- token analysis the fields that are read are kept; scores are not negative. A deleted entry of
-- `trackers` is `none`, and of `csm_running` it is `false`. Callbacks, logs and the setters of
-- callbacks and other engines are left out. Sniper/Prices has `UpdatePrice`,
-- Sniper/Running the end of the engine and its reports, and Sniper/Overlap `executeSell` in the
-- two parts between which its mutex is free.
pub mod Prices
pub mod Budget
pub mod Selling
pub mod Running
pub mod Closing
pub mod Overlap
pub mod Examples
use Prim.Native.String.{◌++◌ as append}
use mmh.Prelude.{
  ℕ, suc, ◌+◌, ◌-◌, ◌*◌, ◌%◌, String, Bool, true, false, not, Option, none, some, List, [], ◌∷◌,
  ◌++◌, if◌then◌else◌, ◌||◌, ◌&&◌, leb, ltb, length, Map, lookup, insert, str_eq,
}
use mmh.Numbers.{Numbers, is_positive, is_negative}
use mmh.Exits.{
  Position, PositionStatus, open_status, closing, closed, failed, is_open, Reason, no_reason,
  stop_loss, trailing_stop, other_reason, sell_failed, ExitConfig, ExitTracker, ExitDecision,
  new_exit_tracker, default_exit_config, evaluate, apply_decision, float, percent,
}

pub data Verdict : Type 0 where
  verdict_buy verdict_wait verdict_skip verdict_rug verdict_honeypot : Verdict

module _ ⦃N : Numbers⦄ where
  pub record Config : Type 0 where
    pub max_buy_sol : N.Float
    pub slippage_bps : ℕ
    pub take_profit_multiplier : N.Float
    pub stop_loss_pct : N.Float
    pub trailing_stop_enabled : Bool
    pub trailing_stop_pct : N.Float
    pub max_positions : ℕ
    pub max_daily_loss_sol : N.Float
    pub max_daily_spend_sol : N.Float
    pub price_check_interval_ms : ℕ
    pub min_safety_score : ℕ
    pub auto_sell_after_minutes : ℕ
    pub dry_run : Bool
    pub priority_fee : ℕ
    pub use_jito : Bool
    pub max_sell_retries : ℕ

  -- scanner.TokenAnalysis and its pool, as far as they are read.
  pub record TokenAnalysis : Type 0 where
    pub mint : String
    pub pool_address : String
    pub dex : String
    pub price_usd : N.Decimal
    pub safety_score : ℕ
    pub verdict : Verdict

  pub record SwapParams : Type 0 where
    pub input_mint : String
    pub output_mint : String
    pub amount_in : N.Decimal
    pub slippage_bps : ℕ
    pub priority_fee : ℕ
    pub use_jito_bundle : Bool

  pub record SwapResult : Type 0 where
    pub signature : String
    pub amount_out : N.Decimal

  pub data Task : Type 0 where
    full_sell : String → Reason → Task
    partial_sell : String → ExitDecision → Task

  pub record Engine : Type 0 where
    pub config : Config
    pub positions : Map Position
    pub trackers : Map (Option ExitTracker)
    pub csm_running : Map Bool
    pub exit_config : ExitConfig
    pub daily_spent_sol : N.Decimal
    pub daily_loss_sol : N.Decimal
    pub daily_reset_time : ℕ
    pub total_snipes : ℕ
    pub total_sells : ℕ
    pub win_count : ℕ
    pub loss_count : ℕ
    pub swaps : List SwapParams
    pub tasks : List Task

  abbrev pub sol_mint : String
  sol_mint = "So11111111111111111111111111111111111111112"

  -- Midnight UTC.
  abbrev pub start_of_day : ℕ → ℕ
  start_of_day now = now - now % 86_400_000_000_000

  abbrev pub buy_amount : Engine → N.Decimal
  buy_amount e = N.new_from_float (e.config).max_buy_sol

  -- The reset at the start of `reserveDailyBudget`.
  unfoldable pub reset_daily : ℕ → Engine → Engine
  reset_daily now e =
      if ltb (e.daily_reset_time + 86_400_000_000_000) now
      then record e {
        daily_spent_sol = N.zero;
        daily_loss_sol = N.zero;
        daily_reset_time = start_of_day now;
      }
      else e

  unfoldable pub reserve_daily_budget : ℕ → Engine → Engine × Bool
  unfolding reset_daily
  reserve_daily_budget now e =
      let e' = reset_daily now e in
      let max_spend = N.new_from_float (e.config).max_daily_spend_sol in
      let max_loss = N.new_from_float (e.config).max_daily_loss_sol in
      let spent = N.add e'.daily_spent_sol (buy_amount e) in
      if N.greater_than spent max_spend
      then (e', false)
      else if N.greater_than_or_equal e'.daily_loss_sol max_loss
      then (e', false)
      else (record e' { daily_spent_sol = spent }, true)

  unfoldable pub refund_daily_budget : Engine → Engine
  refund_daily_budget e =
      let spent = N.sub e.daily_spent_sol (buy_amount e) in
      record e { daily_spent_sol = if is_negative spent then N.zero else spent }

  abbrev pub count_open : Map Position → ℕ
  count_open [] = 0
  count_open (p ∷ m) = let n = count_open m in if is_open (p.1).status then suc n else n

  abbrev pub is_buy : Verdict → Bool
  is_buy verdict_buy = true
  is_buy _ = false

  abbrev swap_params : Config → String → String → N.Decimal → SwapParams
  swap_params c from to amount = record {
    input_mint = from;
    output_mint = to;
    amount_in = amount;
    slippage_bps = c.slippage_bps;
    priority_fee = c.priority_fee;
    use_jito_bundle = c.use_jito;
  }

  -- `executeBuy` up to the position: the answer of the exchange, or of the dry run.
  unfoldable pub buy_result :
      (ℕ → SwapParams → Option SwapResult) → String → TokenAnalysis → Engine → Option SwapResult
  buy_result swap pos_id a e =
      if (e.config).dry_run
      then some (record {
        signature = append "DRYRUN-BUY-" pos_id;
        amount_out =
            if is_positive a.price_usd then N.div (buy_amount e) a.price_usd else buy_amount e;
      })
      else swap (length e.swaps) (swap_params e.config sol_mint a.mint (buy_amount e))

  -- The swap is logged unless it is a dry run.
  abbrev log_swap : SwapParams → Engine → Engine
  log_swap p e = if (e.config).dry_run then e else record e { swaps = e.swaps ++ (p ∷ []) }

  unfoldable pub execute_buy :
      (ℕ → SwapParams → Option SwapResult) → ℕ → String → TokenAnalysis → Engine → Engine
  unfolding buy_result refund_daily_budget
  execute_buy swap now pos_id a e =
      let e' = log_swap (swap_params e.config sol_mint a.mint (buy_amount e)) e in
      elim (buy_result swap pos_id a e) [
        | none ↦ refund_daily_budget e'
        | some r ↦
            let pos : Position = record {
              id = pos_id;
              token_mint = a.mint;
              pool_address = a.pool_address;
              dex = a.dex;
              entry_price_usd = a.price_usd;
              amount_token = r.amount_out;
              cost_sol = buy_amount e;
              current_price = a.price_usd;
              highest_price = a.price_usd;
              pnl_pct = float 0;
              safety_score = a.safety_score;
              buy_signature = r.signature;
              sell_signature = "";
              status = open_status;
              opened_at = now;
              closed_at = none;
              close_reason = no_reason;
              sell_retries = 0;
            } in
            record e' {
              positions = insert pos_id pos e.positions;
              trackers =
                  insert pos_id (some (new_exit_tracker pos_id r.amount_out e.exit_config))
                    e.trackers;
              total_snipes = e.total_snipes + 1;
              csm_running = insert pos_id true e.csm_running;
            }
      ]

  unfoldable pub on_discovery :
      (ℕ → SwapParams → Option SwapResult) → ℕ → String → TokenAnalysis → Engine → Engine
  unfolding reserve_daily_budget
  on_discovery swap now pos_id a e =
      let (e', reserved) = reserve_daily_budget now e in
      let bought = execute_buy swap now pos_id a e' in
      if not reserved
      then e'
      else if leb (e.config).max_positions (count_open e'.positions)
      then e'
      else if ltb a.safety_score (e.config).min_safety_score
      then e'
      else if not (is_buy a.verdict)
      then e'
      else bought

  unfoldable pub execute_partial_sell :
      (ℕ → SwapParams → Option SwapResult) → String → ExitDecision → Engine → Engine
  execute_partial_sell swap id d e = elim (lookup id e.positions) [
    | none ↦ e
    | some pos ↦
        let amount =
          if N.greater_than d.sell_amount pos.amount_token
          then pos.amount_token
          else d.sell_amount in
        let p = swap_params e.config pos.token_mint sol_mint amount in
        let e' = log_swap p e in
        let rest = N.sub pos.amount_token amount in
        let pos' = record pos { amount_token = if is_negative rest then N.zero else rest } in
        let sold = record e' {
          positions = insert id pos' e.positions;
          total_sells = e.total_sells + 1;
        } in
        if not (is_positive amount)
        then e
        else if (e.config).dry_run
        then sold
        else elim (swap (length e.swaps) p) [ none ↦ e' | some r ↦ sold ]
  ]

  -- `executeSell` when the swap has failed.
  unfoldable pub sell_fails : ℕ → Reason → Config → Position → Position
  sell_fails now reason c pos =
      let retries = pos.sell_retries + 1 in
      if leb c.max_sell_retries retries
      then record pos {
        sell_retries = retries;
        status = failed;
        close_reason = sell_failed reason;
        closed_at = some now;
      }
      else record pos { sell_retries = retries; status = open_status }

  abbrev pub closed_position : ℕ → Reason → String → Position → Position
  closed_position now reason signature pos = record pos {
    sell_signature = signature;
    status = closed;
    closed_at = some now;
    close_reason = reason;
  }

  -- `executeSell` when the position is sold.
  unfoldable pub sell_succeeds : ℕ → String → Reason → String → Position → Engine → Engine
  sell_succeeds now id reason signature pos e =
      let pos' = closed_position now reason signature pos in
      let loss = N.mul pos.cost_sol (N.new_from_float (percent (N.fneg pos.pnl_pct))) in
      let lost = N.flt pos.pnl_pct (float 0) in
      record e {
        positions = insert id pos' e.positions;
        daily_loss_sol = if lost then N.add e.daily_loss_sol loss else e.daily_loss_sol;
        loss_count = if lost then e.loss_count + 1 else e.loss_count;
        win_count = if lost then e.win_count else e.win_count + 1;
        csm_running = insert id false e.csm_running;
        trackers = insert id none e.trackers;
        total_sells = e.total_sells + 1;
      }

  abbrev pub is_over : PositionStatus → Bool
  is_over closed = true
  is_over failed = true
  is_over _ = false

  unfoldable pub execute_sell :
      (ℕ → SwapParams → Option SwapResult) → ℕ → String → Reason → Engine → Engine
  unfolding sell_fails sell_succeeds
  execute_sell swap now id reason e = elim (lookup id e.positions) [
    | none ↦ e
    | some pos ↦
        let p = swap_params e.config pos.token_mint sol_mint pos.amount_token in
        let e' = log_swap p e in
        if is_over pos.status
        then e
        else if (e.config).dry_run
        then sell_succeeds now id reason (append "DRYRUN-SELL-" id) pos e
        else elim (swap (length e.swaps) p) [
          | none ↦ record e' {
            positions = insert id (sell_fails now reason e.config pos) e.positions;
          }
          | some r ↦ sell_succeeds now id reason r.signature pos e'
        ]
  ]

  -- `NewEngine`, with the defaults for two fields of its configuration.
  unfoldable pub new_engine : ℕ → Config → Engine
  new_engine now c = record {
    config = record c {
      max_sell_retries = if leb c.max_sell_retries 0 then 3 else c.max_sell_retries;
      priority_fee = if leb c.priority_fee 0 then 100_000 else c.priority_fee;
    };
    positions = [];
    trackers = [];
    csm_running = [];
    exit_config = default_exit_config;
    daily_spent_sol = N.zero;
    daily_loss_sol = N.zero;
    daily_reset_time = start_of_day now;
    total_snipes = 0;
    total_sells = 0;
    win_count = 0;
    loss_count = 0;
    swaps = [];
    tasks = [];
  }

  unfoldable pub set_exit_config : ExitConfig → Engine → Engine
  set_exit_config x e = record e { exit_config = x }

  unfoldable pub default_config : Config
  default_config = record {
    max_buy_sol = N.literal 1 10;
    slippage_bps = 200;
    take_profit_multiplier = float 2;
    stop_loss_pct = float 50;
    trailing_stop_enabled = true;
    trailing_stop_pct = float 20;
    max_positions = 5;
    max_daily_loss_sol = float 1;
    max_daily_spend_sol = float 2;
    price_check_interval_ms = 3_000;
    min_safety_score = 40;
    auto_sell_after_minutes = 60;
    dry_run = true;
    priority_fee = 100_000;
    use_jito = false;
    max_sell_retries = 3;
  }
