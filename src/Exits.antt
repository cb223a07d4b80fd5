-- ===== src/Exits.antt =====
-- nexus/internal/sniper/exits.go, with the position of nexus/internal/sniper/sniper.go that it reads. `none` is Go's
-- panic on an index out of range: the lists of what has been hit are made for one configuration and
-- read under another if `SetExitConfig` has changed it. The texts of reasons are a data type:
-- "TAKE_PROFIT_L" with a number, the four texts of timed exits, and any text of a panic or warning.
-- `AfterMinutes` is not negative; times are in nanoseconds. The YAML keys are left out.
pub mod Hits
pub mod Total
pub mod Bounded
pub mod Examples
use mmh.Prelude.{
  ℕ, suc, zero, ◌+◌, ◌*◌, String, Bool, true, false, not, Option, none, some, List, [], ◌∷◌,
  if◌then◌else◌, ◌||◌, ◌&&◌, leb, length, ◌==◌,
}
use mmh.Prelude.{replicate, get_elem?, str_eq}
use mmh.Numbers.{Numbers, is_positive}

pub data PositionStatus : Type 0 where
  open_status closing closed failed : PositionStatus

pub data Reason : Type 0 where
  no_reason stop_loss trailing_stop : Reason
  take_profit : ℕ → Reason
  timed_exit timed_exit_4h timed_exit_12h timed_exit_24h : Reason
  other_reason : String → Reason
  sell_failed : Reason → Reason

module _ ⦃N : Numbers⦄ where
  pub record Position : Type 0 where
    pub id : String
    pub token_mint : String
    pub pool_address : String
    pub dex : String
    pub entry_price_usd : N.Decimal
    pub amount_token : N.Decimal
    pub cost_sol : N.Decimal
    pub current_price : N.Decimal
    pub highest_price : N.Decimal
    pub pnl_pct : N.Float
    pub safety_score : ℕ
    pub buy_signature : String
    pub sell_signature : String
    pub status : PositionStatus
    pub opened_at : ℕ
    pub closed_at : Option ℕ
    pub close_reason : Reason
    pub sell_retries : ℕ

  pub record TpLevel : Type 0 where
    pub multiplier : N.Float
    pub sell_pct : N.Float

  pub record TimedExit : Type 0 where
    pub after_minutes : ℕ
    pub sell_pct : N.Float

  pub record ExitConfig : Type 0 where
    pub tp_levels : List TpLevel
    pub stop_loss_pct : N.Float
    pub trailing_stop_enabled : Bool
    pub trailing_stop_pct : N.Float
    pub timed_exits : List TimedExit
    pub panic_liq_drop_pct : N.Float
    pub panic_whale_sell_sol : N.Float

  pub record ExitTracker : Type 0 where
    pub position_id : String
    pub tp_levels_hit : List Bool
    pub timed_exits_hit : List Bool
    pub remaining_pct : N.Float
    pub original_amount : N.Decimal

  pub record ExitDecision : Type 0 where
    pub should_sell : Bool
    pub sell_amount : N.Decimal
    pub sell_pct : N.Float
    pub reason : Reason
    pub is_full_close : Bool

  abbrev pub float : ℕ → N.Float
  float n = N.literal n 1

  -- `x / 100.0`
  abbrev pub percent : N.Float → N.Float
  percent x = N.fdiv x (float 100)

  unfoldable pub default_exit_config : ExitConfig
  default_exit_config = record {
    tp_levels =
        record { multiplier = N.literal 3 2; sell_pct = float 25 }
        ∷ record { multiplier = float 2; sell_pct = float 25 }
        ∷ record { multiplier = float 3; sell_pct = float 25 }
        ∷ record { multiplier = float 6; sell_pct = float 100 }
        ∷ [];
    stop_loss_pct = float 50;
    trailing_stop_enabled = true;
    trailing_stop_pct = float 20;
    timed_exits =
        record { after_minutes = 240; sell_pct = float 50 }
        ∷ record { after_minutes = 720; sell_pct = float 75 }
        ∷ record { after_minutes = 1440; sell_pct = float 100 }
        ∷ [];
    panic_liq_drop_pct = float 50;
    panic_whale_sell_sol = float 100;
  }

  unfoldable pub new_exit_tracker : String → N.Decimal → ExitConfig → ExitTracker
  new_exit_tracker pos_id token_amount config = record {
    position_id = pos_id;
    tp_levels_hit = replicate (length config.tp_levels) false;
    timed_exits_hit = replicate (length config.timed_exits) false;
    remaining_pct = float 100;
    original_amount = token_amount;
  }

  -- `ExitDecision{}`
  abbrev pub no_decision : ExitDecision
  no_decision = record {
    should_sell = false;
    sell_amount = N.zero;
    sell_pct = float 0;
    reason = no_reason;
    is_full_close = false;
  }

  unfoldable pub remaining_tokens : ExitTracker → N.Decimal
  remaining_tokens t = N.mul t.original_amount (N.new_from_float (percent t.remaining_pct))

  -- A decision to sell everything.
  abbrev pub sell_all : ExitTracker → Reason → ExitDecision
  sell_all t r = record {
    should_sell = true;
    sell_amount = remaining_tokens t;
    sell_pct = float 100;
    reason = r;
    is_full_close = true;
  }

  -- A decision to sell a share of what remains.
  abbrev pub sell_share : ExitTracker → N.Float → Reason → ExitDecision
  sell_share t pct r = record {
    should_sell = true;
    sell_amount = N.mul (remaining_tokens t) (N.new_from_float (percent pct));
    sell_pct = pct;
    reason = r;
    is_full_close =
        N.fle (float 100) pct
        || N.flt (N.fmul t.remaining_pct (N.fsub (float 1) (percent pct))) (float 1);
  }

  unfoldable pub check_stop_loss : ExitConfig → Position → ExitTracker → ExitDecision
  unfolding remaining_tokens
  check_stop_loss c pos t =
      let sl_price =
        N.mul pos.entry_price_usd (N.new_from_float (N.fsub (float 1) (percent c.stop_loss_pct))) in
      if N.fle c.stop_loss_pct (float 0) || not (is_positive pos.entry_price_usd)
      then no_decision
      else if N.less_than_or_equal pos.current_price sl_price
      then sell_all t stop_loss
      else no_decision

  -- The loop over the levels from index `i` on.
  unfoldable pub multi_tp : Position → ExitTracker → ℕ → List TpLevel → Option ExitDecision
  multi_tp pos t i [] = some no_decision
  multi_tp pos t i (level ∷ levels) =
      let rest = multi_tp pos t (suc i) levels in
      let tp_price = N.mul pos.entry_price_usd (N.new_from_float level.multiplier) in
      elim (get_elem? t.tp_levels_hit i) [
        | none ↦ none
        | some hit ↦
            if hit
            then rest
            else if N.greater_than_or_equal pos.current_price tp_price
            then some (sell_share t level.sell_pct (take_profit (i + 1)))
            else rest
      ]

  unfoldable pub check_multi_tp : ExitConfig → Position → ExitTracker → Option ExitDecision
  unfolding multi_tp
  check_multi_tp c pos t =
      if is_positive pos.entry_price_usd then multi_tp pos t 0 c.tp_levels else some no_decision

  abbrev pub any_hit : List Bool → Bool
  any_hit [] = false
  any_hit (h ∷ hs) = h || any_hit hs

  unfoldable pub check_trailing_stop : ExitConfig → Position → ExitTracker → ExitDecision
  unfolding remaining_tokens
  check_trailing_stop c pos t =
      let trail_dist = N.mul pos.highest_price (N.new_from_float (percent c.trailing_stop_pct)) in
      let trail_stop = N.sub pos.highest_price trail_dist in
      if not c.trailing_stop_enabled || not (is_positive pos.highest_price)
      then no_decision
      else if not (any_hit t.tp_levels_hit)
      then no_decision
      else if N.less_than_or_equal pos.current_price trail_stop
          && N.greater_than pos.current_price pos.entry_price_usd
      then sell_all t trailing_stop
      else no_decision

  unfoldable pub timed_exit_reason : ℕ → Reason
  timed_exit_reason minutes =
      if leb 1440 minutes
      then timed_exit_24h
      else if leb 720 minutes
      then timed_exit_12h
      else if leb 240 minutes
      then timed_exit_4h
      else timed_exit

  -- `time.Since(pos.OpenedAt) >= deadline`
  abbrev pub is_due : ℕ → ℕ → ℕ → Bool
  is_due now opened_at minutes = leb (opened_at + minutes * 60_000_000_000) now

  unfoldable pub timed : ℕ → Position → ExitTracker → ℕ → List TimedExit → Option ExitDecision
  timed now pos t i [] = some no_decision
  timed now pos t i (te ∷ tes) =
      let rest = timed now pos t (suc i) tes in
      elim (get_elem? t.timed_exits_hit i) [
        | none ↦ none
        | some hit ↦
            if hit
            then rest
            else if is_due now pos.opened_at te.after_minutes
            then some (sell_share t te.sell_pct (timed_exit_reason te.after_minutes))
            else rest
      ]

  unfoldable pub check_timed_exits : ExitConfig → ℕ → Position → ExitTracker → Option ExitDecision
  unfolding timed
  check_timed_exits c now pos t = timed now pos t 0 c.timed_exits

  abbrev pub is_open : PositionStatus → Bool
  is_open open_status = true
  is_open _ = false

  -- The first decision to sell, in the order of priority.
  unfoldable pub evaluate : ExitConfig → ℕ → Position → ExitTracker → Option ExitDecision
  evaluate c now pos t =
      let stop = check_stop_loss c pos t in
      let trail = check_trailing_stop c pos t in
      let by_time : Option ExitDecision = elim (check_timed_exits c now pos t) [
        | none ↦ none
        | some d ↦ if d.should_sell then some d else some no_decision
      ] in
      let by_level : Option ExitDecision = elim (check_multi_tp c pos t) [
        | none ↦ none
        | some d ↦
            if d.should_sell then some d else if trail.should_sell then some trail else by_time
      ] in
      if not (is_open pos.status) || N.fle t.remaining_pct (float 0)
      then some no_decision
      else if stop.should_sell
      then some stop
      else by_level

  unfoldable pub panic_sell : ExitTracker → Reason → ExitDecision
  unfolding remaining_tokens
  panic_sell t reason = sell_all t reason

abbrev pub same_reason : Reason → Reason → Bool
same_reason no_reason no_reason = true
same_reason stop_loss stop_loss = true
same_reason trailing_stop trailing_stop = true
same_reason (take_profit i) (take_profit j) = i == j
same_reason timed_exit timed_exit = true
same_reason timed_exit_4h timed_exit_4h = true
same_reason timed_exit_12h timed_exit_12h = true
same_reason timed_exit_24h timed_exit_24h = true
same_reason (other_reason s) (other_reason t) = str_eq s t
same_reason (sell_failed r) (sell_failed s) = same_reason r s
same_reason _ _ = false

-- `hits[i] = true`
unfoldable pub mark_at : ℕ → List Bool → Option (List Bool)
mark_at i [] = none
mark_at zero (h ∷ hs) = some (true ∷ hs)
mark_at (suc i) (h ∷ hs) = elim (mark_at i hs) [ none ↦ none | some hs' ↦ some (h ∷ hs') ]

-- The loop over one list of reasons from index `i` on: the index of every reason that is the
-- decision's is marked.
unfoldable pub mark_all : Reason → ℕ → List Reason → List Bool → Option (List Bool)
mark_all r i [] hits = some hits
mark_all r i (s ∷ rest) hits = elim (same_reason r s) [
  | false ↦ mark_all r (suc i) rest hits
  | true ↦ elim (mark_at i hits) [ none ↦ none | some hits' ↦ mark_all r (suc i) rest hits' ]
]

module _ ⦃N : Numbers⦄ where
  unfoldable pub level_reasons : ℕ → List TpLevel → List Reason
  level_reasons i [] = []
  level_reasons i (l ∷ ls) = take_profit (i + 1) ∷ level_reasons (suc i) ls

  unfoldable pub timed_reasons : List TimedExit → List Reason
  timed_reasons [] = []
  timed_reasons (te ∷ tes) = timed_exit_reason te.after_minutes ∷ timed_reasons tes

  unfoldable pub apply_decision : ExitConfig → ExitDecision → ExitTracker → Option ExitTracker
  apply_decision c d t =
      let rest = N.fmul t.remaining_pct (N.fsub (float 1) (percent d.sell_pct)) in
      if d.is_full_close
      then some (record t { remaining_pct = float 0 })
      else elim (mark_all d.reason 0 (level_reasons 0 c.tp_levels) t.tp_levels_hit) [
        | none ↦ none
        | some tps ↦ elim (mark_all d.reason 0 (timed_reasons c.timed_exits) t.timed_exits_hit) [
          | none ↦ none
          | some tes ↦
              some (record t { remaining_pct = rest; tp_levels_hit = tps; timed_exits_hit = tes })
        ]
      ]

module _ ⦃N : Numbers⦄ where
  -- What `UpdatePrice` of sniper.go does with the exit engine: it evaluates, and applies a decision to
  -- sell to the tracker at once. The second part tells whether something is sold.
  unfoldable pub exit_step : ExitConfig → ℕ → Position → ExitTracker → Option (ExitTracker × Bool)
  exit_step c now pos t = elim (evaluate c now pos t) [
    | none ↦ none
    | some d ↦
        if d.should_sell
        then elim (apply_decision c d t) [ none ↦ none | some t' ↦ some (t', true) ]
        else some (t, false)
  ]

  -- The number of sales over any updates, each with its time and its position.
  unfoldable pub count_sales : ExitConfig → ExitTracker → List (ℕ × Position) → Option ℕ
  count_sales c t [] = some 0
  count_sales c t ((now, pos) ∷ updates) = elim (exit_step c now pos t) [
    | none ↦ none
    | some (t', sold) ↦ elim (count_sales c t' updates) [
      | none ↦ none
      | some n ↦ some (if sold then suc n else n)
    ]
  ]
