-- ===== src/Sniper/Prices.antt =====
-- `UpdatePrice` of nexus/internal/sniper/sniper.go. The loop goes over the map in the order of the list; Go
-- leaves the order open. It ends at the first position that it sells from. `none` is a panic of the
-- exit engine.
use mmh.Prelude.{
  ℕ, ◌+◌, ◌*◌, String, Bool, true, false, not, Option, none, some, [], ◌∷◌, ◌++◌, if◌then◌else◌,
  ◌||◌, ◌&&◌, ltb, Map, lookup, insert, str_eq,
}
use mmh.Numbers.{Numbers, is_positive}
use mmh.Exits.{
  Position, closing, is_open, Reason, stop_loss, trailing_stop, other_reason, ExitTracker,
  ExitDecision, evaluate, apply_decision, float, percent,
}
use mmh.Sniper.{Config, Engine, Task, full_sell, partial_sell}

module _ ⦃N : Numbers⦄ where
  unfoldable pub reprice : N.Decimal → Position → Position
  reprice price pos =
      let pnl =
        N.mul (N.div (N.sub price pos.entry_price_usd) pos.entry_price_usd) (N.new_from_int 100) in
      record pos {
        current_price = price;
        highest_price = if N.greater_than price pos.highest_price then price else pos.highest_price;
        pnl_pct = if is_positive pos.entry_price_usd then N.inexact_float64 pnl else pos.pnl_pct;
      }

  -- The checks for a position with no tracker.
  unfoldable pub simple_exit : Config → ℕ → Position → Option Reason
  simple_exit c now pos =
      let price = pos.current_price in
      let tp_price = N.mul pos.entry_price_usd (N.new_from_float c.take_profit_multiplier) in
      let trail_dist = N.mul pos.highest_price (N.new_from_float (percent c.trailing_stop_pct)) in
      let trail_stop = N.sub pos.highest_price trail_dist in
      let sl_price =
        N.mul pos.entry_price_usd (N.new_from_float (N.fsub (float 1) (percent c.stop_loss_pct))) in
      let deadline = pos.opened_at + c.auto_sell_after_minutes * 60_000_000_000 in
      if N.flt (float 0) c.take_profit_multiplier && N.greater_than_or_equal price tp_price
      then some (other_reason "TAKE_PROFIT")
      else if (c.trailing_stop_enabled && is_positive pos.highest_price)
          && (N.less_than_or_equal price trail_stop && N.greater_than price pos.entry_price_usd)
      then some trailing_stop
      else if N.flt (float 0) c.stop_loss_pct && N.less_than_or_equal price sl_price
      then some stop_loss
      else if ltb 0 c.auto_sell_after_minutes && ltb deadline now
      then some (other_reason "AUTO_SELL_TIMEOUT")
      else none

  -- What the loop does with one repriced position: nothing, or a sale with the tracker after it.
  pub data Outcome : Type 0 where
    keep : Outcome
    sell : Option ExitTracker → Task → Bool → Outcome

  abbrev decide_sale : Engine → Position → ExitTracker → ExitDecision → Option Outcome
  decide_sale e pos t d = elim (apply_decision e.exit_config d t) [
    | none ↦ none
    | some t' ↦
        if d.is_full_close
        then some (sell (some t') (full_sell pos.id d.reason) true)
        else some (sell (some t') (partial_sell pos.id d) false)
  ]

  unfoldable pub consider : ℕ → Engine → Position → Option Outcome
  unfolding simple_exit
  consider now e pos =
      let tracker : Option ExitTracker = elim (lookup pos.id e.trackers) [
        | none ↦ none
        | some t ↦ t
      ] in
      elim tracker [
        | some t ↦ elim (evaluate e.exit_config now pos t) [
          | none ↦ none
          | some d ↦ if d.should_sell then decide_sale e pos t d else some keep
        ]
        | none ↦ elim (simple_exit e.config now pos) [
          | none ↦ some keep
          | some r ↦ some (sell none (full_sell pos.id r) true)
        ]
      ]

  -- A sale: the tracker and the task are stored, and the status is CLOSING for a full sale.
  abbrev pub begin_sale : String → Option ExitTracker → Task → Engine → Engine
  begin_sale id t task e = record e {
    trackers = elim t [ none ↦ e.trackers | some t' ↦ insert id (some t') e.trackers ];
    tasks = e.tasks ++ (task ∷ []);
  }

  abbrev pub set_closing : Bool → Position → Position
  set_closing full pos = if full then record pos { status = closing } else pos

  -- The loop: the positions, and the engine with its trackers and tasks.
  unfoldable pub price_loop :
      ℕ → String → N.Decimal → Engine → Map Position → Option (Map Position × Engine)
  unfolding reprice consider
  price_loop now mint price e [] = some ([], e)
  price_loop now mint price e ((id, pos) ∷ m) =
      let rest = price_loop now mint price e m in
      let pos' = reprice price pos in
      elim (not (str_eq pos.token_mint mint) || not (is_open pos.status)) [
        | true ↦ elim rest [ none ↦ none | some (m', e') ↦ some ((id, pos) ∷ m', e') ]
        | false ↦ elim (consider now e pos') [
          | none ↦ none
          | some keep ↦ elim rest [ none ↦ none | some (m', e') ↦ some ((id, pos') ∷ m', e') ]
          | some (sell t task full) ↦
              some ((id, set_closing full pos') ∷ m, begin_sale pos.id t task e)
        ]
      ]

  unfoldable pub update_price : ℕ → String → N.Decimal → Engine → Option Engine
  unfolding price_loop
  update_price now mint price e = elim (price_loop now mint price e e.positions) [
    | none ↦ none
    | some (m, e') ↦ some (record e' { positions = m })
  ]
