-- ===== src/Sniper/Selling.antt =====
-- Sales by the exit engine in nexus/internal/sniper/sniper.go.
use mmh.Prelude.{
  ◌≡◌, ap, ℕ, ◌+◌, String, true, false, Option, none, some, arith, leb, lookup, insert,
  lookup-insert_self, length,
}
use mmh.Numbers.{Numbers}
use mmh.Exits.{
  Position, open_status, closing, Reason, ExitConfig, ExitTracker, ExitDecision, no_decision,
  evaluate, apply_decision, float,
}
use mmh.Sniper.Prices.{reprice, consider, keep}
use mmh.Sniper.{
  Config, Engine, SwapParams, SwapResult, swap_params, sol_mint, sell_fails, execute_sell, is_over,
}

module _ ⦃N : Numbers⦄ where
  sell_fails_open :
      (now : ℕ) (why : Reason) (c : Config) (pos : Position)
      → leb c.max_sell_retries (pos.sell_retries + 1) ≡ false
      → (sell_fails now why c pos).status ≡ open_status
  unfolding sell_fails
  sell_fails_open now why c pos h = ground arith

  execute_sell_fails :
      (swap : ℕ → SwapParams → Option SwapResult) (now : ℕ) (id : String) (why : Reason)
      (e : Engine) (pos : Position)
      → lookup id e.positions ≡ some pos
      → is_over pos.status ≡ false
      → (e.config).dry_run ≡ false
      → swap (length e.swaps) (swap_params e.config pos.token_mint sol_mint pos.amount_token) ≡ none
      → ((execute_sell swap now id why e).positions
          ≡ insert id (sell_fails now why e.config pos) e.positions)
        × ((execute_sell swap now id why e).trackers ≡ e.trackers)
  unfolding execute_sell
  execute_sell_fails swap now id why e pos at live real fails = (ground arith, ground arith)

  nothing_left :
      (x : ExitConfig) (now : ℕ) (pos : Position) (t : ExitTracker)
      → N.fle t.remaining_pct (float 0) ≡ true
      → evaluate x now pos t ≡ some no_decision
  unfolding evaluate
  nothing_left x now pos t h = ground (arith, h)

  full_close_remaining :
      (x : ExitConfig) (d : ExitDecision) (t t' : ExitTracker)
      → d.is_full_close ≡ true
      → apply_decision x d t ≡ some t'
      → t'.remaining_pct ≡ float 0
  unfolding apply_decision
  full_close_remaining x d t t' full e = ground (arith, full)

  consider-keep :
      (later : ℕ) (e : Engine) (pos : Position) (t : ExitTracker)
      → lookup pos.id e.trackers ≡ some (some t)
      → N.fle t.remaining_pct (float 0) ≡ true
      → consider later e pos ≡ some keep
  unfolding consider
  consider-keep later e pos t at h = ground (arith, at, nothing_left e.exit_config later pos t h)

  same_id :
      (now : ℕ) (why : Reason) (c : Config) (price : N.Decimal) (pos : Position)
      → (reprice price (sell_fails now why c pos)).id ≡ pos.id
  unfolding reprice sell_fails
  same_id now why c price pos = ground arith

  -- When zero compares with itself: if a decision to sell everything has been applied to the tracker
  -- of a position and the swap of its sale fails with retries left, the position is open again,
  -- and yet no later price makes the exit engine sell it.
  pub failed_close_never_retried :
      (zero_fle : N.fle (float 0) (float 0) ≡ true) (swap : ℕ → SwapParams → Option SwapResult)
      (now : ℕ) (id : String) (why : Reason) (e : Engine) (pos : Position) (d : ExitDecision)
      (t t' : ExitTracker)
      → pos.id ≡ id
      → pos.status ≡ closing
      → lookup id e.positions ≡ some pos
      → lookup id e.trackers ≡ some (some t')
      → d.is_full_close ≡ true
      → apply_decision e.exit_config d t ≡ some t'
      → (e.config).dry_run ≡ false
      → swap (length e.swaps) (swap_params e.config pos.token_mint sol_mint pos.amount_token) ≡ none
      → leb (e.config).max_sell_retries (pos.sell_retries + 1) ≡ false
      → (pos' : Position) × (lookup id (execute_sell swap now id why e).positions ≡ some pos')
        × (pos'.status ≡ open_status)
        × ((later : ℕ) (price : N.Decimal)
            → consider later (execute_sell swap now id why e) (reprice price pos') ≡ some keep)
  failed_close_never_retried zero_fle swap now id why e pos d t t' own closes at tracked full
        applied real fails left =
      let (new_positions, new_trackers) =
        execute_sell_fails swap now id why e pos at (ap is_over closes) real fails in
      let pos' = sell_fails now why e.config pos in
      let spent : N.fle t'.remaining_pct (float 0) ≡ true =
        rw (full_close_remaining e.exit_config d t t' full applied) zero_fle in
      (
        pos',
        rw new_positions (lookup-insert_self id pos' e.positions),
        sell_fails_open now why e.config pos left,
        λ later price.
            consider-keep later (execute_sell swap now id why e) (reprice price pos') t'
              (rw (same_id now why e.config price pos, own, new_trackers) tracked) spent,
      )
