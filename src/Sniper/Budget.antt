-- ===== src/Sniper/Budget.antt =====
-- The daily budget of nexus/internal/sniper/sniper.go.
use mmh.Prelude.{
  ◌≡◌, refl, ◌∙◌, ◌⊎◌, inl, inr, ◌≢◌, ℕ, String, true, false, Option, List, [], ◌∷◌, arith, ltb,
}
use mmh.Numbers.{Numbers, is_negative}
use mmh.Numbers.Laws.{CanRefund}
use mmh.Exits.{Reason, ExitDecision}
use mmh.Sniper.{
  Config, Engine, TokenAnalysis, SwapParams, SwapResult, Verdict, verdict_buy, buy_amount,
  reset_daily, reserve_daily_budget, refund_daily_budget, execute_buy, on_discovery, execute_sell,
  execute_partial_sell, is_buy, verdict_wait, verdict_skip, verdict_rug, verdict_honeypot,
}

module _ ⦃N : Numbers⦄ where
  abbrev pub max_spend : Config → N.Decimal
  max_spend c = N.new_from_float c.max_daily_spend_sol

  -- The calls that spend, refund or close.
  pub data Call : Type 0 where
    discovers : ℕ → String → TokenAnalysis → Call
    sells : ℕ → String → Reason → Call
    sells_part : String → ExitDecision → Call

  unfoldable pub step : (ℕ → SwapParams → Option SwapResult) → Call → Engine → Engine
  step swap (discovers now id a) e = on_discovery swap now id a e
  step swap (sells now id why) e = execute_sell swap now id why e
  step swap (sells_part id d) e = execute_partial_sell swap id d e

  unfoldable pub run : (ℕ → SwapParams → Option SwapResult) → List Call → Engine → Engine
  run swap [] e = e
  run swap (c ∷ cs) e = run swap cs (step swap c e)

  -- The engine has the configuration `c` and has not spent more than its limit.
  pub record IsWithin (c : Config) (e : Engine) : Type 0 where
    pub same_config : e.config ≡ c
    pub spent_within : N.greater_than e.daily_spent_sol (max_spend c) ≡ false

  module _ (c : Config) (laws : CanRefund)
      (zero_within : N.greater_than N.zero (max_spend c) ≡ false)
      (buys_forward : is_negative (N.new_from_float c.max_buy_sol) ≡ false) where
    reserve_daily_budget-IsWithin :
        (now : ℕ) (e : Engine) → IsWithin c e → IsWithin c (reserve_daily_budget now e).0
    unfolding reserve_daily_budget
    reserve_daily_budget-IsWithin now e w = ground arith

    refund_daily_budget-IsWithin : (e : Engine) → IsWithin c e → IsWithin c (refund_daily_budget e)
    unfolding refund_daily_budget
    refund_daily_budget-IsWithin e w =
        ground
          (arith, laws.sub_within e.daily_spent_sol (N.new_from_float c.max_buy_sol) (max_spend c))

    execute_buy-IsWithin :
        (swap : ℕ → SwapParams → Option SwapResult) (now : ℕ) (id : String) (a : TokenAnalysis)
        (e : Engine)
        → IsWithin c e
        → IsWithin c (execute_buy swap now id a e)
    unfolding execute_buy
    execute_buy-IsWithin swap now id a e w =
        ground
          (arith, laws.sub_within e.daily_spent_sol (N.new_from_float c.max_buy_sol) (max_spend c))

    on_discovery-IsWithin :
        (swap : ℕ → SwapParams → Option SwapResult) (now : ℕ) (id : String) (a : TokenAnalysis)
        (e : Engine)
        → IsWithin c e
        → IsWithin c (on_discovery swap now id a e)
    unfolding on_discovery
    on_discovery-IsWithin swap now id a e w = ground (
      arith,
      reserve_daily_budget-IsWithin now e w,
      execute_buy-IsWithin swap now id a (reserve_daily_budget now e).0
          (reserve_daily_budget-IsWithin now e w),
    )

    step-IsWithin :
        (swap : ℕ → SwapParams → Option SwapResult) (call : Call) (e : Engine)
        → IsWithin c e
        → IsWithin c (step swap call e)
    unfolding step execute_sell execute_partial_sell
    step-IsWithin swap (discovers now id a) e w = on_discovery-IsWithin swap now id a e w
    step-IsWithin swap (sells now id why) e w = ground arith
    step-IsWithin swap (sells_part id d) e w = ground arith

    run-IsWithin :
        (swap : ℕ → SwapParams → Option SwapResult) (calls : List Call) (e : Engine)
        → IsWithin c e
        → IsWithin c (run swap calls e)
    unfolding run
    run-IsWithin swap [] e w = w
    run-IsWithin swap (call ∷ calls) e w =
        run-IsWithin swap calls (step swap call e) (step-IsWithin swap call e w)

    -- With a purchase amount not below zero, a spending limit not below zero and exact subtraction:
    -- from an engine that has spent nothing, whatever is discovered and sold and whatever the
    -- exchange answers, the spending recorded for the day never exceeds the limit.
    pub spending_bounded :
        (swap : ℕ → SwapParams → Option SwapResult) (calls : List Call) (e : Engine)
        → e.config ≡ c
        → e.daily_spent_sol ≡ N.zero
        → N.greater_than (run swap calls e).daily_spent_sol (max_spend c) ≡ false
    spending_bounded swap calls e same none_spent =
        (run-IsWithin swap calls e
          (record { same_config = same; spent_within = rw none_spent zero_within })).spent_within

  reserve_lem :
      (now : ℕ) (e : Engine)
      → (reserve_daily_budget now e).1 ≡ true
      → (reserve_daily_budget now e).0 ≡ record (reset_daily now e) {
        daily_spent_sol = N.add (reset_daily now e).daily_spent_sol (buy_amount e);
      }
  unfolding reserve_daily_budget
  reserve_lem now e h = ground arith

  is_buy-false : (v : Verdict) → v ≢ verdict_buy → is_buy v ≡ false
  is_buy-false verdict_buy h = absurd (h refl)
  is_buy-false verdict_wait h = refl
  is_buy-false verdict_skip h = refl
  is_buy-false verdict_rug h = refl
  is_buy-false verdict_honeypot h = refl

  skipped :
      (swap : ℕ → SwapParams → Option SwapResult) (now : ℕ) (id : String) (a : TokenAnalysis)
      (e : Engine)
      → (reserve_daily_budget now e).1 ≡ true
      → (ltb a.safety_score (e.config).min_safety_score ≡ true) ⊎ (a.verdict ≢ verdict_buy)
      → on_discovery swap now id a e ≡ (reserve_daily_budget now e).0
  unfolding on_discovery
  skipped swap now id a e h (inl low) = ground arith
  skipped swap now id a e h (inr other) = ground (arith, is_buy-false a.verdict other)

  -- A token that is skipped for its score or its verdict after the budget has been reserved buys
  -- nothing, and yet the amount of a purchase stays spent.
  pub skipped_discovery_spends :
      (swap : ℕ → SwapParams → Option SwapResult) (now : ℕ) (id : String) (a : TokenAnalysis)
      (e : Engine)
      → (reserve_daily_budget now e).1 ≡ true
      → (ltb a.safety_score (e.config).min_safety_score ≡ true) ⊎ (a.verdict ≢ verdict_buy)
      → on_discovery swap now id a e ≡ record (reset_daily now e) {
        daily_spent_sol = N.add (reset_daily now e).daily_spent_sol (buy_amount e);
      }
  skipped_discovery_spends swap now id a e h skip =
      skipped swap now id a e h skip ∙ reserve_lem now e h
