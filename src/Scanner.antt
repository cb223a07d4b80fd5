-- ===== src/Scanner.antt =====
-- nexus/internal/scanner/sellsim.go, the simulation of a sale by the pool's formula, and the data of nexus/internal/solana/types.go
-- that the scanner and the safety monitor read. `now` is in nanoseconds since the Unix epoch.
pub mod Pools
pub mod Sanitizer
use mmh.Prelude.{ℕ, String, Bool, true, false, if◌then◌else◌}
use mmh.Numbers.{Numbers, is_zero}

module _ ⦃N : Numbers⦄ where
  pub record PoolInfo : Type 0 where
    pub pool_address : String
    pub dex : String
    pub token_mint : String
    pub quote_mint : String
    pub token_reserve : N.Decimal
    pub quote_reserve : N.Decimal
    pub liquidity_usd : N.Decimal
    pub price_usd : N.Decimal
    pub volume_24h_usd : N.Decimal
    pub created_at : ℕ
    pub lp_burned : Bool
    pub lp_locked : Bool
    pub pool_open_time : ℕ

  pub record HolderInfo : Type 0 where
    pub address : String
    pub balance : N.Decimal
    pub percentage : N.Float
    pub is_creator : Bool

  pub record SellSimResult : Type 0 where
    pub can_sell : Bool
    pub estimated_tax_pct : N.Float
    pub estimated_slippage : N.Float
    pub revert_reason : String
    pub amount_out : N.Decimal
    pub price_impact_pct : N.Float
    pub simulated_at : ℕ

  abbrev pub cannot_sell : String → ℕ → SellSimResult
  cannot_sell why now = record {
    can_sell = false;
    estimated_tax_pct = N.literal 0 1;
    estimated_slippage = N.literal 0 1;
    revert_reason = why;
    amount_out = N.zero;
    price_impact_pct = N.literal 0 1;
    simulated_at = now;
  }

  abbrev pub pool_fee_multiplier : N.Decimal
  pool_fee_multiplier = N.new_from_float (N.literal 9975 10_000)

  unfoldable pub calculate_expected_output : N.Decimal → PoolInfo → N.Decimal
  calculate_expected_output token_amount pool =
      let effective_amount = N.mul token_amount pool_fee_multiplier in
      let denominator = N.add pool.token_reserve effective_amount in
      if is_zero pool.token_reserve
      then N.zero
      else if is_zero pool.quote_reserve
      then N.zero
      else if is_zero denominator
      then N.zero
      else N.div (N.mul effective_amount pool.quote_reserve) denominator

  unfoldable pub calculate_price_impact : N.Decimal → PoolInfo → N.Float
  calculate_price_impact token_amount pool =
      if is_zero pool.token_reserve
      then N.literal 100 1
      else N.inexact_float64 (N.mul (N.div token_amount pool.token_reserve) (N.new_from_int 100))

  unfoldable pub simulate_sell : ℕ → N.Decimal → PoolInfo → SellSimResult
  unfolding calculate_expected_output calculate_price_impact
  simulate_sell now amount pool =
      let expected_out = calculate_expected_output amount pool in
      let price_impact = calculate_price_impact amount pool in
      let no_reserves = cannot_sell "pool reserves are zero - cannot sell" now in
      if is_zero pool.quote_reserve
      then no_reserves
      else if is_zero pool.token_reserve
      then no_reserves
      else if N.greater_than expected_out
          (N.mul pool.quote_reserve (N.new_from_float (N.literal 9 10)))
      then cannot_sell "sell would drain >90% of pool quote reserves" now
      else record {
        can_sell = true;
        estimated_tax_pct =
            if N.flt (N.literal 50 1) price_impact
            then N.fsub price_impact (N.literal 50 1)
            else N.literal 0 1;
        estimated_slippage = price_impact;
        revert_reason = "";
        amount_out = expected_out;
        price_impact_pct = price_impact;
        simulated_at = now;
      }

  unfoldable pub simulate_pre_buy : ℕ → N.Decimal → PoolInfo → SellSimResult
  unfolding simulate_sell
  simulate_pre_buy now buy_amount_sol pool =
      let effective_buy = N.mul buy_amount_sol pool_fee_multiplier in
      let numerator = N.mul effective_buy pool.token_reserve in
      let denominator = N.add pool.quote_reserve effective_buy in
      let no_reserves = cannot_sell "pool reserves are zero" now in
      if is_zero pool.quote_reserve
      then no_reserves
      else if is_zero pool.token_reserve
      then no_reserves
      else if is_zero denominator
      then cannot_sell "zero denominator in buy estimation" now
      else simulate_sell now (N.div numerator denominator) pool
