-- ===== src/Scanner/Pools.antt =====
-- nexus/internal/scanner/poolstate.go: the manager of the pools that are watched. `now` is in nanoseconds since the
-- Unix epoch, which no time comes before; the zero time is `none`. The configuration's limits are
-- not negative. What the chain answers is an argument, `none` for an error, and what the callbacks
-- get is a list. Loops over the map go in the order of the list. Mutexes and logging are left out.
pub mod Limits
use mmh.Prelude.{
  ℕ, zero, suc, ◌+◌, ◌*◌, String, Bool, true, false, not, ◌&&◌, ◌||◌, Option, none, some, List, [],
  ◌∷◌, ◌++◌, if◌then◌else◌, ltb, leb, length, str_eq, Map, lookup, insert, delete,
}
use mmh.Numbers.{Numbers, is_positive}
use mmh.Scanner.{PoolInfo}

module _ ⦃N : Numbers⦄ where
  pub record PoolState : Type 0 where
    pub pool : PoolInfo
    pub last_update : ℕ
    pub initial_liq_usd : N.Decimal
    pub current_liq_usd : N.Decimal
    pub liq_changes_pct : N.Float
    pub price_at_detect : N.Decimal
    pub current_price : N.Decimal
    pub price_change_pct : N.Float
    pub buy_count : ℕ
    pub sell_count : ℕ
    pub largest_buy_sol : N.Decimal
    pub largest_sell_sol : N.Decimal
    pub holder_count : ℕ
    pub is_active : Bool
    pub detected_at : ℕ

  pub record PoolStateConfig : Type 0 where
    pub max_tracked_pools : ℕ
    pub refresh_interval_ms : ℕ
    pub evict_after_minutes : ℕ
    pub price_alert_pct : N.Float

  pub record PoolStateManager : Type 0 where
    pub config : PoolStateConfig
    pub pools : Map PoolState
    pub has_on_liquidity_change : Bool
    pub has_on_price_change : Bool
    pub tracked : ℕ
    pub refreshes : ℕ
    pub evictions : ℕ

  -- The calls of `onLiquidityChange` and `onPriceChange`.
  pub data Alert : Type 0 where
    liquidity_change price_change : String → N.Float → Alert

  unfoldable pub default_pool_state_config : PoolStateConfig
  default_pool_state_config = record {
    max_tracked_pools = 1000;
    refresh_interval_ms = 5000;
    evict_after_minutes = 120;
    price_alert_pct = N.literal 10 1;
  }

  unfoldable pub new_pool_state_manager : PoolStateConfig → PoolStateManager
  new_pool_state_manager c = record {
    config = c;
    pools = [];
    has_on_liquidity_change = false;
    has_on_price_change = false;
    tracked = 0;
    refreshes = 0;
    evictions = 0;
  }

  unfoldable pub set_on_liquidity_change : PoolStateManager → PoolStateManager
  set_on_liquidity_change m = record m { has_on_liquidity_change = true }

  unfoldable pub set_on_price_change : PoolStateManager → PoolStateManager
  set_on_price_change m = record m { has_on_price_change = true }

  -- The loop of `evictOldest`.
  unfoldable pub find_oldest : Map PoolState → String → Option ℕ → String
  find_oldest [] addr oldest = addr
  find_oldest ((a, state) ∷ m) addr none = find_oldest m a (some state.detected_at)
  find_oldest ((a, state) ∷ m) addr (some t) =
      if ltb state.detected_at t
      then find_oldest m a (some state.detected_at)
      else find_oldest m addr (some t)

  unfoldable pub evict_oldest : PoolStateManager → PoolStateManager
  unfolding find_oldest
  evict_oldest m =
      let addr = find_oldest m.pools "" none in
      if str_eq addr ""
      then m
      else record m { pools = delete addr m.pools; evictions = suc m.evictions }

  abbrev pub new_state : ℕ → PoolInfo → PoolState
  new_state now pool = record {
    pool = pool;
    last_update = now;
    initial_liq_usd = pool.liquidity_usd;
    current_liq_usd = pool.liquidity_usd;
    liq_changes_pct = N.literal 0 1;
    price_at_detect = pool.price_usd;
    current_price = pool.price_usd;
    price_change_pct = N.literal 0 1;
    buy_count = 0;
    sell_count = 0;
    largest_buy_sol = N.zero;
    largest_sell_sol = N.zero;
    holder_count = 0;
    is_active = true;
    detected_at = now;
  }

  unfoldable pub track_pool : ℕ → PoolInfo → PoolStateManager → PoolStateManager
  unfolding evict_oldest
  track_pool now pool m =
      let room = if leb (m.config).max_tracked_pools (length m.pools) then evict_oldest m else m in
      elim (lookup pool.pool_address m.pools) [
        | some state ↦ m
        | none ↦ record room {
          pools = insert pool.pool_address (new_state now pool) room.pools;
          tracked = suc room.tracked;
        }
      ]

  unfoldable pub get_state : String → PoolStateManager → Option PoolState
  get_state a m = lookup a m.pools

  abbrev pub active_among : Map PoolState → List PoolState
  active_among [] = []
  active_among ((a, state) ∷ m) =
      let rest = active_among m in if state.is_active then state ∷ rest else rest

  unfoldable pub get_active_states : PoolStateManager → List PoolState
  get_active_states m = active_among m.pools

  abbrev larger : N.Decimal → N.Decimal → N.Decimal
  larger amount most = if N.greater_than amount most then amount else most

  abbrev pub with_trade : Bool → N.Decimal → PoolState → PoolState
  with_trade true amount state = record state {
    buy_count = suc state.buy_count;
    largest_buy_sol = larger amount state.largest_buy_sol;
  }
  with_trade false amount state = record state {
    sell_count = suc state.sell_count;
    largest_sell_sol = larger amount state.largest_sell_sol;
  }

  unfoldable pub record_trade : String → Bool → N.Decimal → PoolStateManager → PoolStateManager
  record_trade a is_buy amount m = elim (lookup a m.pools) [
    | none ↦ m
    | some state ↦ record m { pools = insert a (with_trade is_buy amount state) m.pools }
  ]

  -- The change from the second to the first, in percent.
  abbrev pub change_pct : N.Decimal → N.Decimal → N.Float
  change_pct value base =
      N.inexact_float64 (N.mul (N.div (N.sub value base) base) (N.new_from_int 100))

  abbrev pub updated : ℕ → PoolInfo → PoolState → PoolState
  updated now pool state = record state {
    pool = pool;
    current_liq_usd = pool.liquidity_usd;
    current_price = pool.price_usd;
    last_update = now;
    liq_changes_pct =
        if is_positive state.initial_liq_usd
        then change_pct pool.liquidity_usd state.initial_liq_usd
        else state.liq_changes_pct;
    price_change_pct =
        if is_positive state.price_at_detect
        then change_pct pool.price_usd state.price_at_detect
        else state.price_change_pct;
  }

  -- The call of one callback, for a value that was `before`.
  abbrev pub alert_if :
      (String → N.Float → Alert) → Bool → N.Float → String → N.Decimal → N.Decimal → List Alert
  alert_if make is_set limit a value before =
      let delta = change_pct value before in
      if (is_set && is_positive before) && (N.flt limit delta || N.flt delta (N.fneg limit))
      then make a delta ∷ []
      else []

  unfoldable pub update_state :
      ℕ → String → PoolInfo → PoolStateManager → PoolStateManager × List Alert
  update_state now a pool m = elim (lookup a m.pools) [
    | none ↦ (m, [])
    | some state ↦
        let limit = (m.config).price_alert_pct in
        (
          record m { pools = insert a (updated now pool state) m.pools },
          alert_if liquidity_change m.has_on_liquidity_change limit a pool.liquidity_usd
                state.current_liq_usd
              ++ alert_if price_change m.has_on_price_change limit a pool.price_usd
                  state.current_price,
        )
  ]

  abbrev pub active_addresses : Map PoolState → List String
  active_addresses [] = []
  active_addresses ((a, state) ∷ m) =
      let rest = active_addresses m in if state.is_active then a ∷ rest else rest

  -- The loop of `refreshAll`: the context ends after `live` rounds.
  unfoldable pub refresh :
      ℕ
      → (String → Option PoolInfo)
      → ℕ
      → List String
      → PoolStateManager
      → PoolStateManager × List Alert
  unfolding update_state
  refresh now answer live [] m = (m, [])
  refresh now answer zero (a ∷ rest) m = (m, [])
  refresh now answer (suc live) (a ∷ rest) m = elim (answer a) [
    | none ↦ refresh now answer live rest m
    | some pool ↦
        let (m', alerts) = update_state now a pool m in
        let (m'', later) =
          refresh now answer live rest (record m' { refreshes = suc m'.refreshes }) in
        (m'', alerts ++ later)
  ]

  unfoldable pub refresh_all :
      ℕ → (String → Option PoolInfo) → ℕ → PoolStateManager → PoolStateManager × List Alert
  unfolding refresh
  refresh_all now answer live m = refresh now answer live (active_addresses m.pools) m

  -- The pools that stay, and how many do not.
  abbrev pub keep_recent : ℕ → ℕ → Map PoolState → Map PoolState × ℕ
  keep_recent now age [] = ([], 0)
  keep_recent now age ((a, state) ∷ m) =
      let (rest, n) = keep_recent now age m in
      if ltb (state.detected_at + age) now then (rest, suc n) else ((a, state) ∷ rest, n)

  unfoldable pub evict_expired : ℕ → PoolStateManager → PoolStateManager
  evict_expired now m =
      let (kept, evicted) =
        keep_recent now ((m.config).evict_after_minutes * 60_000_000_000) m.pools in
      record m { pools = kept; evictions = m.evictions + evicted }

  pub record PoolStateStats : Type 0 where
    pub tracked_pools : ℕ
    pub active_pools : ℕ
    pub refreshes : ℕ
    pub evictions : ℕ

  unfoldable pub stats : PoolStateManager → PoolStateStats
  stats m = record {
    tracked_pools = length m.pools;
    active_pools = length (active_among m.pools);
    refreshes = m.refreshes;
    evictions = m.evictions;
  }
