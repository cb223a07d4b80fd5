-- ===== src/Scanner/Pools/Limits.antt =====
-- The number of pools that the manager of nexus/internal/scanner/poolstate.go watches.
use mmh.Prelude.{
  ◌≡◌, refl, inl, inr, ◌⊎◌, ap, sym, ◌∙◌, subst, ltb, true, false, has_key, eq_of_str_eq,
  str_eq_refl, ℕ, suc, ◌*◌, ◌≤◌, Bool, String, none, some, ◌∷◌, [], arith, length, str_eq, Map,
  lookup, delete, length-insert, length-delete, Bool-cases, Option-cases, List-cases,
}
use mathlib.Core.Bool.{true≢false}
use mmh.Numbers.{Numbers}
use mmh.Scanner.{PoolInfo}
use mmh.Scanner.Pools.{
  PoolState, PoolStateManager, record_trade, with_trade, keep_recent, evict_expired, track_pool,
  find_oldest, evict_oldest, new_state,
}

module _ ⦃N : Numbers⦄ where
  -- A trade adds no pool.
  pub record_trade-length :
      (a : String) (is_buy : Bool) (amount : N.Decimal) (m : PoolStateManager)
      → length (record_trade a is_buy amount m).pools ≡ length m.pools
  unfolding record_trade
  record_trade-length a is_buy amount m = elim (Option-cases (lookup a m.pools)) [
    | inl missing ↦ ground (arith, missing)
    | inr (state, there) ↦
        ground (arith, there, length-insert a (with_trade is_buy amount state) m.pools)
  ]

  keep_recent-length :
      (now age : ℕ) (m : Map PoolState) → length (keep_recent now age m).0 ≤ length m
  keep_recent-length now age [] = omega arith
  keep_recent-length now age ((a, state) ∷ m) = ground (arith, keep_recent-length now age m)

  -- What expires is no longer watched, and nothing is added.
  pub evict_expired-length :
      (now : ℕ) (m : PoolStateManager) → length (evict_expired now m).pools ≤ length m.pools
  unfolding evict_expired
  evict_expired-length now m =
      keep_recent-length now (m.config.evict_after_minutes * 60_000_000_000) m.pools

  length-delete_found :
      (k : String) (m : Map PoolState) → has_key k m ≡ true → suc (length (delete k m)) ≤ length m
  unfolding delete lookup
  length-delete_found k [] h = cc
  length-delete_found k ((j, v) ∷ m) h = elim (Bool-cases (str_eq j k)) [
    | inl same ↦ ground (arith, same, length-delete k m)
    | inr other ↦ ground (arith, other, length-delete_found k m (ground (arith, other, h)))
  ]

  -- The search for the oldest keeps its start, or finds a pool.
  find_oldest_among :
      (m : Map PoolState) (addr : String) (t : ℕ)
      → (find_oldest m addr (some t) ≡ addr) ⊎ (has_key (find_oldest m addr (some t)) m ≡ true)
  unfolding find_oldest lookup
  find_oldest_among [] addr t = inl refl
  find_oldest_among ((a, s) ∷ m) addr t = elim (Bool-cases (ltb s.detected_at t)) [
    | inl older ↦ elim (find_oldest_among m a s.detected_at) [
      | inl start ↦ inr (ground (arith, older, start, str_eq_refl a))
      | inr found ↦ inr (ground (arith, older, found))
    ]
    | inr newer ↦ elim (find_oldest_among m addr t) [
      | inl start ↦ inl (ground (arith, newer, start))
      | inr found ↦ inr (ground (arith, newer, found))
    ]
  ]

  oldest_found :
      (a : String) (s : PoolState) (rest : Map PoolState)
      → has_key (find_oldest ((a, s) ∷ rest) "" none) ((a, s) ∷ rest) ≡ true
  unfolding find_oldest lookup
  oldest_found a s rest = elim (find_oldest_among rest a s.detected_at) [
    | inl start ↦ ground (arith, start, str_eq_refl a)
    | inr found ↦ ground (arith, found)
  ]

  evict_oldest-shorter :
      (a : String) (s : PoolState) (rest : Map PoolState) (m : PoolStateManager)
      → m.pools ≡ (a, s) ∷ rest
      → has_key "" m.pools ≡ false
      → suc (length (evict_oldest m).pools) ≤ length m.pools
  unfolding evict_oldest
  evict_oldest-shorter a s rest m e named =
      let k = find_oldest m.pools "" none in
      let found : has_key k m.pools ≡ true =
        subst (λ pools. has_key (find_oldest pools "" none) pools ≡ true) (sym e)
          (oldest_found a s rest) in
      elim (Bool-cases (str_eq k "")) [
        | inl nameless ↦ absurd (
            true≢false
              (sym found ∙ ap (λ k. has_key k m.pools) (eq_of_str_eq k "" nameless) ∙ named))
        | inr proper ↦ ground (arith, proper, length-delete_found k m.pools found)
      ]

  -- If the manager watches no pool without an address and no more pools than it may, of which there
  -- is at least one, then so it does after it is told of another pool.
  pub track_pool-length :
      (now : ℕ) (pool : PoolInfo) (m : PoolStateManager)
      → 1 ≤ m.config.max_tracked_pools
      → has_key "" m.pools ≡ false
      → length m.pools ≤ m.config.max_tracked_pools
      → length (track_pool now pool m).pools ≤ m.config.max_tracked_pools
  unfolding track_pool
  track_pool-length now pool m one named h = elim (List-cases m.pools) [
    | inl empty ↦ ground (
      arith,
      one,
      h,
      ap length empty,
      length-insert pool.pool_address (new_state now pool) m.pools,
    )
    | inr (e, rest, filled) ↦ ground (
      arith,
      h,
      evict_oldest-shorter (e.0) (e.1) rest m filled named,
      length-insert pool.pool_address (new_state now pool) m.pools,
      length-insert pool.pool_address (new_state now pool) (evict_oldest m).pools,
    )
  ]
