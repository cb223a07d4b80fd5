-- ===== src/Scanner/Sanitizer.antt =====
-- nexus/internal/scanner/sanitizer.go: the first filter of discovered tokens. strings.ToLower, regexp and the runes of
-- a string are parameters. `now` is in nanoseconds since the Unix epoch, and limits are not negative.
-- `none` is a query of the graph without fuel. Texts of reasons, latencies and logging are left out,
-- as are mutexes; the map of filter counts has its entries by the filter's name.
pub mod Passed
use mmh.Prelude.{
  ℕ, suc, ◌+◌, String, Bool, true, false, not, ◌&&◌, ◌||◌, Option, none, some, List, [], ◌∷◌,
  if◌then◌else◌, ltb, leb, ◌==◌, str_eq, mem, Map, lookup, insert,
}
use mmh.Numbers.{Numbers}
use mmh.Scanner.{PoolInfo}
use mmh.Graph.{Engine as GraphEngine, wash_trader, has_label}
use mmh.Graph.Queries.{EntityReport, query_deployer}

-- strings.ToLower, regexp.MatchString of a pattern and a text, and the runes of a text.
pub record Texts : Type 0 where
  pub to_lower : String → String
  pub match_string : String → String → Bool
  pub runes : String → List ℕ

abbrev pub sol_mint : String
sol_mint = "So11111111111111111111111111111111111111112"

abbrev pub honeypot_patterns : List String
honeypot_patterns =
    "(?i)^safe.*(moon|mars|elon)" ∷ "(?i)(eloncum|elonmusk|dogelon)" ∷ "(?i)^(test|debug|fake)\\s"
    ∷ "(?i)(honeypot|rugpull|scam)" ∷ "(?i)^(free|airdrop|claim)\\s" ∷ []

abbrev pub impersonation_names : List String
impersonation_names =
    "bitcoin" ∷ "ethereum" ∷ "solana" ∷ "usdc" ∷ "usdt" ∷ "bonk" ∷ "wif" ∷ "jup" ∷ "raydium"
    ∷ "jupiter" ∷ "marinade" ∷ []

pub data Rejection : Type 0 where
  mint_blacklisted honeypot_name impersonates cyrillic_name freeze_active : Rejection
  low_liquidity low_reserve near_rugger large_cluster washes_trades too_many_tokens : Rejection

-- The name that `recordDrop` counts a rejection under.
abbrev pub filter_name : Rejection → String
filter_name mint_blacklisted = "blacklist"
filter_name honeypot_name = "name_pattern"
filter_name impersonates = "name_pattern"
filter_name cyrillic_name = "name_pattern"
filter_name freeze_active = "authority"
filter_name low_liquidity = "liquidity"
filter_name low_reserve = "liquidity"
filter_name near_rugger = "entity_graph"
filter_name large_cluster = "entity_graph"
filter_name washes_trades = "entity_graph"
filter_name too_many_tokens = "deployer_hist"

pub record DeployerEntry : Type 0 where
  pub count : ℕ
  pub first_seen : ℕ

module _ ⦃N : Numbers⦄ where
  pub record TokenInfo : Type 0 where
    pub mint : String
    pub symbol : String
    pub name : String
    pub decimals : ℕ
    pub supply : N.Decimal
    pub mint_authority : String
    pub freeze_authority : String
    pub created_at : ℕ
    pub metadata_uri : String

  pub record SanitizerConfig : Type 0 where
    pub min_liquidity_usd : N.Float
    pub min_quote_reserve_sol : N.Float
    pub max_deployer_tokens_24h : ℕ
    pub sybil_cluster_threshold : ℕ

  pub record Sanitizer : Type 0 where
    pub config : SanitizerConfig
    pub graph : Option GraphEngine
    pub blacklist : Map Bool
    pub deployer_hist : Map DeployerEntry
    pub total_checked : ℕ
    pub total_passed : ℕ
    pub total_dropped : ℕ
    pub filter_counts : Map ℕ

  unfoldable pub default_sanitizer_config : SanitizerConfig
  default_sanitizer_config = record {
    min_liquidity_usd = N.literal 500 1;
    min_quote_reserve_sol = N.literal 1 1;
    max_deployer_tokens_24h = 5;
    sybil_cluster_threshold = 20;
  }

  unfoldable pub new_sanitizer : SanitizerConfig → Option GraphEngine → Sanitizer
  new_sanitizer c graph = record {
    config = c;
    graph = graph;
    blacklist = [];
    deployer_hist = [];
    total_checked = 0;
    total_passed = 0;
    total_dropped = 0;
    filter_counts = [];
  }

  unfoldable pub add_blacklist : List String → Sanitizer → Sanitizer
  add_blacklist [] s = s
  add_blacklist (a ∷ rest) s =
      add_blacklist rest (record s { blacklist = insert a true s.blacklist })

  -- A missing entry is false.
  abbrev pub is_blacklisted : String → Sanitizer → Bool
  is_blacklisted a s = elim (lookup a s.blacklist) [ none ↦ false | some b ↦ b ]

  unfoldable pub check_blacklist : PoolInfo → Sanitizer → Option Rejection
  check_blacklist pool s = if is_blacklisted pool.token_mint s then some mint_blacklisted else none

  abbrev pub has_cyrillic : List ℕ → Bool
  has_cyrillic [] = false
  has_cyrillic (r ∷ rs) =
      ((leb 1024 r && leb r 1279) || (leb 1280 r && leb r 1327)) || has_cyrillic rs

  abbrev pub matches_any : (String → String → Bool) → List String → String → String → Bool
  matches_any match_string [] name symbol = false
  matches_any match_string (p ∷ ps) name symbol =
      (match_string p name || match_string p symbol) || matches_any match_string ps name symbol

  unfoldable pub check_name_patterns : ⦃T : Texts⦄ → TokenInfo → Option Rejection
  check_name_patterns ⦃T⦄ token =
      let name = T.to_lower token.name in
      let symbol = T.to_lower token.symbol in
      if matches_any T.match_string honeypot_patterns name symbol
      then some honeypot_name
      else if mem name impersonation_names || mem symbol impersonation_names
      then some impersonates
      else if has_cyrillic (T.runes name)
      then some cyrillic_name
      else none

  unfoldable pub check_authorities : TokenInfo → Option Rejection
  check_authorities token = if str_eq token.freeze_authority "" then none else some freeze_active

  unfoldable pub check_liquidity : PoolInfo → Sanitizer → Option Rejection
  check_liquidity pool s =
      if N.less_than pool.liquidity_usd (N.new_from_float (s.config).min_liquidity_usd)
      then some low_liquidity
      else if str_eq pool.quote_mint sol_mint
          && N.less_than pool.quote_reserve (N.new_from_float (s.config).min_quote_reserve_sol)
      then some low_reserve
      else none

  -- What a report leads to.
  abbrev pub is_one : Option ℕ → Bool
  is_one none = false
  is_one (some n) = n == 1

  unfoldable pub judge : EntityReport → Sanitizer → Option Rejection
  judge report s =
      if is_one report.hops_to_rugger
      then some near_rugger
      else if ltb (s.config).sybil_cluster_threshold report.cluster_size
      then some large_cluster
      else if has_label wash_trader report.labels
      then some washes_trades
      else none

  unfoldable pub check_deployer_history : ℕ → String → Sanitizer → Sanitizer × Option Rejection
  check_deployer_history now deployer s =
      let fresh = record s {
        deployer_hist = insert deployer (record { count = 1; first_seen = now }) s.deployer_hist;
      } in
      elim (lookup deployer s.deployer_hist) [
        | none ↦ (fresh, none)
        | some entry ↦
            let counted = record s {
              deployer_hist =
                  insert deployer (record entry { count = suc entry.count }) s.deployer_hist;
            } in
            if ltb (entry.first_seen + 86_400_000_000_000) now
            then (fresh, none)
            else if ltb (s.config).max_deployer_tokens_24h (suc entry.count)
            then (counted, some too_many_tokens)
            else (counted, none)
      ]

  abbrev pub filter_count : String → Sanitizer → ℕ
  filter_count name s = elim (lookup name s.filter_counts) [ none ↦ 0 | some n ↦ n ]

  unfoldable pub record_drop : String → Sanitizer → Sanitizer
  record_drop name s = record s {
    total_dropped = suc s.total_dropped;
    filter_counts = insert name (suc (filter_count name s)) s.filter_counts;
  }

  abbrev pub drop : Rejection → Sanitizer → Sanitizer × Option Rejection
  drop why s = (record_drop (filter_name why) s, some why)

  abbrev pub pass : Sanitizer → Sanitizer × Option Rejection
  pass s = (record s { total_passed = suc s.total_passed }, none)

  -- The first filter that rejects.
  abbrev pub or_else : Option Rejection → Option Rejection → Option Rejection
  or_else (some why) later = some why
  or_else none later = later

  -- The filters that read no graph and no history, in their order.
  unfoldable pub filters : ⦃T : Texts⦄ → PoolInfo → Option TokenInfo → Sanitizer → Option Rejection
  unfolding check_blacklist check_name_patterns check_authorities check_liquidity
  filters pool none s = or_else (check_blacklist pool s) (check_liquidity pool s)
  filters pool (some token) s = or_else (check_blacklist pool s) (
      or_else (check_name_patterns token)
        (or_else (check_authorities token) (check_liquidity pool s)))

  -- The history of the deployer, whose address falls back to the mint.
  unfoldable pub check_history : ℕ → PoolInfo → String → Sanitizer → Sanitizer × Option Rejection
  unfolding check_deployer_history
  check_history now pool deployer s =
      let addr = if str_eq deployer "" then pool.token_mint else deployer in
      let (s', rejected) = check_deployer_history now addr s in
      if str_eq pool.token_mint ""
      then pass s
      else elim rejected [ none ↦ pass s' | some why ↦ drop why s' ]

  unfoldable pub check :
      ⦃T : Texts⦄
      → ℕ
      → PoolInfo
      → Option TokenInfo
      → Sanitizer
      → Option (Sanitizer × Option Rejection)
  unfolding filters judge check_history
  check now pool token s =
      let s1 = record s { total_checked = suc s.total_checked } in
      elim (filters pool token s) [
        | some why ↦ some (drop why s1)
        | none ↦ elim s.graph [
          | none ↦ some (check_history now pool "" s1)
          | some engine ↦
              if str_eq pool.token_mint ""
              then some (check_history now pool "" s1)
              else elim (query_deployer pool.token_mint engine) [
                | none ↦ none
                | some (engine', report) ↦
                    let s2 = record s1 { graph = some engine' } in
                    elim (judge report s) [
                      | some why ↦ some (drop why s2)
                      | none ↦ some (check_history now pool report.seed_funder s2)
                    ]
              ]
        ]
      ]

  abbrev pub recent : ℕ → Map DeployerEntry → Map DeployerEntry
  recent now [] = []
  recent now ((a, entry) ∷ m) =
      let rest = recent now m in
      if ltb (entry.first_seen + 86_400_000_000_000) now then rest else (a, entry) ∷ rest

  unfoldable pub cleanup_deployer_history : ℕ → Sanitizer → Sanitizer
  cleanup_deployer_history now s = record s { deployer_hist = recent now s.deployer_hist }
