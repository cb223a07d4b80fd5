-- ===== src/Safety/Examples.antt =====
-- Tests of the safety monitor on whole numbers, and its theorems at one position.
use mmh.Prelude.{◌≡◌, refl, ℕ, ◌≤◌, true, false, none, some, List, [], ◌∷◌, lookup}
use mmh.Prelude.Int.{pos, ◌-ℤ◌, ◌*ℤ◌, ◌/ℤ◌}
use mmh.Numbers.Whole.{whole}
use mmh.Exits.{Position, open_status, no_reason}
use mmh.Scanner.{PoolInfo}
use mmh.Graph.{Engine as GraphEngine, GraphNode, default_config, serial_rugger}
use mmh.Honeypot.{Hashing, new_tracker, default_evolution_config}
use mmh.Safety.{
  Csm, Action, warning, Answers, Round, new_csm, default_csm_config, run_checks, run,
  check_liquidity,
}
use mmh.Safety.Warnings.{count_warnings, warns_once}
use mmh.Safety.Dangers.{count_panics, rugger, unsafe_round_panics}

instance abbrev hashing : Hashing
hashing = record { sha256 = λ d. d; hex = λ d. ""; bytes_of = λ s. [] }

abbrev position : Position
position = record {
  id = "p";
  token_mint = "mint";
  pool_address = "pool";
  dex = "raydium";
  entry_price_usd = pos 10;
  amount_token = pos 5;
  cost_sol = pos 1;
  current_price = pos 10;
  highest_price = pos 10;
  pnl_pct = pos 0;
  safety_score = 80;
  buy_signature = "b";
  sell_signature = "";
  status = open_status;
  opened_at = 1;
  closed_at = none;
  close_reason = no_reason;
  sell_retries = 0;
}

abbrev wallet : GraphNode
wallet = record {
  address = "mint";
  labels = serial_rugger ∷ [];
  first_seen = 1;
  tx_count = 1;
  cluster_id = 0;
  is_cex = false;
  deploy_count = 3;
  rug_count = 2;
}

abbrev graph : GraphEngine
graph = record {
  config = default_config;
  nodes = ("mint", wallet) ∷ [];
  adj_out = [];
  adj_in = [];
  cex_addrs = [];
  next_cluster = 0;
  node_count = pos 1;
  edge_count = 0;
  query_count = 0;
}

abbrev monitor : Csm
monitor = record (new_csm default_csm_config position (pos 100)) {
  has_on_warning = true;
  deployer_addr = "mint";
  graph_engine = some graph;
}

abbrev silence : Answers
silence = record {
  pool_for_sale = none;
  current_holders = none;
  pool_for_liquidity = none;
  pool_for_contract = none;
}

abbrev pool_with : ℕ → PoolInfo
pool_with liquidity = record {
  pool_address = "pool";
  dex = "raydium";
  token_mint = "mint";
  quote_mint = "sol";
  token_reserve = pos 100;
  quote_reserve = pos 100;
  liquidity_usd = pos liquidity;
  price_usd = pos 1;
  volume_24h_usd = pos 0;
  created_at = 0;
  lp_burned = false;
  lp_locked = false;
  pool_open_time = 0;
}

-- The chain answers nothing, and the graph knows the deployer as a rugger.
unsafe_round_panics_example :
    (r : Csm × List Action) × (run_checks 60 silence monitor ≡ some r) × (1 ≤ count_panics (r.1))
unfolding new_csm default_csm_config lookup
unsafe_round_panics_example =
    unsafe_round_panics 60 silence monitor (rugger graph wallet refl refl refl refl refl refl)

-- A monitor that warns from a drop of 30 percent on, in a pool that has lost all of its liquidity.
abbrev patient : Csm
patient =
    record (new_csm (record default_csm_config { liquidity_drop_panic_pct = pos 200 }) position
      (pos 1)) { has_on_warning = true }

abbrev empty_pool : Answers
empty_pool = record silence { pool_for_liquidity = some (pool_with 0) }

abbrev rounds : List Round
rounds =
    (record {
      now = 30;
      pos = position;
      graph = graph;
      tracker = new_tracker default_evolution_config;
      answers = empty_pool;
    })
    ∷ (record {
      now = 60;
      pos = position;
      graph = graph;
      tracker = new_tracker default_evolution_config;
      answers = empty_pool;
    })
    ∷ []

first_round_warns :
    (check_liquidity (some (pool_with 0)) patient).1 ≡ warning "CSM_LIQUIDITY_WARNING" (pos 0) ∷ []
unfolding new_csm default_csm_config lookup check_liquidity ◌-ℤ◌ ◌*ℤ◌ ◌/ℤ◌
first_round_warns = refl

warns_once_example :
    (r : Csm × List Action) × (run none rounds patient ≡ some r)
    × (count_warnings "CSM_LIQUIDITY_WARNING" (r.1) ≤ 1)
warns_once_example = warns_once "CSM_LIQUIDITY_WARNING" none rounds patient
