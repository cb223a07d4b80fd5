-- ===== src/Safety.antt =====
-- nexus/internal/sniper/csm.go: the monitor that checks the safety of one position. What a round asks of the chain is
-- an argument, `none` for an error; what it calls back is a list, in the order of the calls. The
-- callbacks change the position only in what a round reads before them. `now` is in nanoseconds
-- since the Unix epoch and the zero time is `none`; intervals are not negative. The query of the
-- graph gives `none` without fuel. The loop that waits for the ticker is a list of rounds. The
-- position, the graph and the tracker are shared with the rest of the program: a round has those of
-- its time.
pub mod Returns
pub mod Warnings
pub mod Dangers
pub mod Examples
use mmh.Prelude.{
  ℕ, ◌+◌, ◌*◌, String, Bool, true, false, not, ◌&&◌, ◌||◌, Option, none, some, List, [], ◌∷◌, ◌++◌,
  if◌then◌else◌, ltb, leb, str_eq, Map, lookup, insert,
}
use mmh.Numbers.{Numbers, is_zero}
use mmh.Exits.{Position, is_open}
use mmh.Scanner.{PoolInfo, HolderInfo, SellSimResult, simulate_sell}
use mmh.Graph.{Engine as GraphEngine, serial_rugger, has_label}
use mmh.Graph.Queries.{EntityReport, query_deployer}
use mmh.Honeypot.{Hashing, Tracker, check_contract}

module _ ⦃N : Numbers⦄ where
  pub record CsmConfig : Type 0 where
    pub sell_sim_interval_s : ℕ
    pub price_check_interval_s : ℕ
    pub liquidity_drop_panic_pct : N.Float
    pub liquidity_drop_warn_pct : N.Float
    pub max_sell_tax_pct : N.Float
    pub holder_exodus_enabled : Bool
    pub holder_check_top_n : ℕ
    pub holder_exodus_panic_pct : N.Float
    pub holder_count_drop_panic_pct : N.Float
    pub entity_recheck_enabled : Bool
    pub entity_recheck_interval_s : ℕ
    pub entity_risk_panic_score : N.Float

  abbrev pub float : ℕ → N.Float
  float n = N.literal n 1

  unfoldable pub default_csm_config : CsmConfig
  default_csm_config = record {
    sell_sim_interval_s = 30;
    price_check_interval_s = 5;
    liquidity_drop_panic_pct = float 50;
    liquidity_drop_warn_pct = float 30;
    max_sell_tax_pct = float 10;
    holder_exodus_enabled = true;
    holder_check_top_n = 10;
    holder_exodus_panic_pct = float 30;
    holder_count_drop_panic_pct = float 20;
    entity_recheck_enabled = true;
    entity_recheck_interval_s = 60;
    entity_risk_panic_score = float 85;
  }

  pub record HolderSnapshot : Type 0 where
    pub holders : List HolderInfo
    pub total_balance : N.Decimal

  -- The calls of `onPanic` and `onWarning`.
  pub data Action : Type 0 where
    panic : String → Action
    warning : String → N.Float → Action

  pub record Csm : Type 0 where
    pub config : CsmConfig
    pub pos : Position
    pub has_on_warning : Bool
    pub entry_liquidity_usd : N.Decimal
    pub last_sell_sim : Option SellSimResult
    pub warning_fired : Map Bool
    pub entry_holders : Option HolderSnapshot
    pub deployer_addr : String
    pub graph_engine : Option GraphEngine
    pub honeypot_tracker : Option Tracker
    pub entry_risk_score : N.Float
    pub last_entity_check : Option ℕ

  unfoldable pub new_csm : CsmConfig → Position → N.Decimal → Csm
  new_csm c pos entry_liq = record {
    config = c;
    pos = pos;
    has_on_warning = false;
    entry_liquidity_usd = entry_liq;
    last_sell_sim = none;
    warning_fired = [];
    entry_holders = none;
    deployer_addr = "";
    graph_engine = none;
    honeypot_tracker = none;
    entry_risk_score = float 0;
    last_entity_check = none;
  }

  unfoldable pub set_entity_graph : GraphEngine → String → Csm → Option Csm
  set_entity_graph engine addr c =
      let set = record c { graph_engine = some engine; deployer_addr = addr } in
      if str_eq addr "" then some set else elim (query_deployer addr engine) [
        | none ↦ none
        | some (engine', report) ↦
            some (record set { graph_engine = some engine'; entry_risk_score = report.risk_score })
      ]

  unfoldable pub set_on_warning : Csm → Csm
  set_on_warning c = record c { has_on_warning = true }

  unfoldable pub set_honeypot_tracker : Tracker → Csm → Csm
  set_honeypot_tracker t c = record c { honeypot_tracker = some t }

  -- Whether a warning of this reason was fired.
  abbrev pub has_fired : String → Csm → Bool
  has_fired why c = elim (lookup why c.warning_fired) [ none ↦ false | some b ↦ b ]

  -- The graduated response: how far the value is from `low` towards `high`, 1 at most.
  abbrev pub severity_of : N.Float → N.Float → N.Float → N.Float
  severity_of value low high =
      let severity = N.fdiv (N.fsub value low) (N.fsub high low) in
      if N.flt (float 1) severity then float 1 else severity

  unfoldable pub warn : String → N.Float → Csm → Csm × List Action
  warn why severity c =
      if c.has_on_warning && not (has_fired why c)
      then (record c { warning_fired = insert why true c.warning_fired }, warning why severity ∷ [])
      else (c, [])

  unfoldable pub check_sell_sim : ℕ → Option PoolInfo → Csm → Csm × List Action
  check_sell_sim now none c = (c, [])
  check_sell_sim now (some pool) c =
      let result = simulate_sell now (c.pos).amount_token pool in
      let c' = record c { last_sell_sim = some result } in
      if not result.can_sell
      then (c', panic "CSM_SELL_SIM_FAILED" ∷ [])
      else if N.flt (c.config).max_sell_tax_pct result.estimated_tax_pct
      then (c', panic "CSM_TAX_INCREASE" ∷ [])
      else (c', [])

  abbrev pub drop_of : Csm → PoolInfo → N.Float
  drop_of c pool = N.inexact_float64 (
      N.mul (N.div (N.sub c.entry_liquidity_usd pool.liquidity_usd) c.entry_liquidity_usd)
        (N.new_from_int 100))

  unfoldable pub check_liquidity : Option PoolInfo → Csm → Csm × List Action
  unfolding warn
  check_liquidity none c = (c, [])
  check_liquidity (some pool) c =
      let drop_val = drop_of c pool in
      let low = (c.config).liquidity_drop_warn_pct in
      let high = (c.config).liquidity_drop_panic_pct in
      let warned = warn "CSM_LIQUIDITY_WARNING" (severity_of drop_val low high) c in
      if is_zero c.entry_liquidity_usd
      then (c, [])
      else if N.fle high drop_val
      then (c, panic "CSM_LIQUIDITY_PANIC" ∷ [])
      else if N.fle low drop_val
      then warned
      else (c, [])

  abbrev pub sum_balances : List HolderInfo → N.Decimal → N.Decimal
  sum_balances [] total = total
  sum_balances (h ∷ hs) total = sum_balances hs (N.add total h.balance)

  unfoldable pub capture_holder_snapshot : Option (List HolderInfo) → Csm → Csm
  capture_holder_snapshot none c = c
  capture_holder_snapshot (some holders) c = record c {
    entry_holders =
        some (record { holders = holders; total_balance = sum_balances holders N.zero });
  }

  -- The map of the current balances: the last holder of an address counts.
  abbrev pub balances : List HolderInfo → Map N.Decimal → Map N.Decimal
  balances [] m = m
  balances (h ∷ hs) m = balances hs (insert h.address h.balance m)

  -- The loop over the holders at entry.
  abbrev pub sold_by : Map N.Decimal → List HolderInfo → N.Decimal → N.Decimal
  sold_by current [] total = total
  sold_by current (h ∷ hs) total = sold_by current hs (
      if is_zero h.balance then total else elim (lookup h.address current) [
        | none ↦ N.add total h.balance
        | some now_held ↦
            if N.less_than now_held h.balance then N.add total (N.sub h.balance now_held) else total
      ])

  -- What follows once both sets of holders are there.
  unfoldable pub judge_exodus : HolderSnapshot → List HolderInfo → Csm → Csm × List Action
  unfolding warn
  judge_exodus entry current c =
      let sold = sold_by (balances current []) entry.holders N.zero in
      let exodus_pct =
        N.inexact_float64 (N.mul (N.div sold entry.total_balance) (N.new_from_int 100)) in
      let high = (c.config).holder_exodus_panic_pct in
      let low = N.fmul high (N.literal 6 10) in
      let warned = warn "CSM_HOLDER_EXODUS_WARNING" (severity_of exodus_pct low high) c in
      if is_zero entry.total_balance
      then (c, [])
      else if N.fle high exodus_pct
      then (c, panic "CSM_HOLDER_EXODUS" ∷ [])
      else if N.flt low exodus_pct
      then warned
      else (c, [])

  unfoldable pub check_holder_exodus : Option (List HolderInfo) → Csm → Csm × List Action
  unfolding judge_exodus
  check_holder_exodus current c = elim c.entry_holders [
    | none ↦ (c, [])
    | some entry ↦ elim entry.holders [
      | [] ↦ (c, [])
      | _ ∷ _ ↦ elim current [ none ↦ (c, []) | some holders ↦ judge_exodus entry holders c ]
    ]
  ]

  abbrev pub is_due : ℕ → Csm → Bool
  is_due now c = elim c.last_entity_check [
    | none ↦ true
    | some last ↦ leb (last + (c.config).entity_recheck_interval_s * 1_000_000_000) now
  ]

  module _ ⦃H : Hashing⦄ where
    unfoldable pub check_honeypot_retroactive : Option PoolInfo → Tracker → List Action
    check_honeypot_retroactive none t = []
    check_honeypot_retroactive (some pool) t =
        elim (check_contract (H.bytes_of pool.pool_address) t) [
          | none ↦ []
          | some sig ↦
              if N.fle (N.literal 7 10) sig.confidence
              then panic "CSM_HONEYPOT_RETROACTIVE" ∷ []
              else []
        ]

    -- What a report on the deployer leads to.
    unfoldable pub judge_report : Option PoolInfo → EntityReport → Csm → List Action
    unfolding check_honeypot_retroactive
    judge_report pool report c =
        if has_label serial_rugger report.labels
        then panic "CSM_ENTITY_SERIAL_RUGGER" ∷ []
        else if N.fle (c.config).entity_risk_panic_score report.risk_score
            && N.flt (N.fadd c.entry_risk_score (float 20)) report.risk_score
        then panic "CSM_ENTITY_RISK_SPIKE" ∷ []
        else elim c.honeypot_tracker [ none ↦ [] | some t ↦ check_honeypot_retroactive pool t ]

    unfoldable pub check_entity_graph : ℕ → Option PoolInfo → Csm → Option (Csm × List Action)
    unfolding judge_report
    check_entity_graph now pool c = elim c.graph_engine [
      | none ↦ some (c, [])
      | some engine ↦
          let checked = record c { last_entity_check = some now } in
          if str_eq c.deployer_addr "" || not (is_due now c)
          then some (c, [])
          else elim (query_deployer c.deployer_addr engine) [
            | none ↦ none
            | some (engine', report) ↦
                some (record checked { graph_engine = some engine' }, judge_report pool report c)
          ]
    ]

  -- What the chain answers in one round.
  pub record Answers : Type 0 where
    pub pool_for_sale : Option PoolInfo
    pub current_holders : Option (List HolderInfo)
    pub pool_for_liquidity : Option PoolInfo
    pub pool_for_contract : Option PoolInfo

  module _ ⦃H : Hashing⦄ where
    -- `none` is a search without fuel.
    unfoldable pub run_checks : ℕ → Answers → Csm → Option (Csm × List Action)
    run_checks now answers c =
        let (c1, sale) = check_sell_sim now answers.pool_for_sale c in
        let (c2, exodus) =
          if (c.config).holder_exodus_enabled
          then check_holder_exodus answers.current_holders c1
          else (c1, []) in
        let (c3, liquidity) = check_liquidity answers.pool_for_liquidity c2 in
        let before = sale ++ exodus ++ liquidity in
        if (c.config).entity_recheck_enabled
        then elim (check_entity_graph now answers.pool_for_contract c3) [
          | none ↦ none
          | some (c4, entity) ↦ some (c4, before ++ entity)
        ]
        else some (c3, before)

    -- A tick of the loop, with the position, the graph and the tracker as other tasks have left them.
    pub record Round : Type 0 where
      pub now : ℕ
      pub pos : Position
      pub graph : GraphEngine
      pub tracker : Tracker
      pub answers : Answers

    -- The pointers to the position, the graph and the tracker show what is there at the tick.
    abbrev pub at_tick : Round → Csm → Csm
    at_tick r c = record c {
      pos = r.pos;
      graph_engine = elim c.graph_engine [ none ↦ none | some earlier ↦ some r.graph ];
      honeypot_tracker = elim c.honeypot_tracker [ none ↦ none | some earlier ↦ some r.tracker ];
    }

    unfoldable pub run_rounds : List Round → Csm → Option (Csm × List Action)
    unfolding run_checks
    run_rounds [] c = some (c, [])
    run_rounds (r ∷ rs) c =
        if not (is_open (r.pos).status)
        then some (c, [])
        else elim (run_checks r.now r.answers (at_tick r c)) [
          | none ↦ none
          | some (c', actions) ↦ elim (run_rounds rs c') [
            | none ↦ none
            | some (c'', later) ↦ some (c'', actions ++ later)
          ]
        ]

    unfoldable pub run : Option (List HolderInfo) → List Round → Csm → Option (Csm × List Action)
    unfolding run_rounds
    run holders rounds c =
        run_rounds rounds
          (if (c.config).holder_exodus_enabled then capture_holder_snapshot holders c else c)
