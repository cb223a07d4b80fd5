-- ===== src/Safety/Dangers.antt =====
-- What makes the monitor of nexus/internal/sniper/csm.go panic.
use mmh.Prelude.{
  ◌≡◌, refl, sym, subst, ap, ◌∙◌, inl, inr, ◌⊎◌, ℕ, suc, ◌+◌, ◌≤◌, String, true, false, Option,
  none, some, List, [], ◌∷◌, ◌++◌, if◌then◌else◌, arith, lookup, Map, str_eq, Bool-cases,
  Option-cases,
}
use mathlib.Core.Option.{some-injective}
use mathlib.Core.Bool.{true≢false}
use mmh.Numbers.{Numbers, is_zero}
use mmh.Scanner.{PoolInfo, HolderInfo, simulate_sell}
use mmh.Graph.{
  GraphNode, GraphEdge, Engine as GraphEngine, Label, unknown, serial_rugger, profitable_insider,
  wash_trader, sybil_cluster, clean, cex, has_label, edges_of,
}
use mmh.Graph.Search.{search, start, next_both, fuel_of}
use mmh.Graph.Queries.{
  EntityReport, query_deployer, analyze, analyze_one, note_labels, note_funder, report_on,
  blank_report, cluster_size,
}
use mmh.Honeypot.{Hashing}
use mmh.Safety.Returns.{query_deployer_returns, check_entity_graph_returns, run_checks_returns}
use mmh.Safety.{
  Csm, Action, panic, warning, Answers, HolderSnapshot, warn, drop_of, check_sell_sim,
  check_liquidity, judge_exodus, check_holder_exodus, judge_report, is_due, check_entity_graph,
  run_checks,
}

module _ ⦃N : Numbers⦄ where
  -- What is read off the graph leaves the labels of a report.
  note_labels_keeps :
      (depth : ℕ) (ls : List Label) (r : EntityReport) → (note_labels depth ls r).labels ≡ r.labels
  note_labels_keeps depth [] r = refl
  note_labels_keeps depth (serial_rugger ∷ ls) r = note_labels_keeps depth ls _
  note_labels_keeps depth (profitable_insider ∷ ls) r = note_labels_keeps depth ls _
  note_labels_keeps depth (unknown ∷ ls) r = note_labels_keeps depth ls r
  note_labels_keeps depth (wash_trader ∷ ls) r = note_labels_keeps depth ls r
  note_labels_keeps depth (sybil_cluster ∷ ls) r = note_labels_keeps depth ls r
  note_labels_keeps depth (clean ∷ ls) r = note_labels_keeps depth ls r
  note_labels_keeps depth (cex ∷ ls) r = note_labels_keeps depth ls r

  note_funder_keeps :
      (a : String) (ls : List Label) (es : List GraphEdge) (r : EntityReport)
      → (note_funder a ls es r).labels ≡ r.labels
  note_funder_keeps a ls [] r = refl
  note_funder_keeps a ls (edge ∷ es) r =
      let funded = record r { seed_funder = a; seed_funder_labels = ls } in
      ground (arith, note_funder_keeps a ls es funded, note_funder_keeps a ls es r)

  analyze_one_keeps :
      (e : GraphEngine) (address a : String) (depth : ℕ) (r : EntityReport)
      → (analyze_one e address a depth r).labels ≡ r.labels
  unfolding analyze_one
  analyze_one_keeps e address a depth r = elim (Option-cases (lookup a e.nodes)) [
    | inl absent ↦ ground (arith, absent)
    | inr (node, there) ↦ ground (
      arith,
      there,
      note_labels_keeps depth node.labels r,
      note_funder_keeps a node.labels (edges_of address e.adj_in) (note_labels depth node.labels r),
    )
  ]

  analyze_keeps :
      (e : GraphEngine) (address : String) (m : Map ℕ) (r : EntityReport)
      → (analyze e address m r).labels ≡ r.labels
  unfolding analyze
  analyze_keeps e address [] r = refl
  analyze_keeps e address ((a, depth) ∷ m) r =
      analyze_keeps e address m (analyze_one e address a depth r)
      ∙ analyze_one_keeps e address a depth r

  -- A report on a known address has the labels of its node.
  report_labels :
      (e e' : GraphEngine) (address : String) (node : GraphNode) (r : EntityReport)
      → lookup address e.nodes ≡ some node
      → query_deployer address e ≡ some (e', r)
      → r.labels ≡ node.labels
  unfolding query_deployer report_on
  report_labels e e' address node r there h =
      elim (Option-cases
        (search (next_both e) (e.config).label_prop_depth (fuel_of e) (start address))) [
          | inl exhausted ↦ ground (arith, there, h, exhausted)
          | inr (s, ends) ↦ ground (
            arith,
            there,
            h,
            ends,
            analyze_keeps e address s.visited (record (blank_report address) {
              labels = node.labels;
              cluster_size = cluster_size address e;
            }),
          )
        ]

  abbrev pub count_panics : List Action → ℕ
  count_panics [] = 0
  count_panics (panic why ∷ actions) = suc (count_panics actions)
  count_panics (warning why severity ∷ actions) = count_panics actions

  count_panics-append :
      (xs ys : List Action) → count_panics (xs ++ ys) ≡ count_panics xs + count_panics ys
  count_panics-append [] ys = omega arith
  count_panics-append (panic why ∷ xs) ys = omega (arith, count_panics-append xs ys)
  count_panics-append (warning why severity ∷ xs) ys = count_panics-append xs ys

  -- What the early checks do not change.
  abbrev IsSame : Csm → Csm → Type 0
  IsSame c c' =
      (c'.config ≡ c.config)
      × (c'.graph_engine ≡ c.graph_engine)
      × (c'.deployer_addr ≡ c.deployer_addr)
      × (c'.last_entity_check ≡ c.last_entity_check)
      × (c'.entry_liquidity_usd ≡ c.entry_liquidity_usd)

  warn-IsSame : (why : String) (severity : N.Float) (c : Csm) → IsSame c (warn why severity c).0
  unfolding warn
  warn-IsSame why severity c = ground arith

  check_sell_sim-IsSame :
      (now : ℕ) (pool : Option PoolInfo) (c : Csm) → IsSame c (check_sell_sim now pool c).0
  unfolding check_sell_sim
  check_sell_sim-IsSame now none c = (refl, refl, refl, refl, refl)
  check_sell_sim-IsSame now (some pool) c = ground arith

  check_liquidity-IsSame : (pool : Option PoolInfo) (c : Csm) → IsSame c (check_liquidity pool c).0
  unfolding check_liquidity warn
  check_liquidity-IsSame none c = (refl, refl, refl, refl, refl)
  check_liquidity-IsSame (some pool) c = ground arith

  judge_exodus-IsSame :
      (entry : HolderSnapshot) (current : List HolderInfo) (c : Csm)
      → IsSame c (judge_exodus entry current c).0
  unfolding judge_exodus warn
  judge_exodus-IsSame entry current c = ground arith

  exodus_among-IsSame :
      (holders : List HolderInfo) (total : N.Decimal) (current : Option (List HolderInfo)) (c : Csm)
      → c.entry_holders ≡ some (record { holders = holders; total_balance = total })
      → IsSame c (check_holder_exodus current c).0
  unfolding check_holder_exodus
  exodus_among-IsSame [] total current c e = ground (arith, e)
  exodus_among-IsSame (h ∷ hs) total none c e = ground (arith, e)
  exodus_among-IsSame (h ∷ hs) total (some holders) c e =
      let same =
        judge_exodus-IsSame (record { holders = h ∷ hs; total_balance = total }) holders c in
      ground (arith, e, same)

  check_holder_exodus-IsSame :
      (current : Option (List HolderInfo)) (c : Csm) → IsSame c (check_holder_exodus current c).0
  unfolding check_holder_exodus
  check_holder_exodus-IsSame current c = elim (Option-cases c.entry_holders) [
    | inl nothing ↦ ground (arith, nothing)
    | inr (entry, there) ↦ exodus_among-IsSame entry.holders entry.total_balance current c there
  ]

  -- What a monitor finds dangerous at a round, before it has checked anything.
  pub data Danger (now : ℕ) (answers : Answers) (c : Csm) : Type 0 where
    unsellable :
        (pool : PoolInfo)
        → answers.pool_for_sale ≡ some pool
        → (simulate_sell now (c.pos).amount_token pool).can_sell ≡ false
        → Danger now answers c
    taxed :
        (pool : PoolInfo)
        → answers.pool_for_sale ≡ some pool
        → N.flt
            (c.config).max_sell_tax_pct
            (simulate_sell now (c.pos).amount_token pool).estimated_tax_pct
          ≡ true
        → Danger now answers c
    drained :
        (pool : PoolInfo)
        → answers.pool_for_liquidity ≡ some pool
        → is_zero c.entry_liquidity_usd ≡ false
        → N.fle (c.config).liquidity_drop_panic_pct (drop_of c pool) ≡ true
        → Danger now answers c
    rugger :
        (engine : GraphEngine) (node : GraphNode)
        → (c.config).entity_recheck_enabled ≡ true
        → c.graph_engine ≡ some engine
        → str_eq c.deployer_addr "" ≡ false
        → is_due now c ≡ true
        → lookup c.deployer_addr engine.nodes ≡ some node
        → has_label serial_rugger node.labels ≡ true
        → Danger now answers c

  module _ ⦃H : Hashing⦄ where
    rugger_found :
        (now : ℕ) (pool : Option PoolInfo) (c : Csm) (engine : GraphEngine) (node : GraphNode)
        (r : Csm × List Action)
        → c.graph_engine ≡ some engine
        → str_eq c.deployer_addr "" ≡ false
        → is_due now c ≡ true
        → lookup c.deployer_addr engine.nodes ≡ some node
        → has_label serial_rugger node.labels ≡ true
        → check_entity_graph now pool c ≡ some r
        → 1 ≤ count_panics (r.1)
    unfolding check_entity_graph judge_report
    rugger_found now pool c engine node r wired named due there bad h =
        let (report, answered) = query_deployer_returns c.deployer_addr engine in
        let labels =
          report_labels engine (record engine { query_count = engine.query_count + 1 })
            c.deployer_addr node report there answered in
        let panics : judge_report pool report c ≡ panic "CSM_ENTITY_SERIAL_RUGGER" ∷ [] =
          ground (arith, labels, bad) in
        let engine' = record engine { query_count = engine.query_count + 1 } in
        let checked = record c { last_entity_check = some now; graph_engine = some engine' } in
        let this : (checked, judge_report pool report c) ≡ r =
          some-injective _ r (ground (arith, h, wired, named, due, answered)) in
        subst (λ r. 1 ≤ count_panics (r.1)) this (rw panics (omega arith))

    liquidity_found :
        (pool : PoolInfo) (c : Csm)
        → is_zero c.entry_liquidity_usd ≡ false
        → N.fle (c.config).liquidity_drop_panic_pct (drop_of c pool) ≡ true
        → 1 ≤ count_panics (check_liquidity (some pool) c).1
    unfolding check_liquidity
    liquidity_found pool c filled drops = ground (arith, filled, drops)

    sale_found :
        (now : ℕ) (pool : PoolInfo) (c : Csm)
        → ((simulate_sell now (c.pos).amount_token pool).can_sell ≡ false)
          ⊎ (N.flt
                (c.config).max_sell_tax_pct
                (simulate_sell now (c.pos).amount_token pool).estimated_tax_pct
              ≡ true)
        → 1 ≤ count_panics (check_sell_sim now (some pool) c).1
    unfolding check_sell_sim
    sale_found now pool c (inl stuck) = ground (arith, stuck)
    sale_found now pool c (inr taxes) = ground (arith, taxes)

    -- The position of the checks in a round: the sale, the holders, the pool.
    sale_check : ℕ → Answers → Csm → Csm × List Action
    sale_check now answers c = check_sell_sim now answers.pool_for_sale c

    exodus_check : ℕ → Answers → Csm → Csm × List Action
    exodus_check now answers c =
        let c1 = (sale_check now answers c).0 in
        if (c.config).holder_exodus_enabled
        then check_holder_exodus answers.current_holders c1
        else (c1, [])

    pool_check : ℕ → Answers → Csm → Csm × List Action
    pool_check now answers c =
        check_liquidity answers.pool_for_liquidity (exodus_check now answers c).0

    exodus_check-IsSame :
        (now : ℕ) (answers : Answers) (c : Csm) → IsSame c (exodus_check now answers c).0
    unfolding exodus_check sale_check
    exodus_check-IsSame now answers c =
        let c1 = (check_sell_sim now answers.pool_for_sale c).0 in
        ground (
          arith,
          check_sell_sim-IsSame now answers.pool_for_sale c,
          check_holder_exodus-IsSame answers.current_holders c1,
        )

    pool_check-IsSame :
        (now : ℕ) (answers : Answers) (c : Csm) → IsSame c (pool_check now answers c).0
    unfolding pool_check
    pool_check-IsSame now answers c =
        let c2 = (exodus_check now answers c).0 in
        ground (
          arith,
          exodus_check-IsSame now answers c,
          check_liquidity-IsSame answers.pool_for_liquidity c2,
        )

    round_parts :
        (now : ℕ) (answers : Answers) (c : Csm) (r : Csm × List Action)
        → run_checks now answers c ≡ some r
        → (count_panics (sale_check now answers c).1 ≤ count_panics (r.1))
          × (count_panics (pool_check now answers c).1 ≤ count_panics (r.1))
          × ((q : Csm × List Action)
              → (c.config).entity_recheck_enabled ≡ true
              → check_entity_graph now answers.pool_for_contract (pool_check now answers c).0
                ≡ some q
              → count_panics (q.1) ≤ count_panics (r.1))
    unfolding run_checks pool_check exodus_check sale_check
    round_parts now answers c r h =
        let r1 = sale_check now answers c in
        let r2 = exodus_check now answers c in
        let r3 = pool_check now answers c in
        let before = r1.1 ++ r2.1 ++ r3.1 in
        let a = count_panics-append (r1.1 ++ r2.1) (r3.1) in
        let b = count_panics-append (r1.1) (r2.1) in
        elim (Bool-cases (c.config).entity_recheck_enabled) [
          | inl enabled ↦
              let (last, checked) =
                check_entity_graph_returns now answers.pool_for_contract (r3.0) in
              let this : (last.0, before ++ last.1) ≡ r =
                some-injective _ r (ground (arith, h, enabled, checked)) in
              let parts : count_panics (before ++ last.1) ≡ count_panics (r.1) =
                ap (λ r. count_panics (r.1)) this in
              let d = count_panics-append before (last.1) in
              (
                omega (arith, a, b, d, parts),
                omega (arith, a, b, d, parts),
                λ q on found.
                    let same_last : count_panics (last.1) ≡ count_panics (q.1) =
                      ap (λ q. count_panics (q.1)) (some-injective last q (sym checked ∙ found)) in
                    omega (arith, a, b, d, parts, same_last),
              )
          | inr disabled ↦
              let this : (r3.0, before) ≡ r = some-injective _ r (ground (arith, h, disabled)) in
              let parts : count_panics before ≡ count_panics (r.1) =
                ap (λ r. count_panics (r.1)) this in
              (
                omega (arith, a, b, parts),
                omega (arith, a, b, parts),
                λ q on found. absurd (true≢false (sym on ∙ disabled)),
              )
        ]

    -- If a round begins in danger, it ends with a panic: a sale that the simulation finds
    -- impossible or taxed beyond the limit, a pool of less liquidity than allowed, or, where the
    -- graph is due to be checked, a deployer labelled a serial rugger in it; whatever the other
    -- answers are.
    pub unsafe_round_panics :
        (now : ℕ) (answers : Answers) (c : Csm)
        → Danger now answers c
        → (r : Csm × List Action) × (run_checks now answers c ≡ some r) × (1 ≤ count_panics (r.1))
    unfolding sale_check pool_check
    unsafe_round_panics now answers c (unsellable pool asked stuck) =
        let (r, returned) = run_checks_returns now answers c in
        let (sale, pools, graph) = round_parts now answers c r returned in
        let at : sale_check now answers c ≡ check_sell_sim now (some pool) c =
          ap (λ o. check_sell_sim now o c) asked in
        let found = sale_found now pool c (inl stuck) in
        (r, returned, omega (arith, sale, ap (λ q. count_panics (q.1)) at, found))
    unsafe_round_panics now answers c (taxed pool asked taxes) =
        let (r, returned) = run_checks_returns now answers c in
        let (sale, pools, graph) = round_parts now answers c r returned in
        let at : sale_check now answers c ≡ check_sell_sim now (some pool) c =
          ap (λ o. check_sell_sim now o c) asked in
        let found = sale_found now pool c (inr taxes) in
        (r, returned, omega (arith, sale, ap (λ q. count_panics (q.1)) at, found))
    unsafe_round_panics now answers c (drained pool asked filled drops) =
        let (r, returned) = run_checks_returns now answers c in
        let (sale, pools, graph) = round_parts now answers c r returned in
        let c2 = (exodus_check now answers c).0 in
        let same = exodus_check-IsSame now answers c in
        let at : pool_check now answers c ≡ check_liquidity (some pool) c2 =
          ap (λ o. check_liquidity o c2) asked in
        let found =
          liquidity_found pool c2 (ground (arith, same, filled)) (ground (arith, same, drops)) in
        (r, returned, omega (arith, pools, ap (λ q. count_panics (q.1)) at, found))
    unsafe_round_panics now answers c (rugger engine node enabled wired named due there bad) =
        let (r, returned) = run_checks_returns now answers c in
        let (sale, pools, graph) = round_parts now answers c r returned in
        let c3 = (pool_check now answers c).0 in
        let same = pool_check-IsSame now answers c in
        let (q, checked) = check_entity_graph_returns now answers.pool_for_contract c3 in
        let found =
          rugger_found now answers.pool_for_contract c3 engine node q (ground (arith, same, wired))
            (ground (arith, same, named)) (ground (arith, same, due)) (ground (arith, same, there))
            bad checked in
        (r, returned, omega (arith, graph q enabled checked, found))
