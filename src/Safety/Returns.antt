-- ===== src/Safety/Returns.antt =====
-- The end of the searches and rounds of the monitor of nexus/internal/sniper/csm.go.
use mmh.Prelude.{
  ◌≡◌, refl, inl, inr, ℕ, ◌+◌, String, not, ◌||◌, Option, some, List, [], ◌∷◌, ◌++◌, arith, lookup,
  str_eq, Bool-cases, Option-cases, if◌then◌else◌,
}
use mmh.Numbers.{Numbers}
use mmh.Exits.{is_open}
use mmh.Scanner.{PoolInfo}
use mmh.Graph.{Engine as GraphEngine, unknown}
use mmh.Graph.Queries.{EntityReport, query_deployer, blank_report, float}
use mmh.Graph.Queries.Hops.{query_deployer-hops}
use mmh.Honeypot.{Hashing}
use mmh.Safety.{
  Csm, Action, Answers, Round, check_sell_sim, check_holder_exodus, check_liquidity,
  check_entity_graph, judge_report, is_due, run_checks, run_rounds, at_tick,
}

module _ ⦃N : Numbers⦄ where
  -- The query of the graph gives a report, and changes only the counter of queries.
  pub query_deployer_returns :
      (address : String) (e : GraphEngine)
      → (r : EntityReport) × (query_deployer address e
          ≡ some (record e { query_count = e.query_count + 1 }, r))
  unfolding query_deployer
  query_deployer_returns address e = elim (Option-cases (lookup address e.nodes)) [
    | inl absent ↦ (
      record (blank_report address) { risk_score = float 50; labels = unknown ∷ [] },
      ground (arith, absent),
    )
    | inr (node, there) ↦
        let (r, answered, near, complete) = query_deployer-hops e address node there in
        (r, answered)
  ]

  module _ ⦃H : Hashing⦄ where
    pub check_entity_graph_returns :
        (now : ℕ) (pool : Option PoolInfo) (c : Csm)
        → (r : Csm × List Action) × (check_entity_graph now pool c ≡ some r)
    unfolding check_entity_graph
    check_entity_graph_returns now pool c = elim (Option-cases c.graph_engine) [
      | inl nothing ↦ ((c, []), ground (arith, nothing))
      | inr (engine, wired) ↦ elim (Bool-cases (str_eq c.deployer_addr "" || not (is_due now c))) [
        | inl skipped ↦ ((c, []), ground (arith, wired, skipped))
        | inr due ↦
            let (report, answered) = query_deployer_returns c.deployer_addr engine in
            let engine' = record engine { query_count = engine.query_count + 1 } in
            (
              (
                record c { last_entity_check = some now; graph_engine = some engine' },
                judge_report pool report c,
              ),
              ground (arith, wired, due, answered),
            )
      ]
    ]

    pub run_checks_returns :
        (now : ℕ) (answers : Answers) (c : Csm)
        → (r : Csm × List Action) × (run_checks now answers c ≡ some r)
    unfolding run_checks
    run_checks_returns now answers c =
        let (c1, sale) = check_sell_sim now answers.pool_for_sale c in
        let (c2, exodus) =
          if (c.config).holder_exodus_enabled
          then check_holder_exodus answers.current_holders c1
          else (c1, []) in
        let (c3, liquidity) = check_liquidity answers.pool_for_liquidity c2 in
        let before = sale ++ exodus ++ liquidity in
        elim (Bool-cases (c.config).entity_recheck_enabled) [
          | inl enabled ↦
              let (r, checked) = check_entity_graph_returns now answers.pool_for_contract c3 in
              ((r.0, before ++ r.1), ground (arith, enabled, checked))
          | inr disabled ↦ ((c3, before), ground (arith, disabled))
        ]

    pub run_rounds_returns :
        (rs : List Round) (c : Csm) → (r : Csm × List Action) × (run_rounds rs c ≡ some r)
    unfolding run_rounds
    run_rounds_returns [] c = ((c, []), refl)
    run_rounds_returns (k ∷ ks) c = elim (Bool-cases (is_open (k.pos).status)) [
      | inr over ↦ ((c, []), ground (arith, over))
      | inl going ↦
          let (q, checked) = run_checks_returns k.now k.answers (at_tick k c) in
          let (p, followed) = run_rounds_returns ks (q.0) in
          ((p.0, q.1 ++ p.1), ground (arith, going, checked, followed))
    ]
