-- ===== src/Safety/Warnings.antt =====
-- How often the monitor of nexus/internal/sniper/csm.go warns.
use mmh.Prelude.{
  ◌≡◌, subst, inl, inr, ℕ, suc, ◌+◌, ◌≤◌, String, Bool, true, false, Option, none, some, List, [],
  ◌∷◌, ◌++◌, if◌then◌else◌, arith, str_eq, str_eq_iff, lookup-insert, Bool-cases, Option-cases,
}
use mathlib.Core.Option.{some-injective, none-ne-some}
use mmh.Numbers.{Numbers}
use mmh.Exits.{is_open}
use mmh.Scanner.{PoolInfo, HolderInfo}
use mmh.Graph.Queries.{EntityReport, query_deployer}
use mmh.Honeypot.{Hashing}
use mmh.Safety.Returns.{run_rounds_returns}
use mmh.Safety.{
  Csm, severity_of, drop_of, sold_by, balances, Action, panic, warning, HolderSnapshot, Answers,
  Round, has_fired, warn, check_sell_sim, check_liquidity, judge_exodus, check_holder_exodus,
  capture_holder_snapshot, check_honeypot_retroactive, judge_report, check_entity_graph, run_checks,
  run_rounds, at_tick, run,
}

module _ ⦃N : Numbers⦄ where
  -- The warnings of a reason among the calls back.
  abbrev pub count_warnings : String → List Action → ℕ
  count_warnings why [] = 0
  count_warnings why (panic other ∷ actions) = count_warnings why actions
  count_warnings why (warning other severity ∷ actions) =
      let n = count_warnings why actions in if str_eq other why then suc n else n

  count_warnings-append :
      (why : String) (xs ys : List Action)
      → count_warnings why (xs ++ ys) ≡ count_warnings why xs + count_warnings why ys
  count_warnings-append why [] ys = omega arith
  count_warnings-append why (panic other ∷ xs) ys = count_warnings-append why xs ys
  count_warnings-append why (warning other severity ∷ xs) ys =
      ground (arith, count_warnings-append why xs ys)

  abbrev fired : String → Csm → ℕ
  fired why c = if has_fired why c then 1 else 0

  -- A warning is noted, and no note is taken away.
  abbrev IsNoted : String → Csm → Csm × List Action → Type 0
  IsNoted why c r = count_warnings why (r.1) + fired why c ≤ fired why (r.0)

  warn-IsNoted :
      (why other : String) (severity : N.Float) (c : Csm) → IsNoted why c (warn other severity c)
  unfolding warn
  warn-IsNoted why other severity c =
      ground (arith, lookup-insert other why true c.warning_fired, str_eq_iff other why)

  check_sell_sim-IsNoted :
      (why : String) (now : ℕ) (pool : Option PoolInfo) (c : Csm)
      → IsNoted why c (check_sell_sim now pool c)
  unfolding check_sell_sim
  check_sell_sim-IsNoted why now none c = omega arith
  check_sell_sim-IsNoted why now (some pool) c = ground arith

  either-IsNoted :
      (why : String) (c : Csm) (test : Bool) (r q : Csm × List Action)
      → IsNoted why c r
      → IsNoted why c q
      → IsNoted why c (if test then r else q)
  either-IsNoted why c true r q h k = h
  either-IsNoted why c false r q h k = k

  check_liquidity-IsNoted :
      (why : String) (pool : Option PoolInfo) (c : Csm) → IsNoted why c (check_liquidity pool c)
  unfolding check_liquidity
  check_liquidity-IsNoted why none c = omega arith
  check_liquidity-IsNoted why (some pool) c =
      let severity =
        severity_of (drop_of c pool) c.config.liquidity_drop_warn_pct
          c.config.liquidity_drop_panic_pct in
      ground (arith, warn-IsNoted why "CSM_LIQUIDITY_WARNING" severity c)

  judge_exodus-IsNoted :
      (why : String) (entry : HolderSnapshot) (current : List HolderInfo) (c : Csm)
      → IsNoted why c (judge_exodus entry current c)
  unfolding judge_exodus
  judge_exodus-IsNoted why entry current c =
      let sold = sold_by (balances current []) entry.holders N.zero in
      let exodus_pct =
        N.inexact_float64 (N.mul (N.div sold entry.total_balance) (N.new_from_int 100)) in
      let high = (c.config).holder_exodus_panic_pct in
      let severity = severity_of exodus_pct (N.fmul high (N.literal 6 10)) high in
      ground (arith, warn-IsNoted why "CSM_HOLDER_EXODUS_WARNING" severity c)

  exodus_among-IsNoted :
      (why : String) (holders : List HolderInfo) (total : N.Decimal)
      (current : Option (List HolderInfo)) (c : Csm)
      → c.entry_holders ≡ some (record { holders = holders; total_balance = total })
      → IsNoted why c (check_holder_exodus current c)
  unfolding check_holder_exodus
  exodus_among-IsNoted why [] total current c e = ground (arith, e)
  exodus_among-IsNoted why (h ∷ hs) total none c e = ground (arith, e)
  exodus_among-IsNoted why (h ∷ hs) total (some holders) c e =
      let noted =
        judge_exodus-IsNoted why (record { holders = h ∷ hs; total_balance = total }) holders c in
      ground (arith, e, noted)

  check_holder_exodus-IsNoted :
      (why : String) (current : Option (List HolderInfo)) (c : Csm)
      → IsNoted why c (check_holder_exodus current c)
  unfolding check_holder_exodus
  check_holder_exodus-IsNoted why current c = elim (Option-cases c.entry_holders) [
    | inl nothing ↦ ground (arith, nothing)
    | inr (entry, there) ↦
        exodus_among-IsNoted why entry.holders entry.total_balance current c there
  ]

  module _ ⦃H : Hashing⦄ where
    -- The check of the graph warns of nothing.
    judge_report-quiet :
        (why : String) (pool : Option PoolInfo) (report : EntityReport) (c : Csm)
        → count_warnings why (judge_report pool report c) ≡ 0
    unfolding judge_report check_honeypot_retroactive
    judge_report-quiet why none report c = ground arith
    judge_report-quiet why (some pool) report c = ground arith

    check_entity_graph-IsNoted :
        (why : String) (now : ℕ) (pool : Option PoolInfo) (c : Csm) (r : Csm × List Action)
        → check_entity_graph now pool c ≡ some r
        → IsNoted why c r
    unfolding check_entity_graph
    check_entity_graph-IsNoted why now pool c r h = elim (Option-cases c.graph_engine) [
      | inl nothing ↦
          subst (IsNoted why c) (some-injective (c, []) r (ground (arith, h, nothing)))
            (omega arith)
      | inr (engine, wired) ↦ elim (Option-cases (query_deployer c.deployer_addr engine)) [
        | inl exhausted ↦ ground (arith, h, wired, exhausted, some-injective (c, []) r)
        | inr ((engine', report), answered) ↦ ground (
          arith,
          h,
          wired,
          answered,
          judge_report-quiet why pool report c,
          some-injective
              (
                record c { last_entity_check = some now; graph_engine = some engine' },
                judge_report pool report c,
              )
              r,
          some-injective (c, []) r,
        )
      ]
    ]

    -- The three checks that come before that of the graph.
    early : ℕ → Answers → Csm → Csm × List Action
    early now answers c =
        let r1 = check_sell_sim now answers.pool_for_sale c in
        let r2 =
          if (c.config).holder_exodus_enabled
          then check_holder_exodus answers.current_holders (r1.0)
          else (r1.0, []) in
        let r3 = check_liquidity answers.pool_for_liquidity (r2.0) in (r3.0, r1.1 ++ r2.1 ++ r3.1)

    early-IsNoted :
        (why : String) (now : ℕ) (answers : Answers) (c : Csm) → IsNoted why c (early now answers c)
    unfolding early
    early-IsNoted why now answers c =
        let r1 = check_sell_sim now answers.pool_for_sale c in
        let r2 =
          if (c.config).holder_exodus_enabled
          then check_holder_exodus answers.current_holders (r1.0)
          else (r1.0, []) in
        let r3 = check_liquidity answers.pool_for_liquidity (r2.0) in
        let exodus : IsNoted why (r1.0) r2 =
          either-IsNoted why (r1.0) (c.config).holder_exodus_enabled
            (check_holder_exodus answers.current_holders (r1.0)) (r1.0, [])
            (check_holder_exodus-IsNoted why answers.current_holders (r1.0)) (omega arith) in
        let total : count_warnings why (r1.1 ++ r2.1 ++ r3.1) + fired why c ≤ fired why (r3.0) =
          omega (
            arith,
            check_sell_sim-IsNoted why now answers.pool_for_sale c,
            exodus,
            check_liquidity-IsNoted why answers.pool_for_liquidity (r2.0),
            count_warnings-append why (r1.1 ++ r2.1) (r3.1),
            count_warnings-append why (r1.1) (r2.1),
          ) in
        total

    run_checks-IsNoted :
        (why : String) (now : ℕ) (answers : Answers) (c : Csm) (r : Csm × List Action)
        → run_checks now answers c ≡ some r
        → IsNoted why c r
    unfolding run_checks early
    run_checks-IsNoted why now answers c r h =
        let q = early now answers c in
        elim (Bool-cases (c.config).entity_recheck_enabled) [
          | inl enabled ↦
              elim (Option-cases (check_entity_graph now answers.pool_for_contract (q.0))) [
                | inl exhausted ↦ absurd (none-ne-some r (ground (arith, h, enabled, exhausted)))
                | inr (last, checked) ↦
                    let this : (last.0, q.1 ++ last.1) ≡ r =
                      some-injective _ r (ground (arith, h, enabled, checked)) in
                    let noted =
                      check_entity_graph-IsNoted why now answers.pool_for_contract (q.0) last
                        checked in
                    subst (IsNoted why c) this (
                      omega (
                        arith,
                        early-IsNoted why now answers c,
                        noted,
                        count_warnings-append why (q.1) (last.1),
                      ))
              ]
          | inr disabled ↦
              subst (IsNoted why c) (some-injective q r (ground (arith, h, disabled)))
                (early-IsNoted why now answers c)
        ]

    run_rounds-IsNoted :
        (why : String) (rs : List Round) (c : Csm) (r : Csm × List Action)
        → run_rounds rs c ≡ some r
        → IsNoted why c r
    unfolding run_rounds
    run_rounds-IsNoted why [] c r h =
        subst (IsNoted why c) (some-injective (c, []) r h) (omega arith)
    run_rounds-IsNoted why (k ∷ ks) c r h = elim (Bool-cases (is_open (k.pos).status)) [
      | inr over ↦
          subst (IsNoted why c) (some-injective (c, []) r (ground (arith, h, over))) (omega arith)
      | inl going ↦
          let here = at_tick k c in
          elim (Option-cases (run_checks k.now k.answers here)) [
            | inl exhausted ↦ absurd (none-ne-some r (ground (arith, h, going, exhausted)))
            | inr (q, checked) ↦ elim (Option-cases (run_rounds ks (q.0))) [
              | inl exhausted ↦
                  absurd (none-ne-some r (ground (arith, h, going, checked, exhausted)))
              | inr (p, followed) ↦
                  let this : (p.0, q.1 ++ p.1) ≡ r =
                    some-injective _ r (ground (arith, h, going, checked, followed)) in
                  subst (IsNoted why c) this (
                    omega (
                      arith,
                      run_checks-IsNoted why k.now k.answers here q checked,
                      run_rounds-IsNoted why ks (q.0) p followed,
                      count_warnings-append why (q.1) (p.1),
                    ))
            ]
          ]
    ]

    -- Over all rounds of one monitor, whatever the chain answers and whatever the position, the graph
    -- and the tracker are at each round, the searches of the graph end, and a warning of any one
    -- reason is given at most once.
    pub warns_once :
        (why : String) (holders : Option (List HolderInfo)) (rs : List Round) (c : Csm)
        → (r : Csm × List Action) × (run holders rs c ≡ some r) × (count_warnings why (r.1) ≤ 1)
    unfolding run
    warns_once why holders rs c =
        let start =
          if (c.config).holder_exodus_enabled then capture_holder_snapshot holders c else c in
        let (r, returned) = run_rounds_returns rs start in
        (r, returned, ground (arith, run_rounds-IsNoted why rs start r returned))
