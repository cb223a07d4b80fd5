-- ===== src/Scanner/Sanitizer/Passed.antt =====
-- What is true of a token that the sanitizer of nexus/internal/scanner/sanitizer.go lets pass.
use mmh.Prelude.{
  ◌≡◌, refl, sym, subst, ◌∙◌, inl, inr, ℕ, ◌+◌, ◌≤◌, String, true, false, Option, none, some, arith,
  lookup, str_eq, str_eq_refl, ◌==◌, Bool-cases, Option-cases,
}
use mathlib.Core.Option.{none-ne-some}
use mathlib.Core.Bool.{true≢false}
use mmh.Numbers.{Numbers}
use mmh.Scanner.{PoolInfo}
use mmh.Graph.{GraphNode, Engine as GraphEngine}
use mmh.Graph.Search.{next_both}
use mmh.Graph.Search.Walk.{Walk, here, step}
use mmh.Graph.Queries.{EntityReport, query_deployer}
use mmh.Graph.Queries.Hops.{is_other_rugger, query_deployer-hops}
use mmh.Scanner.Sanitizer.{
  Texts, TokenInfo, Sanitizer, Rejection, is_blacklisted, is_one, or_else, check_blacklist,
  check_name_patterns, check_authorities, check_liquidity, filters, judge, check,
}

module _ ⦃N : Numbers⦄ where
  -- A walk of no step ends where it starts.
  no_step : (e : GraphEngine) (k : ℕ) (a b : String) → Walk (next_both e) a k b → k ≡ 0 → a ≡ b
  no_step e k a b here h = refl
  no_step e k a b (step w x) h = absurd (omega (arith, h))

  -- A neighbour that is a rugger is one hop away in the report.
  neighbour_reported :
      (e : GraphEngine) (address : String) (node : GraphNode) (a : String)
      → lookup address e.nodes ≡ some node
      → Walk (next_both e) address 1 a
      → 1 ≤ e.config.label_prop_depth
      → is_other_rugger e address a ≡ true
      → (r : EntityReport) × (query_deployer address e
          ≡ some (record e { query_count = e.query_count + 1 }, r))
        × (is_one r.hops_to_rugger ≡ true)
  neighbour_reported e address node a there walk deep rugger =
      let (r, answered, sound, complete) = query_deployer-hops e address node there in
      let (h, hops, least) = complete a 1 walk deep rugger in
      let (w, route, short, other) = sound h hops in
      let far : 1 ≤ h = elim (Bool-cases (h == 0)) [
        | inl nought ↦
            let same : address ≡ w = no_step e h address w route (ground (arith, nought)) in
            let self : is_other_rugger e address address ≡ true =
              subst (λ w. is_other_rugger e address w ≡ true) (sym same) other in
            absurd (true≢false (sym self ∙ ground (arith, str_eq_refl address)))
        | inr more ↦ ground (arith, more)
      ] in
      let one : h ≡ 1 = omega (arith, far, least) in (r, answered, rw hops (ground (arith, one)))

  module _ ⦃T : Texts⦄ where
    passed_filters :
        (now : ℕ) (pool : PoolInfo) (token : Option TokenInfo) (s s' : Sanitizer)
        → check now pool token s ≡ some (s', none)
        → filters pool token s ≡ none
    unfolding check
    passed_filters now pool token s s' h = elim (Option-cases (filters pool token s)) [
      | inl clear ↦ clear
      | inr (why, rejected) ↦ ground (arith, h, rejected)
    ]

    passed_graph :
        (now : ℕ) (pool : PoolInfo) (token : Option TokenInfo) (s s' : Sanitizer)
        (e e' : GraphEngine) (r : EntityReport)
        → check now pool token s ≡ some (s', none)
        → s.graph ≡ some e
        → str_eq pool.token_mint "" ≡ false
        → query_deployer pool.token_mint e ≡ some (e', r)
        → is_one r.hops_to_rugger ≡ false
    unfolding check judge
    passed_graph now pool token s s' e e' r h wired named answered =
        elim (Bool-cases (is_one r.hops_to_rugger)) [
          | inr clear ↦ clear
          | inl near ↦
              ground (arith, h, wired, named, answered, near, passed_filters now pool token s s' h)
        ]

    -- Nothing is rejected if neither filter rejects.
    or_else-clear : (p q : Option Rejection) → or_else p q ≡ none → (p ≡ none) × (q ≡ none)
    or_else-clear none q h = (refl, h)
    or_else-clear (some why) q h = absurd (none-ne-some why (sym h))

    unlisted :
        (pool : PoolInfo) (s : Sanitizer)
        → check_blacklist pool s ≡ none
        → is_blacklisted pool.token_mint s ≡ false
    unfolding check_blacklist
    unlisted pool s h = ground (arith, h)

    liquid_enough :
        (pool : PoolInfo) (s : Sanitizer)
        → check_liquidity pool s ≡ none
        → N.less_than pool.liquidity_usd (N.new_from_float s.config.min_liquidity_usd) ≡ false
    unfolding check_liquidity
    liquid_enough pool s h = ground (arith, h)

    renounced : (t : TokenInfo) → check_authorities t ≡ none → str_eq t.freeze_authority "" ≡ true
    unfolding check_authorities
    renounced t h = ground (arith, h)

    filters_clear :
        (pool : PoolInfo) (token : Option TokenInfo) (s : Sanitizer)
        → filters pool token s ≡ none
        → (is_blacklisted pool.token_mint s ≡ false)
          × (N.less_than pool.liquidity_usd (N.new_from_float s.config.min_liquidity_usd) ≡ false)
    unfolding filters
    filters_clear pool none s h =
        let (listed, liquid) = or_else-clear (check_blacklist pool s) (check_liquidity pool s) h in
        (unlisted pool s listed, liquid_enough pool s liquid)
    filters_clear pool (some t) s h =
        let later = or_else (check_authorities t) (check_liquidity pool s) in
        let (listed, rest) =
          or_else-clear (check_blacklist pool s) (or_else (check_name_patterns t) later) h in
        let (named, rest') = or_else-clear (check_name_patterns t) later rest in
        let (free, liquid) = or_else-clear (check_authorities t) (check_liquidity pool s) rest' in
        (unlisted pool s listed, liquid_enough pool s liquid)

    filters_renounced :
        (pool : PoolInfo) (t : TokenInfo) (s : Sanitizer)
        → filters pool (some t) s ≡ none
        → str_eq t.freeze_authority "" ≡ true
    unfolding filters
    filters_renounced pool t s h =
        let later = or_else (check_authorities t) (check_liquidity pool s) in
        let (listed, rest) =
          or_else-clear (check_blacklist pool s) (or_else (check_name_patterns t) later) h in
        let (named, rest') = or_else-clear (check_name_patterns t) later rest in
        let (free, liquid) = or_else-clear (check_authorities t) (check_liquidity pool s) rest' in
        renounced t free

    -- A token that passes the sanitizer is not blacklisted, its pool has no less liquidity than
    -- asked for, the freeze authority of a token that is known is renounced, and in the graph, if
    -- there is one that searches at all, no neighbour of its mint is another wallet labelled a
    -- serial rugger.
    pub passed_clear :
        (now : ℕ) (pool : PoolInfo) (token : Option TokenInfo) (s s' : Sanitizer)
        → check now pool token s ≡ some (s', none)
        → (is_blacklisted pool.token_mint s ≡ false)
          × (N.less_than pool.liquidity_usd (N.new_from_float s.config.min_liquidity_usd) ≡ false)
          × ((t : TokenInfo) → token ≡ some t → str_eq t.freeze_authority "" ≡ true)
          × ((e : GraphEngine) (node : GraphNode) (a : String)
              → s.graph ≡ some e
              → str_eq pool.token_mint "" ≡ false
              → lookup pool.token_mint e.nodes ≡ some node
              → Walk (next_both e) pool.token_mint 1 a
              → 1 ≤ e.config.label_prop_depth
              → is_other_rugger e pool.token_mint a ≡ false)
    passed_clear now pool token s s' h =
        let clear = passed_filters now pool token s s' h in
        let (listed, liquid) = filters_clear pool token s clear in
        (
          listed,
          liquid,
          λ t known.
              filters_renounced pool t s (subst (λ token. filters pool token s ≡ none) known clear),
          λ e node a wired named there walk deep.
              elim (Bool-cases (is_other_rugger e pool.token_mint a)) [
                | inr fine ↦ fine
                | inl rugger ↦
                    let (r, answered, near) =
                      neighbour_reported e pool.token_mint node a there walk deep rugger in
                    absurd (
                      true≢false
                        (sym near ∙ passed_graph now pool token s s' e _ r h wired named answered))
              ],
        )
