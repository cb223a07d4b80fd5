-- ===== src/Graph/Queries/Scores.antt =====
-- The risk scores of nexus/internal/graph/engine.go.
use mathlib.Core.Option.{none-ne-some}
use mmh.Prelude.{
  ◌≡◌, refl, sym, subst, ◌∙◌, inl, inr, String, true, false, none, some, List, [], ◌∷◌, arith,
  lookup, Option-cases,
}
use mmh.Numbers.{Numbers}
use mmh.Graph.{
  Label, unknown, serial_rugger, profitable_insider, wash_trader, sybil_cluster, clean, cex,
  has_label, GraphNode, Config, Engine,
}
use mmh.Graph.Search.{search, start, next_both, fuel_of}
use mmh.Graph.Queries.{
  EntityReport, float, label_score, clamp, later_score, calculate_risk_score, analyze, blank_report,
  cluster_size, report_on, query_deployer,
}

module _ ⦃N : Numbers⦄ where
  -- A number that is not below 0 and not above 100.
  abbrev pub IsScore : N.Float → Type 0
  IsScore x = (N.flt x (float 0) ≡ false) × (N.flt (float 100) x ≡ false)

  -- What the scores need of 0, 50 and 100.
  pub record HasScores : Type 0 where
    pub low : IsScore (float 0)
    pub middle : IsScore (float 50)
    pub high : IsScore (float 100)

  clamp-IsScore : (x : N.Float) → HasScores → IsScore (clamp x)
  clamp-IsScore x s = ground (arith, s.low.0, s.low.1, s.high.0, s.high.1)

  calculate-IsScore :
      (c : Config) (node : GraphNode) (r : EntityReport)
      → HasScores
      → IsScore (calculate_risk_score c node r)
  unfolding calculate_risk_score
  calculate-IsScore c node r s = elim (Option-cases (label_score node.labels (float 50))) [
    | inl rugger ↦ ground (arith, rugger, s.high.0, s.high.1)
    | inr (score, e) ↦ ground (arith, e, clamp-IsScore (later_score c node r score) s)
  ]

  label_score-rugger :
      (ls : List Label) (score : N.Float)
      → has_label serial_rugger ls ≡ true
      → label_score ls score ≡ none
  label_score-rugger [] score h = cc
  label_score-rugger (serial_rugger ∷ ls) score h = refl
  label_score-rugger (wash_trader ∷ ls) score h = label_score-rugger ls (N.fadd score (float 25)) h
  label_score-rugger (sybil_cluster ∷ ls) score h =
      label_score-rugger ls (N.fadd score (float 20)) h
  label_score-rugger (profitable_insider ∷ ls) score h =
      label_score-rugger ls (N.fsub score (float 20)) h
  label_score-rugger (clean ∷ ls) score h = label_score-rugger ls (N.fsub score (float 25)) h
  label_score-rugger (unknown ∷ ls) score h = label_score-rugger ls score h
  label_score-rugger (cex ∷ ls) score h = label_score-rugger ls score h

  calculate-rugger :
      (c : Config) (node : GraphNode) (r : EntityReport)
      → has_label serial_rugger node.labels ≡ true
      → calculate_risk_score c node r ≡ float 100
  unfolding calculate_risk_score
  calculate-rugger c node r h = ground (arith, label_score-rugger node.labels (float 50) h)

  query_runs_out :
      (e : Engine) (address : String) (node : GraphNode)
      → lookup address e.nodes ≡ some node
      → search (next_both e) (e.config).label_prop_depth (fuel_of e) (start address) ≡ none
      → query_deployer address e ≡ none
  unfolding query_deployer
  query_runs_out e address node there runs_out = ground (arith, there, runs_out)

  -- The report that is scored on a known address.
  scored :
      (e e' : Engine) (address : String) (r : EntityReport) (node : GraphNode)
      → lookup address e.nodes ≡ some node
      → query_deployer address e ≡ some (e', r)
      → (r' : EntityReport) × (r.risk_score ≡ calculate_risk_score e.config node r')
  unfolding query_deployer report_on
  scored e e' address r node there h =
      elim (Option-cases
        (search (next_both e) (e.config).label_prop_depth (fuel_of e) (start address))) [
          | inl runs_out ↦
              absurd (none-ne-some (e', r) (sym (query_runs_out e address node there runs_out) ∙ h))
          | inr (s, ends) ↦ (
            analyze e address s.visited (record (blank_report address) {
              labels = node.labels;
              cluster_size = cluster_size address e;
            }),
            ground (arith, h, there, ends),
          )
        ]

  unknown_score :
      (e e' : Engine) (address : String) (r : EntityReport)
      → lookup address e.nodes ≡ none
      → query_deployer address e ≡ some (e', r)
      → r.risk_score ≡ float 50
  unfolding query_deployer
  unknown_score e e' address r absent h = ground (arith, h, absent)

  -- Where 0, 50 and 100 compare as numbers do: the risk that a report gives is not below 0 and not
  -- above 100, and it is 100 for a wallet that is labelled a serial rugger itself.
  pub query_deployer-risk :
      (e e' : Engine) (address : String) (r : EntityReport)
      → HasScores
      → query_deployer address e ≡ some (e', r)
      → IsScore r.risk_score
        × ((node : GraphNode)
            → lookup address e.nodes ≡ some node
            → has_label serial_rugger node.labels ≡ true
            → r.risk_score ≡ float 100)
  query_deployer-risk e e' address r s h = elim (Option-cases (lookup address e.nodes)) [
    | inl absent ↦ (
      subst IsScore (sym (unknown_score e e' address r absent h)) s.middle,
      λ node there. absurd (none-ne-some node (sym absent ∙ there)),
    )
    | inr (node, there) ↦
        let (r', score) = scored e e' address r node there h in
        (
          subst IsScore (sym score) (calculate-IsScore e.config node r' s),
          λ node' there' rugger.
              let (r2, score') = scored e e' address r node' there' h in
              score' ∙ calculate-rugger e.config node' r2 rugger,
        )
  ]
