-- ===== src/Graph/Queries.antt =====
-- The reports of nexus/internal/graph/engine.go. -1 hops are `none`, and the time that a query takes is left out.
pub mod Hops
pub mod Scores
use mmh.Prelude.{
  ◌≡◌, inl, inr, Option-cases, arith, ℕ, suc, zero, ◌+◌, ◌-◌, ◌*◌, ◌/◌, String, Bool, true, false,
  not, ◌&&◌, ◌||◌, Option, none, some, List, [], ◌∷◌, ◌++◌, if◌then◌else◌, ltb, leb, ◌==◌, length,
  Map, lookup, insert, has_key, str_eq,
}
use mathlib.Core.List.{Perm}
use mathlib.Core.List.Perm
use mmh.Prelude.Int.{ℤ}
use mmh.Numbers.{Numbers}
use mmh.Graph.{
  Label, unknown, serial_rugger, profitable_insider, wash_trader, sybil_cluster, clean, GraphNode,
  GraphEdge, Config, Engine, edges_of, uint32,
}
use mmh.Graph.Search.{Search, search, start, next_both, fuel_of}

module _ ⦃N : Numbers⦄ where
  pub record EntityReport : Type 0 where
    pub deployer_address : String
    pub risk_score : N.Float
    pub labels : List Label
    pub cluster_size : ℕ
    pub seed_funder : String
    pub seed_funder_labels : List Label
    pub hops_to_rugger : Option ℕ
    pub hops_to_insider : Option ℕ
    pub confidence : N.Float

  abbrev pub float : ℕ → N.Float
  float n = N.literal n 1

  abbrev pub count_cluster : ℕ → Map GraphNode → ℕ
  count_cluster id [] = 0
  count_cluster id (entry ∷ m) =
      let n = count_cluster id m in if (entry.1).cluster_id == id then suc n else n

  unfoldable pub cluster_size : String → Engine → ℕ
  cluster_size a e = elim (lookup a e.nodes) [
    | none ↦ 1
    | some node ↦ if node.cluster_id == 0 then 1 else count_cluster node.cluster_id e.nodes
  ]

  -- `hops == -1 || depth < hops`
  abbrev pub nearer : ℕ → Option ℕ → Option ℕ
  nearer depth none = some depth
  nearer depth (some hops) = if ltb depth hops then some depth else some hops

  -- The loop over the labels of a neighbour.
  abbrev pub note_labels : ℕ → List Label → EntityReport → EntityReport
  note_labels depth [] r = r
  note_labels depth (serial_rugger ∷ ls) r =
      note_labels depth ls (record r { hops_to_rugger = nearer depth r.hops_to_rugger })
  note_labels depth (profitable_insider ∷ ls) r =
      note_labels depth ls (record r { hops_to_insider = nearer depth r.hops_to_insider })
  note_labels depth (l ∷ ls) r = note_labels depth ls r

  -- The loop that looks for the seed funder.
  abbrev pub note_funder : String → List Label → List GraphEdge → EntityReport → EntityReport
  note_funder a labels [] r = r
  note_funder a labels (edge ∷ es) r = note_funder a labels es (
      if str_eq edge.from a && str_eq r.seed_funder ""
      then record r { seed_funder = a; seed_funder_labels = labels }
      else r)

  -- One round of the loop over what the search has visited.
  unfoldable pub analyze_one : Engine → String → String → ℕ → EntityReport → EntityReport
  analyze_one e address a depth r = elim (str_eq a address) [
    | true ↦ r
    | false ↦ elim (lookup a e.nodes) [
      | none ↦ r
      | some node ↦
          let r' = note_labels depth node.labels r in
          if depth == 1 then note_funder a node.labels (edges_of address e.adj_in) r' else r'
    ]
  ]

  -- The loop, over the entries of the map in the order of the list.
  unfoldable pub analyze : Engine → String → Map ℕ → EntityReport → EntityReport
  unfolding analyze_one
  analyze e address [] r = r
  analyze e address ((a, depth) ∷ m) r = analyze e address m (analyze_one e address a depth r)

  -- The first loop of `calculateRiskScore`; `none` is its early return.
  abbrev pub label_score : List Label → N.Float → Option N.Float
  label_score [] score = some score
  label_score (serial_rugger ∷ ls) score = none
  label_score (wash_trader ∷ ls) score = label_score ls (N.fadd score (float 25))
  label_score (sybil_cluster ∷ ls) score = label_score ls (N.fadd score (float 20))
  label_score (profitable_insider ∷ ls) score = label_score ls (N.fsub score (float 20))
  label_score (clean ∷ ls) score = label_score ls (N.fsub score (float 25))
  label_score (l ∷ ls) score = label_score ls score

  abbrev pub rugger_score : Option ℕ → N.Float → N.Float
  rugger_score (some (suc zero)) score = N.fadd score (float 40)
  rugger_score (some (suc (suc zero))) score = N.fadd score (float 20)
  rugger_score _ score = score

  abbrev pub insider_score : Option ℕ → N.Float → N.Float
  insider_score (some (suc zero)) score = N.fsub score (float 15)
  insider_score (some (suc (suc zero))) score = N.fsub score (float 8)
  insider_score _ score = score

  abbrev pub funder_score : List Label → N.Float → N.Float
  funder_score [] score = score
  funder_score (serial_rugger ∷ ls) score = funder_score ls (N.fadd score (float 30))
  funder_score (wash_trader ∷ ls) score = funder_score ls (N.fadd score (float 15))
  funder_score (clean ∷ ls) score = funder_score ls (N.fsub score (float 10))
  funder_score (l ∷ ls) score = funder_score ls score

  abbrev pub clamp : N.Float → N.Float
  clamp score =
      let low = if N.flt score (float 0) then float 0 else score in
      if N.flt (float 100) low then float 100 else low

  -- The score from that of the labels on.
  unfoldable pub later_score : Config → GraphNode → EntityReport → N.Float → N.Float
  later_score c node r score =
      let near = insider_score r.hops_to_insider (rugger_score r.hops_to_rugger score) in
      let sybil = if ltb c.sybil_cluster_min r.cluster_size then N.fadd near (float 15) else near in
      let funded = funder_score r.seed_funder_labels sybil in
      if ltb 5 node.deploy_count then N.fadd funded (float 15) else funded

  unfoldable pub calculate_risk_score : Config → GraphNode → EntityReport → N.Float
  unfolding later_score
  calculate_risk_score c node r = elim (label_score node.labels (float 50)) [
    | none ↦ float 100
    | some score ↦ clamp (later_score c node r score)
  ]

  abbrev pub confidence_of : ℕ → N.Float
  confidence_of points =
      if ltb 20 points
      then N.literal 9 10
      else if ltb 5 points
      then N.literal 7 10
      else if ltb 0 points
      then N.literal 4 10
      else N.literal 1 10

  abbrev pub blank_report : String → EntityReport
  blank_report address = record {
    deployer_address = address;
    risk_score = float 0;
    labels = [];
    cluster_size = 0;
    seed_funder = "";
    seed_funder_labels = [];
    hops_to_rugger = none;
    hops_to_insider = none;
    confidence = float 0;
  }

  -- The report on a known address, once the search has ended.
  unfoldable pub report_on : Engine → String → GraphNode → Map ℕ → EntityReport
  unfolding analyze calculate_risk_score
  report_on e address node visited =
      let r = analyze e address visited (record (blank_report address) {
        labels = node.labels;
        cluster_size = cluster_size address e;
      }) in
      record r {
        risk_score = calculate_risk_score e.config node r;
        confidence = confidence_of (length visited - 1);
      }

  abbrev pub unknown_report : String → EntityReport
  unknown_report address = record (blank_report address) {
    risk_score = float 50;
    labels = unknown ∷ [];
  }

  -- What `QueryDeployer` may report: the loop reads a Go map, and so takes what was visited in any
  -- order.
  pub data MayReport (e : Engine) (address : String) (r : EntityReport) : Type 0 where
    not_found : lookup address e.nodes ≡ none → r ≡ unknown_report address → MayReport e address r
    found :
        (node : GraphNode) (s : Search) (order : Map ℕ)
        → lookup address e.nodes ≡ some node
        → search (next_both e) (e.config).label_prop_depth (fuel_of e) (start address) ≡ some s
        → Perm s.visited order
        → r ≡ report_on e address node order
        → MayReport e address r

  -- The report where the loop takes the visited addresses in the order of the search; `none` where
  -- the search runs out of fuel.
  unfoldable pub query_deployer : String → Engine → Option (Engine × EntityReport)
  unfolding report_on
  query_deployer address e =
      let e' = record e { query_count = e.query_count + 1 } in
      elim (lookup address e.nodes) [
        | none ↦ some (e', unknown_report address)
        | some node ↦
            elim (search (next_both e) (e.config).label_prop_depth (fuel_of e) (start address)) [
              | none ↦ none
              | some s ↦ some (e', report_on e address node s.visited)
            ]
      ]

  -- The report in the order of the search is one that may be given.
  query_deployer-MayReport :
      (address : String) (e e' : Engine) (r : EntityReport)
      → query_deployer address e ≡ some (e', r)
      → MayReport e address r
  unfolding query_deployer
  query_deployer-MayReport address e e' r h = elim (Option-cases (lookup address e.nodes)) [
    | inl absent ↦ not_found absent (ground (arith, h, absent))
    | inr (node, there) ↦
        elim (Option-cases
          (search (next_both e) (e.config).label_prop_depth (fuel_of e) (start address))) [
            | inl runs_out ↦ ground (arith, h, there, runs_out)
            | inr (s, ends) ↦
                found node s s.visited there ends Perm.rfl (ground (arith, h, there, ends))
          ]
  ]

  pub record GraphStats : Type 0 where
    pub node_count : ℤ
    pub edge_count : ℕ
    pub query_count : ℕ
    pub cex_nodes : ℕ

  unfoldable pub stats : Engine → GraphStats
  stats e = record {
    node_count = e.node_count;
    edge_count = e.edge_count;
    query_count = e.query_count;
    cex_nodes = length e.cex_addrs;
  }
