-- ===== src/Graph/Examples.antt =====
-- Tests of the graph of wallets on whole numbers, and the theorems at a small graph.
use mmh.Prelude.{
  ◌≡◌, ◌↔◌, refl, ℕ, ◌≤◌, String, true, false, Option, none, some, List, [], ◌∷◌, lookup, insert,
}
use mmh.Prelude.Int.{pos}
use mmh.Numbers.Whole.{whole}
use mmh.Graph.{
  Label, unknown, serial_rugger, clean, GraphNode, GraphEdge, Config, Engine, default_config,
  new_engine, has_label,
}
use mmh.Graph.Search.{next_both}
use mmh.Graph.Search.Walk.{Walk}
use mmh.Graph.Queries.{EntityReport, MayReport, query_deployer}
use mmh.Graph.Queries.Hops.{is_other_rugger, query_deployer-hops}
use mmh.Graph.Queries.Scores.{IsScore, HasScores, query_deployer-risk}
use mmh.Graph.Labels.{query_cluster}
use mmh.Graph.Labels.Visits.{IsVisit, query_cluster_visits}
use mmh.Graph.Labels.Exchanges.{Call, transfers, rugs, propagates}
use mmh.Graph.Labels.Restarts.{World, Action, calls, saves, loads, restarts, live}
use mmh.Graph.Upkeep.{GraphSnapshot, decoded, save_snapshot, load_snapshot}
use mmh.Graph.Upkeep.Snapshots.{loaded_reports}

abbrev node : String → List Label → GraphNode
node a ls = record {
  address = a;
  labels = ls;
  first_seen = 1;
  tx_count = 1;
  cluster_id = 0;
  is_cex = false;
  deploy_count = 0;
  rug_count = 0;
}

abbrev edge : String → String → GraphEdge
edge a b = record {
  from = a;
  to = b;
  amount = pos 5;
  timestamp = 1;
  tx_type = "transfer";
  weight = pos 5;
}

abbrev config : Config
config = record {
  max_nodes = 100;
  max_edges_per_node = 3;
  dust_threshold = pos 1;
  eviction_days = 30;
  label_prop_depth = 2;
  snapshot_interval_s = 300;
  time_decay_7d = pos 1;
  time_decay_30d = pos 1;
  sybil_cluster_min = 20;
  high_tx_threshold = 100;
}

-- The rugger "r" has sent to "b", and "a" has sent to "b".
abbrev small : Engine
small = record {
  config = config;
  nodes =
      ("a", node "a" (unknown ∷ []))
      ∷ ("b", node "b" (clean ∷ []))
      ∷ ("r", node "r" (serial_rugger ∷ []))
      ∷ [];
  adj_out = ("a", edge "a" "b" ∷ []) ∷ ("r", edge "r" "b" ∷ []) ∷ [];
  adj_in = ("b", edge "a" "b" ∷ edge "r" "b" ∷ []) ∷ [];
  cex_addrs = [];
  next_cluster = 0;
  node_count = pos 3;
  edge_count = 2;
  query_count = 0;
}

abbrev hops : Option (Engine × EntityReport) → Option ℕ
hops none = none
hops (some (e, r)) = r.hops_to_rugger

-- From "a" to the rugger there are two steps, one of them against its edge.
two_hops : hops (query_deployer "a" small) ≡ some 2
unfolding query_deployer mmh.Graph.Queries.report_on mmh.Graph.Queries.analyze
    mmh.Graph.Queries.analyze_one mmh.Graph.Queries.cluster_size mmh.Graph.Search.search
    mmh.Graph.Search.start mmh.Graph.Search.expand mmh.Graph.Search.offer_all mmh.Graph.Search.offer
    lookup insert
two_hops = refl

query_deployer-hops_example :
    (r : EntityReport) × (query_deployer "a" small ≡ some (record small { query_count = 1 }, r))
    × ((k : ℕ)
        → r.hops_to_rugger ≡ some k
        → (a : String) × Walk (next_both small) "a" k a
          × (k ≤ 2)
          × (is_other_rugger small "a" a ≡ true))
    × ((a : String) (k : ℕ)
        → Walk (next_both small) "a" k a
        → k ≤ 2
        → is_other_rugger small "a" a ≡ true
        → (h : ℕ) × (r.hops_to_rugger ≡ some h) × (h ≤ k))
unfolding lookup
query_deployer-hops_example = query_deployer-hops small "a" (node "a" (unknown ∷ [])) refl

abbrev scores : HasScores
scores = record { low = (refl, refl); middle = (refl, refl); high = (refl, refl) }

abbrev rugger_report : Option (Engine × EntityReport) → Engine × EntityReport
rugger_report none = (small, mmh.Graph.Queries.blank_report "r")
rugger_report (some x) = x

abbrev reported : Engine × EntityReport
reported = rugger_report (query_deployer "r" small)

query_deployer-risk_example :
    IsScore reported.1.risk_score
    × ((n : GraphNode)
        → lookup "r" small.nodes ≡ some n
        → has_label serial_rugger n.labels ≡ true
        → reported.1.risk_score ≡ pos 100)
unfolding query_deployer mmh.Graph.Queries.report_on mmh.Graph.Queries.analyze
    mmh.Graph.Queries.analyze_one mmh.Graph.Queries.cluster_size mmh.Graph.Search.search
    mmh.Graph.Search.start mmh.Graph.Search.expand mmh.Graph.Search.offer_all mmh.Graph.Search.offer
    lookup insert
query_deployer-risk_example = query_deployer-risk small reported.0 "r" reported.1 scores refl

query_cluster_visits_example :
    (nodes : List GraphNode) × (query_cluster "a" small ≡ some nodes)
    × ((vs : List String) × IsVisit small "a" nodes vs)
query_cluster_visits_example = query_cluster_visits small "a"

loaded_reports_example :
    ((load_snapshot decoded "p" (save_snapshot some 9 "p" small []).0 (new_engine config)).1 ≡ true)
    × ((address : String) (r : EntityReport)
        → MayReport
            (load_snapshot decoded "p" (save_snapshot some 9 "p" small []).0 (new_engine config)).0
            address
            r
          ↔ MayReport small address r)
unfolding new_engine mmh.Graph.seed save_snapshot
loaded_reports_example =
    loaded_reports some decoded (λ snap file same. cc) 9 "p" small (new_engine config) [] refl refl

abbrev actions : List Action
actions =
    calls (transfers 1 "a" "b" (pos 5) 0 "transfer")
    ∷ calls (rugs 2 "a")
    ∷ saves 3 "p"
    ∷ restarts
    ∷ loads "p"
    ∷ calls (propagates "a")
    ∷ []

abbrev first_world : World GraphSnapshot
first_world = record { engine = new_engine config; files = [] }

abbrev world_of : Option (World GraphSnapshot) → World GraphSnapshot
world_of none = first_world
world_of (some w) = w

abbrev last_world : World GraphSnapshot
last_world = world_of (live some decoded config actions first_world)
