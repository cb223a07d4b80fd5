-- ===== src/Graph/Labels.antt =====
-- Clusters and labels in nexus/internal/graph/engine.go. The propagation of labels is a call of its own, which
-- `MarkRug` starts. The search of `QueryCluster` has no depths: it is a loop of its own, on fuel.
pub mod Firewall
pub mod Exchanges
pub mod Restarts
pub mod Cluster
pub mod Visits
use mmh.Prelude.{
  ℕ, suc, zero, ◌+◌, ◌-◌, ◌*◌, ◌/◌, String, Bool, true, false, not, ◌&&◌, ◌||◌, Option, none, some,
  List, [], ◌∷◌, ◌++◌, if◌then◌else◌, ltb, leb, ◌==◌, length, Map, lookup, insert, has_key, str_eq,
}
use mmh.Numbers.{Numbers}
use mmh.Graph.{
  Label, serial_rugger, sybil_cluster, clean, has_label, add_label, GraphNode, GraphEdge, Config,
  Engine, edges_of, uint32,
}
use mmh.Graph.Search.{Search, search, start, next_both, next_out, fuel_of}

module _ ⦃N : Numbers⦄ where
  -- `countPaths`
  abbrev pub count_paths : String → List GraphEdge → ℕ
  count_paths to [] = 0
  count_paths to (edge ∷ es) = let n = count_paths to es in if str_eq edge.to to then suc n else n

  -- The label that is passed on to a neighbour.
  abbrev pub pass_on : List Label → GraphNode → GraphNode
  pass_on ls node = if has_label serial_rugger ls then add_label serial_rugger node else node

  -- A neighbour that keeps its labels.
  abbrev pub is_spared : String → String → ℕ → GraphNode → Engine → Bool
  is_spared source a depth node e =
      str_eq a source
      || ((depth == 0)
          || (node.is_cex
              || (has_label clean node.labels
                  && ltb (count_paths a (edges_of source e.adj_out)) 2)))

  -- One round of the loop over what the search has visited; `ls` are the labels of the source.
  unfoldable pub pass_one : String → List Label → String → ℕ → Engine → Engine
  pass_one source ls a depth e = elim (lookup a e.nodes) [
    | none ↦ e
    | some node ↦
        if is_spared source a depth node e
        then e
        else record e { nodes = insert a (pass_on ls node) e.nodes }
  ]

  unfoldable pub pass_labels : String → List Label → Map ℕ → Engine → Engine
  unfolding pass_one
  pass_labels source ls [] e = e
  pass_labels source ls ((a, depth) ∷ m) e = pass_labels source ls m (pass_one source ls a depth e)

  -- `none` where the search runs out of fuel.
  unfoldable pub propagate_labels : String → Engine → Option Engine
  unfolding pass_labels
  propagate_labels source e = elim (lookup source e.nodes) [
    | none ↦ some e
    | some node ↦
        elim (search (next_out e) (e.config).label_prop_depth (fuel_of e) (start source)) [
          | none ↦ none
          | some s ↦ some (pass_labels source node.labels s.visited e)
        ]
  ]

  -- The funders of a wallet, counted in a map.
  abbrev pub count_funders : List GraphEdge → Map ℕ → Map ℕ
  count_funders [] m = m
  count_funders (edge ∷ es) m =
      let n : ℕ = elim (lookup edge.from m) [ none ↦ 0 | some k ↦ k ] in
      count_funders es (if str_eq edge.tx_type "transfer" then insert edge.from (suc n) m else m)

  abbrev pub funders_of : Engine → List String → Map ℕ → Map ℕ
  funders_of e [] m = m
  funders_of e (w ∷ ws) m = funders_of e ws (count_funders (edges_of w e.adj_in) m)

  -- The loop that looks for a common funder.
  abbrev pub common_funder : ℕ → Map ℕ → Option String
  common_funder threshold [] = none
  common_funder threshold ((funder, count) ∷ m) =
      let rest = common_funder threshold m in if leb threshold count then some funder else rest

  abbrev pub join_cluster : ℕ → GraphNode → GraphNode
  join_cluster id node = add_label sybil_cluster (record node { cluster_id = id })

  unfoldable pub mark_one : ℕ → String → Engine → Engine
  mark_one id w e = elim (lookup w e.nodes) [
    | none ↦ e
    | some node ↦ record e { nodes = insert w (join_cluster id node) e.nodes }
  ]

  unfoldable pub mark_cluster : ℕ → List String → Engine → Engine
  unfolding mark_one
  mark_cluster id [] e = e
  mark_cluster id (w ∷ ws) e = mark_cluster id ws (mark_one id w e)

  unfoldable pub detect_sybil_cluster : List String → Engine → Engine × Bool
  unfolding mark_cluster
  detect_sybil_cluster wallets e =
      let id = uint32 (e.next_cluster + 1) in
      if ltb (length wallets) (e.config).sybil_cluster_min
      then (e, false)
      else elim (common_funder (length wallets / 2) (funders_of e wallets [])) [
        | none ↦ (e, false)
        | some funder ↦
            (mark_cluster id (wallets ++ (funder ∷ [])) (record e { next_cluster = id }), true)
      ]

  -- `DetectFundingTree`, its cutoff in seconds.
  unfoldable pub detect_funding_tree : ℕ → List GraphEdge → Engine → List String
  detect_funding_tree cutoff [] e = []
  detect_funding_tree cutoff (edge ∷ es) e =
      let rest = detect_funding_tree cutoff es e in
      let is_new : Bool = elim (lookup edge.to e.nodes) [
        | none ↦ false
        | some node ↦ ltb node.tx_count 5
      ] in
      if (str_eq edge.tx_type "transfer" && ltb cutoff edge.timestamp) && is_new
      then edge.to ∷ rest
      else rest

  unfoldable pub funding_tree : ℕ → String → ℕ → Engine → List String
  unfolding detect_funding_tree
  funding_tree now funder window_hours e =
      detect_funding_tree ((now - window_hours * 3_600_000_000_000) / 1_000_000_000)
        (edges_of funder e.adj_out) e

  -- `QueryCluster`: the nodes found, the visited addresses and the queue.
  pub record Walker : Type 0 where
    pub cluster : List GraphNode
    pub seen : Map Bool
    pub waiting : List String

  abbrev pub meet : Walker → List String → Walker
  meet w [] = w
  meet w (a ∷ rest) =
      meet
        (if has_key a w.seen
          then w
          else record w { seen = insert a true w.seen; waiting = w.waiting ++ (a ∷ []) })
        rest

  abbrev pub visit : Engine → Walker → String → List String → Walker
  visit e w a rest =
      let found : List GraphNode = elim (lookup a e.nodes) [ none ↦ [] | some node ↦ node ∷ [] ] in
      meet (record w { cluster = w.cluster ++ found; waiting = rest }) (next_both e a)

  unfoldable pub gather : Engine → ℕ → Walker → Option (List GraphNode)
  gather e zero w = elim w.waiting [ [] ↦ some w.cluster | a ∷ rest ↦ none ]
  gather e (suc fuel) w = elim w.waiting [
    | [] ↦ some w.cluster
    | a ∷ rest ↦ elim (ltb (length w.cluster) 100) [
      | false ↦ some w.cluster
      | true ↦ gather e fuel (visit e w a rest)
    ]
  ]

  unfoldable pub query_cluster : String → Engine → Option (List GraphNode)
  unfolding gather
  query_cluster a e =
      gather e (fuel_of e) (record { cluster = []; seen = (a, true) ∷ []; waiting = a ∷ [] })
