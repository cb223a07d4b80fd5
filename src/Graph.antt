-- ===== src/Graph.antt =====
-- nexus/internal/graph/engine.go, nexus/internal/graph/cex.go and nexus/internal/graph/persistence.go: the graph of
-- wallets. This file has the state and what feeds it; Graph/Search the breadth-first search,
-- Graph/Queries the reports, Graph/Labels clusters and labels, Graph/Upkeep eviction and
-- snapshots. `none` is the panic of a nil pointer. A timestamp is in seconds and `now` in
-- nanoseconds since the Unix epoch, neither before it; a timestamp that is later than `now` has age
-- 0, which decays like a negative age. The limits of the configuration are not negative.
-- Loops over maps go in the order of the list, which Go leaves open. Mutexes are left out.
pub mod Search
pub mod Queries
pub mod Labels
pub mod Upkeep
pub mod Examples
use mmh.Prelude.{
  ℕ, suc, ◌+◌, ◌-◌, ◌*◌, ◌%◌, ◌/◌, String, Bool, true, false, not, ◌||◌, ◌&&◌, Option, none, some,
  List, [], ◌∷◌, ◌++◌, if◌then◌else◌, ltb, leb, length, Map, lookup, insert, has_key,
}
use mmh.Prelude.Int.{ℤ, pos, ◌+ℤ◌}
use mmh.Numbers.{Numbers}

pub data Label : Type 0 where
  unknown serial_rugger profitable_insider wash_trader sybil_cluster clean cex : Label

abbrev pub same_label : Label → Label → Bool
same_label unknown unknown = true
same_label serial_rugger serial_rugger = true
same_label profitable_insider profitable_insider = true
same_label wash_trader wash_trader = true
same_label sybil_cluster sybil_cluster = true
same_label clean clean = true
same_label cex cex = true
same_label _ _ = false

pub record GraphNode : Type 0 where
  pub address : String
  pub labels : List Label
  pub first_seen : ℕ
  pub tx_count : ℕ
  pub cluster_id : ℕ
  pub is_cex : Bool
  pub deploy_count : ℕ
  pub rug_count : ℕ

abbrev pub uint32 : ℕ → ℕ
uint32 n = n % 4_294_967_296

-- `hasLabel`, and the loop that looks for a label in `addLabel`.
abbrev pub has_label : Label → List Label → Bool
has_label l [] = false
has_label l (m ∷ ms) = same_label m l || has_label l ms

abbrev pub without_unknown : List Label → List Label
without_unknown [] = []
without_unknown (unknown ∷ ms) = without_unknown ms
without_unknown (m ∷ ms) = m ∷ without_unknown ms

unfoldable pub add_label : Label → GraphNode → GraphNode
add_label l node =
    let real = if same_label l unknown then node.labels else without_unknown node.labels in
    if has_label l node.labels then node else record node { labels = real ++ (l ∷ []) }

-- `knownCEXWallets`
abbrev pub known_cex_wallets : List String
known_cex_wallets =
    "5tzFkiKscXHK5ZXCGbXZxdw7gTjjD1mBwuoFbhUvuAi9" ∷ "9WzDXwBbmkg8ZTbNMqUxvQRAyrZzDsGYdLVL9zYtAWWM"
    ∷ "ASTyfSima4LLAdDgoFGkgqoKowG1LZFDr9fAQrg7iaJZ"
    ∷ "H8sMJSCQxfKiFTCfDR3DUMLPwcRbM61LGFJ8N4dK3WjS"
    ∷ "2ojv9BAiHUrvsm9gxDe7fJSzbNZSJcxZvf8dqmWGHG8S" ∷ []

module _ ⦃N : Numbers⦄ where
  pub record GraphEdge : Type 0 where
    pub from : String
    pub to : String
    pub amount : N.Float
    pub timestamp : ℕ
    pub tx_type : String
    pub weight : N.Float

  pub record Config : Type 0 where
    pub max_nodes : ℕ
    pub max_edges_per_node : ℕ
    pub dust_threshold : N.Float
    pub eviction_days : ℕ
    pub label_prop_depth : ℕ
    pub snapshot_interval_s : ℕ
    pub time_decay_7d : N.Float
    pub time_decay_30d : N.Float
    pub sybil_cluster_min : ℕ
    pub high_tx_threshold : ℕ

  pub record Engine : Type 0 where
    pub config : Config
    pub nodes : Map GraphNode
    pub adj_out : Map (List GraphEdge)
    pub adj_in : Map (List GraphEdge)
    pub cex_addrs : Map Bool
    pub next_cluster : ℕ
    pub node_count : ℤ
    pub edge_count : ℕ
    pub query_count : ℕ

  unfoldable pub default_config : Config
  default_config = record {
    max_nodes = 500_000;
    max_edges_per_node = 200;
    dust_threshold = N.literal 1 100;
    eviction_days = 30;
    label_prop_depth = 2;
    snapshot_interval_s = 300;
    time_decay_7d = N.literal 1 2;
    time_decay_30d = N.literal 1 10;
    sybil_cluster_min = 20;
    high_tx_threshold = 10_000;
  }

  abbrev cex_node : String → GraphNode
  cex_node address = record {
    address = address;
    labels = cex ∷ [];
    first_seen = 0;
    tx_count = 0;
    cluster_id = 0;
    is_cex = true;
    deploy_count = 0;
    rug_count = 0;
  }

  -- The loop of `NewEngine`.
  unfoldable pub seed : List String → Engine → Engine
  seed [] e = e
  seed (a ∷ rest) e =
      seed rest
        (record e { cex_addrs = insert a true e.cex_addrs; nodes = insert a (cex_node a) e.nodes })

  unfoldable pub new_engine : Config → Engine
  unfolding seed
  new_engine c = seed known_cex_wallets (record {
    config = c;
    nodes = [];
    adj_out = [];
    adj_in = [];
    cex_addrs = [];
    next_cluster = 0;
    node_count = pos 0;
    edge_count = 0;
    query_count = 0;
  })

  -- A missing entry of `cexAddrs` is false.
  abbrev pub is_known_cex : String → Engine → Bool
  is_known_cex a e = elim (lookup a e.cex_addrs) [ none ↦ false | some b ↦ b ]

  abbrev pub edges_of : String → Map (List GraphEdge) → List GraphEdge
  edges_of a m = elim (lookup a m) [ none ↦ [] | some es ↦ es ]

  unfoldable pub time_decay : Config → ℕ → ℕ → N.Float
  time_decay c now timestamp =
      let hours = N.literal (now - timestamp * 1_000_000_000) 3_600_000_000_000 in
      let days = N.fdiv hours (N.literal 24 1) in
      let one = N.literal 1 1 in
      if N.fle days one
      then one
      else if N.fle days (N.literal 7 1)
      then N.fsub one (N.fmul (N.fsub one c.time_decay_7d) (N.fdiv days (N.literal 7 1)))
      else if N.fle days (N.literal 30 1)
      then N.fsub c.time_decay_7d (
          N.fmul (N.fsub c.time_decay_7d c.time_decay_30d)
            (N.fdiv (N.fsub days (N.literal 7 1)) (N.literal 23 1)))
      else c.time_decay_30d

  unfoldable pub ensure_node : String → ℕ → Engine → Engine
  ensure_node a timestamp e =
      let node : GraphNode = record {
        address = a;
        labels = unknown ∷ [];
        first_seen = timestamp;
        tx_count = 0;
        cluster_id = 0;
        is_cex = is_known_cex a e;
        deploy_count = 0;
        rug_count = 0;
      } in
      if has_key a e.nodes
      then e
      else if leb (e.config).max_nodes (length e.nodes)
      then e
      else record e { nodes = insert a node e.nodes; node_count = e.node_count +ℤ pos 1 }

  -- An assignment to the fields of `e.nodes[a]`.
  unfoldable pub change_node : (GraphNode → GraphNode) → String → Engine → Option Engine
  change_node f a e = elim (lookup a e.nodes) [
    | none ↦ none
    | some node ↦ some (record e { nodes = insert a (f node) e.nodes })
  ]

  abbrev pub count_tx : GraphNode → GraphNode
  count_tx node = record node { tx_count = uint32 (node.tx_count + 1) }

  -- The edge is stored on both sides unless `from` has its share.
  unfoldable pub add_edge : GraphEdge → Engine → Engine
  add_edge edge e =
      let out = edges_of edge.from e.adj_out in
      if ltb (length out) (e.config).max_edges_per_node
      then record e {
        adj_out = insert edge.from (out ++ (edge ∷ [])) e.adj_out;
        adj_in = insert edge.to (edges_of edge.to e.adj_in ++ (edge ∷ [])) e.adj_in;
        edge_count = e.edge_count + 1;
      }
      else e

  -- The node that transfers are sent to is popular.
  abbrev pub is_popular : String → Engine → Bool
  is_popular a e = elim (lookup a e.nodes) [
    | none ↦ false
    | some node ↦ ltb (uint32 (e.config).high_tx_threshold) node.tx_count
  ]

  -- `AddTransfer` once its filters have let the edge through.
  unfoldable pub link : GraphEdge → Engine → Option Engine
  unfolding ensure_node change_node add_edge
  link edge e =
      let e' = ensure_node edge.to edge.timestamp (ensure_node edge.from edge.timestamp e) in
      elim (change_node count_tx edge.from e') [
        | none ↦ none
        | some e2 ↦ elim (change_node count_tx edge.to e2) [
          | none ↦ none
          | some e3 ↦ some (add_edge edge e3)
        ]
      ]

  unfoldable pub add_transfer : ℕ → String → String → N.Float → ℕ → String → Engine → Option Engine
  unfolding link
  add_transfer now from to amount timestamp tx_type e =
      if N.flt amount (e.config).dust_threshold
      then some e
      else if is_known_cex from e || is_known_cex to e
      then some e
      else if is_popular to e
      then some e
      else link
          (record {
            from = from;
            to = to;
            amount = amount;
            timestamp = timestamp;
            tx_type = tx_type;
            weight = N.fmul amount (time_decay e.config now timestamp);
          })
          e

  unfoldable pub add_deploy : String → ℕ → Engine → Option Engine
  add_deploy deployer timestamp e =
      change_node (λ node. record node { deploy_count = node.deploy_count + 1 }) deployer
        (ensure_node deployer timestamp e)

  abbrev pub count_rug : GraphNode → GraphNode
  count_rug node =
      let node' = record node { rug_count = node.rug_count + 1 } in
      if leb 2 node'.rug_count then add_label serial_rugger node' else node'

  -- `MarkRug` up to the propagation of labels, which it starts as a goroutine: `propagate_labels`
  -- of Graph/Labels.
  unfoldable pub mark_rug : ℕ → String → Engine → Option Engine
  mark_rug now deployer e =
      change_node count_rug deployer (ensure_node deployer (now / 1_000_000_000) e)

  unfoldable pub mark_insider : ℕ → String → Engine → Option Engine
  mark_insider now a e =
      change_node (add_label profitable_insider) a (ensure_node a (now / 1_000_000_000) e)
