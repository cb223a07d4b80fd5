-- ===== src/Graph/Upkeep.antt =====
-- Eviction in nexus/internal/graph/engine.go, and the snapshots of nexus/internal/graph/persistence.go. `encode` and
-- `decode` stand for encoding/gob, and files for a map from paths; errors of the file system are
-- left out, as is the report on a file.
pub mod Snapshots
use mmh.Prelude.{
  ℕ, suc, zero, ◌+◌, ◌-◌, ◌*◌, ◌/◌, String, Bool, true, false, not, ◌&&◌, ◌||◌, Option, none, some,
  List, [], ◌∷◌, ◌++◌, if◌then◌else◌, ltb, ◌==◌, length, Map, lookup, insert, delete,
}
use mmh.Prelude.Int.{ℤ, pos, ◌-ℤ◌}
use mmh.Numbers.{Numbers}
use mmh.Graph.{GraphNode, GraphEdge, Engine}

module _ ⦃N : Numbers⦄ where
  abbrev pub is_stale : ℕ → GraphNode → Bool
  is_stale cutoff node = not node.is_cex && (ltb node.first_seen cutoff && (node.tx_count == 0))

  -- The loop of `Evict` over the nodes, with the count of what is evicted.
  unfoldable pub evict_among : ℕ → Map GraphNode → Engine → Engine × ℕ
  evict_among cutoff [] e = (e, 0)
  evict_among cutoff ((a, node) ∷ m) e =
      let (e', n) = evict_among cutoff m e in
      if is_stale cutoff node
      then (
        record e' {
          nodes = delete a e'.nodes;
          adj_out = delete a e'.adj_out;
          adj_in = delete a e'.adj_in;
        },
        suc n,
      )
      else (e', n)

  unfoldable pub evict : ℕ → Engine → Engine × ℕ
  unfolding evict_among
  evict now e =
      let cutoff = (now - (e.config).eviction_days * 86_400_000_000_000) / 1_000_000_000 in
      let (e', n) = evict_among cutoff e.nodes e in
      (record e' { node_count = e'.node_count -ℤ pos n }, n)

  pub record GraphSnapshot : Type 0 where
    pub nodes : Map GraphNode
    pub adj_out : Map (List GraphEdge)
    pub adj_in : Map (List GraphEdge)
    pub next_cluster : ℕ
    pub created_at : ℕ
    pub node_count : ℕ
    pub edge_count : ℕ

  abbrev pub count_edges : Map (List GraphEdge) → ℕ
  count_edges [] = 0
  count_edges (entry ∷ m) = length entry.1 + count_edges m

  unfoldable pub snapshot_of : ℕ → Engine → GraphSnapshot
  snapshot_of now e = record {
    nodes = e.nodes;
    adj_out = e.adj_out;
    adj_in = e.adj_in;
    next_cluster = e.next_cluster;
    created_at = now;
    node_count = length e.nodes;
    edge_count = count_edges e.adj_out;
  }

  unfoldable pub restore : GraphSnapshot → Engine → Engine
  restore snap e = record e {
    nodes = snap.nodes;
    adj_out = snap.adj_out;
    adj_in = snap.adj_in;
    next_cluster = snap.next_cluster;
    node_count = pos (length snap.nodes);
  }

  -- What decoding a file gives: a snapshot, the end of an empty file, or an error.
  pub data Decoded : Type 0 where
    decoded : GraphSnapshot → Decoded
    end_of_file bad_file : Decoded

  -- The second part tells whether there is no error.
  unfoldable pub save_snapshot :
      {File : Type 0}
      → (GraphSnapshot → Option File)
      → ℕ
      → String
      → Engine
      → Map File
      → Map File × Bool
  unfolding snapshot_of
  save_snapshot encode now path e files = elim (encode (snapshot_of now e)) [
    | none ↦ (files, false)
    | some file ↦ (insert path file files, true)
  ]

  unfoldable pub load_snapshot :
      {File : Type 0} → (File → Decoded) → String → Map File → Engine → Engine × Bool
  unfolding restore
  load_snapshot decode path files e = elim (lookup path files) [
    | none ↦ (e, true)
    | some file ↦ elim (decode file) [
      | decoded snap ↦ (restore snap e, true)
      | end_of_file ↦ (e, true)
      | bad_file ↦ (e, false)
    ]
  ]
