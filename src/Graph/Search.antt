-- ===== src/Graph/Search.antt =====
-- The breadth-first search that nexus/internal/graph/engine.go has in `QueryDeployer`, `propagateLabels` and,
-- without depths, in `QueryCluster`. It is written once over the neighbours of an address, in the order in
-- which the loops over edges meet them. `none` means that the fuel has run out; Search/Ends shows
-- that it does not, and Search/Distance that the depths are distances.
pub mod Walk
pub mod Levels
pub mod Keys
pub mod Ends
pub mod Distance
use mmh.Prelude.{
  ℕ, suc, zero, ◌+◌, String, Bool, true, false, Option, none, some, List, [], ◌∷◌, ◌++◌,
  if◌then◌else◌, leb, Map, lookup, insert, has_key, map, length,
}
use mmh.Numbers.{Numbers}
use mmh.Graph.{Engine, GraphEdge, edges_of}

-- The addresses visited, each with its depth, and the queue.
pub record Search : Type 0 where
  pub visited : Map ℕ
  pub queue : List String

-- One round of the loop over edges.
unfoldable pub offer : ℕ → Search → String → Search
offer depth s a =
    if has_key a s.visited
    then s
    else record { visited = insert a (suc depth) s.visited; queue = s.queue ++ (a ∷ []) }

unfoldable pub offer_all : ℕ → Search → List String → Search
unfolding offer
offer_all depth s [] = s
offer_all depth s (a ∷ rest) = offer_all depth (offer depth s a) rest

-- `visited[current]`
abbrev pub depth_of : Search → String → ℕ
depth_of s a = elim (lookup a s.visited) [ none ↦ 0 | some d ↦ d ]

-- One round of the loop over the queue, after `a` has left its head.
unfoldable pub expand : (String → List String) → ℕ → Search → String → List String → Search
unfolding offer_all
expand next limit s a rest =
    let d = depth_of s a in
    let s' = record s { queue = rest } in if leb limit d then s' else offer_all d s' (next a)

unfoldable pub search : (String → List String) → ℕ → ℕ → Search → Option Search
unfolding expand
search next limit zero s = elim s.queue [ [] ↦ some s | a ∷ rest ↦ none ]
search next limit (suc fuel) s = elim s.queue [
  | [] ↦ some s
  | a ∷ rest ↦ search next limit fuel (expand next limit s a rest)
]

unfoldable pub start : String → Search
start source = record { visited = (source, 0) ∷ []; queue = source ∷ [] }

module _ ⦃N : Numbers⦄ where
  abbrev pub receivers : List GraphEdge → List String
  receivers [] = []
  receivers (edge ∷ es) = edge.to ∷ receivers es

  abbrev pub senders : List GraphEdge → List String
  senders [] = []
  senders (edge ∷ es) = edge.from ∷ senders es

  -- The neighbours over outgoing edges, and over outgoing and then incoming ones.
  abbrev pub next_out : Engine → String → List String
  next_out e a = receivers (edges_of a e.adj_out)

  abbrev pub next_both : Engine → String → List String
  next_both e a = receivers (edges_of a e.adj_out) ++ senders (edges_of a e.adj_in)

  -- The addresses that edges lead to, and one more: the rounds that the search can make.
  abbrev pub all_receivers : Map (List GraphEdge) → List String
  all_receivers [] = []
  all_receivers ((a, es) ∷ m) = receivers es ++ all_receivers m

  abbrev pub all_senders : Map (List GraphEdge) → List String
  all_senders [] = []
  all_senders ((a, es) ∷ m) = senders es ++ all_senders m

  abbrev pub fuel_of : Engine → ℕ
  fuel_of e = suc (length (all_receivers e.adj_out ++ all_senders e.adj_in))
