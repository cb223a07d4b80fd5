-- ===== src/Graph/Search/Keys.antt =====
-- The search of nexus/internal/graph/engine.go visits an address once, and finds its neighbours among the ends
-- of the edges.
use mmh.Prelude.{
  ◌≡◌, sym, subst, inl, inr, ℕ, suc, zero, String, true, false, some, List, [], ◌∷◌, ◌++◌, arith,
  Map, lookup, HasUniqueKeys, insert-HasUniqueKeys, mem, mem-append, List-cases, Option-cases,
  Bool-cases, str_eq,
}
use mmh.Numbers.{Numbers}
use mmh.Graph.{Engine, GraphEdge, edges_of}
use mmh.Graph.Search.{
  Search, offer, offer_all, depth_of, expand, search, receivers, senders, all_receivers,
  all_senders, next_out, next_both,
}
use mmh.Graph.Search.Walk.{offer-seen, offer-fresh}

offer-HasUniqueKeys :
    (d : ℕ) (s : Search) (a : String)
    → HasUniqueKeys s.visited
    → HasUniqueKeys (offer d s a).visited
offer-HasUniqueKeys d s a h = elim (Option-cases (lookup a s.visited)) [
  | inr (e, seen) ↦ subst (λ t. HasUniqueKeys t.visited) (sym (offer-seen d s a seen)) h
  | inl fresh ↦
      subst (λ t. HasUniqueKeys t.visited) (sym (offer-fresh d s a fresh))
        (insert-HasUniqueKeys a (suc d) s.visited h)
]

offer_all-HasUniqueKeys :
    (d : ℕ) (s : Search) (offered : List String)
    → HasUniqueKeys s.visited
    → HasUniqueKeys (offer_all d s offered).visited
unfolding offer_all
offer_all-HasUniqueKeys d s [] h = h
offer_all-HasUniqueKeys d s (a ∷ rest) h =
    offer_all-HasUniqueKeys d (offer d s a) rest (offer-HasUniqueKeys d s a h)

expand-HasUniqueKeys :
    (next : String → List String) (limit : ℕ) (s : Search) (a : String) (rest : List String)
    → HasUniqueKeys s.visited
    → HasUniqueKeys (expand next limit s a rest).visited
unfolding expand
expand-HasUniqueKeys next limit s a rest h =
    ground (arith, h, offer_all-HasUniqueKeys (depth_of s a) (record s { queue = rest }) (next a) h)

pub search-HasUniqueKeys :
    (next : String → List String) (limit fuel : ℕ) (s t : Search)
    → HasUniqueKeys s.visited
    → search next limit fuel s ≡ some t
    → HasUniqueKeys t.visited
unfolding search
search-HasUniqueKeys next limit zero s t h e = elim (List-cases s.queue) [
  | inl empty ↦ ground (arith, e, empty, h)
  | inr (a, rest, q) ↦ ground (arith, e, q)
]
search-HasUniqueKeys next limit (suc fuel) s t h e = elim (List-cases s.queue) [
  | inl empty ↦ ground (arith, e, empty, h)
  | inr (a, rest, q) ↦
      search-HasUniqueKeys next limit fuel (expand next limit s a rest) t
        (expand-HasUniqueKeys next limit s a rest h) (ground (arith, e, q))
]

module _ ⦃N : Numbers⦄ where
  edges_of_later :
      (a c : String) (es : List GraphEdge) (m : Map (List GraphEdge))
      → str_eq c a ≡ false
      → edges_of a ((c, es) ∷ m) ≡ edges_of a m
  unfolding lookup
  edges_of_later a c es m h = ground (arith, h)

  edges_of-receivers :
      (a b : String) (m : Map (List GraphEdge))
      → mem b (receivers (edges_of a m)) ≡ true
      → mem b (all_receivers m) ≡ true
  unfolding lookup
  edges_of-receivers a b [] h = cc
  edges_of-receivers a b ((c, es) ∷ m) h = elim (Bool-cases (str_eq c a)) [
    | inl same ↦ ground (arith, h, same, mem-append b (receivers es) (all_receivers m))
    | inr other ↦ ground (
      arith,
      mem-append b (receivers es) (all_receivers m),
      edges_of-receivers a b m
          (subst (λ es'. mem b (receivers es') ≡ true) (edges_of_later a c es m other) h),
    )
  ]

  edges_of-senders :
      (a b : String) (m : Map (List GraphEdge))
      → mem b (senders (edges_of a m)) ≡ true
      → mem b (all_senders m) ≡ true
  unfolding lookup
  edges_of-senders a b [] h = cc
  edges_of-senders a b ((c, es) ∷ m) h = elim (Bool-cases (str_eq c a)) [
    | inl same ↦ ground (arith, h, same, mem-append b (senders es) (all_senders m))
    | inr other ↦ ground (
      arith,
      mem-append b (senders es) (all_senders m),
      edges_of-senders a b m
          (subst (λ es'. mem b (senders es') ≡ true) (edges_of_later a c es m other) h),
    )
  ]

  -- The ends of all edges.
  abbrev pub all_ends : Engine → List String
  all_ends e = all_receivers e.adj_out ++ all_senders e.adj_in

  pub next_both_inside :
      (e : Engine) (a b : String) → mem b (next_both e a) ≡ true → mem b (all_ends e) ≡ true
  next_both_inside e a b h = ground (
    arith,
    h,
    mem-append b (receivers (edges_of a e.adj_out)) (senders (edges_of a e.adj_in)),
    mem-append b (all_receivers e.adj_out) (all_senders e.adj_in),
    edges_of-receivers a b e.adj_out,
    edges_of-senders a b e.adj_in,
  )

  pub next_out_inside :
      (e : Engine) (a b : String) → mem b (next_out e a) ≡ true → mem b (all_ends e) ≡ true
  next_out_inside e a b h = ground (
    arith,
    mem-append b (all_receivers e.adj_out) (all_senders e.adj_in),
    edges_of-receivers a b e.adj_out h,
  )
