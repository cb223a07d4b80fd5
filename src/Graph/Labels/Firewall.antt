-- ===== src/Graph/Labels/Firewall.antt =====
-- The edges of the graph of nexus/internal/graph/engine.go that touch no exchange, and what keeps them so.
use mmh.Prelude.{
  ◌≡◌, refl, ap, sym, subst, ◌∙◌, inl, inr, ℕ, ◌+◌, ◌≤◌, String, Bool, false, none, some, List, [],
  ◌∷◌, ◌++◌, arith, All, Map, lookup, Holds, Holds-insert, Holds-lookup, Holds-delete, length,
  length-append, Bool-cases, Option-cases, ltb, ◌-◌, ◌/◌, ◌*◌,
}
use mmh.Numbers.{Numbers}
use mmh.Graph.{
  Label, GraphNode, GraphEdge, Config, Engine, uint32, edges_of, ensure_node, change_node, add_edge,
}
use mmh.Graph.Search.{next_out, search, fuel_of, start}
use mmh.Graph.Labels.{
  pass_one, pass_labels, propagate_labels, mark_one, mark_cluster, common_funder, funders_of,
  detect_sybil_cluster,
}
use mmh.Graph.Upkeep.{evict_among, evict}

module _ ⦃N : Numbers⦄ where
  -- An edge between wallets that are no exchange's.
  abbrev pub IsClear : Map Bool → GraphEdge → Type 0
  IsClear cexs edge =
      (elim (lookup edge.from cexs) [ none ↦ false | some b ↦ b ] ≡ false)
      × (elim (lookup edge.to cexs) [ none ↦ false | some b ↦ b ] ≡ false)

  pub record IsFenced (cexs : Map Bool) (cap : ℕ) (e : Engine) : Type 0 where
    pub same_cexs : e.cex_addrs ≡ cexs
    pub same_cap : (e.config).max_edges_per_node ≡ cap
    pub out_clear : Holds (λ es. All (IsClear cexs) es × (length es ≤ cap)) e.adj_out
    pub in_clear : Holds (All (IsClear cexs)) e.adj_in

  module _ (cexs : Map Bool) (cap : ℕ) where
    All-append_one :
        (es : List GraphEdge) (edge : GraphEdge)
        → All (IsClear cexs) es
        → IsClear cexs edge
        → All (IsClear cexs) (es ++ (edge ∷ []))
    All-append_one [] edge h c = (c, tt)
    All-append_one (x ∷ es) edge (hx, h) c = (hx, All-append_one es edge h c)

    pub edges_of-Holds :
        (P : List GraphEdge → Type 0) (a : String) (m : Map (List GraphEdge))
        → P []
        → Holds P m
        → P (edges_of a m)
    edges_of-Holds P a m none_left h = elim (Option-cases (lookup a m)) [
      | inl absent ↦
          let empty : edges_of a m ≡ [] = ground (arith, absent) in subst P (sym empty) none_left
      | inr (es, there) ↦
          let found : edges_of a m ≡ es = ground (arith, there) in
          subst P (sym found) (Holds-lookup P a m h there)
    ]

    abbrev pub Outs : List GraphEdge → Type 0
    Outs es = All (IsClear cexs) es × (length es ≤ cap)

    pub add_edge-IsFenced :
        (edge : GraphEdge) (e : Engine)
        → IsClear cexs edge
        → IsFenced cexs cap e
        → IsFenced cexs cap (add_edge edge e)
    unfolding add_edge
    add_edge-IsFenced edge e clear f =
        elim (Bool-cases
          (ltb (length (edges_of edge.from e.adj_out)) (e.config).max_edges_per_node)) [
            | inr full ↦ rw full f
            | inl room ↦
                let (outs, few) =
                  edges_of-Holds Outs edge.from e.adj_out (tt, omega arith) f.out_clear in
                rw room (record {
                  same_cexs = f.same_cexs;
                  same_cap = f.same_cap;
                  out_clear =
                      Holds-insert Outs edge.from (edges_of edge.from e.adj_out ++ (edge ∷ []))
                        e.adj_out
                        (
                          All-append_one (edges_of edge.from e.adj_out) edge outs clear,
                          ground (
                            arith,
                            room,
                            f.same_cap,
                            length-append (edges_of edge.from e.adj_out) (edge ∷ []),
                          ),
                        )
                        f.out_clear;
                  in_clear =
                      Holds-insert (All (IsClear cexs)) edge.to
                        (edges_of edge.to e.adj_in ++ (edge ∷ [])) e.adj_in
                        (All-append_one (edges_of edge.to e.adj_in) edge
                          (edges_of-Holds (All (IsClear cexs)) edge.to e.adj_in tt f.in_clear)
                          clear)
                        f.in_clear;
                })
          ]

    -- What the edges and the exchanges' addresses are is not changed.
    pub record Kept (e e' : Engine) : Type 0 where
      kept_cexs : e'.cex_addrs ≡ e.cex_addrs
      kept_config : e'.config ≡ e.config
      kept_out : e'.adj_out ≡ e.adj_out
      kept_in : e'.adj_in ≡ e.adj_in

    pub Kept-IsFenced : (e e' : Engine) → Kept e e' → IsFenced cexs cap e → IsFenced cexs cap e'
    Kept-IsFenced e e' k f = record {
      same_cexs = k.kept_cexs ∙ f.same_cexs;
      same_cap = ap (λ (c : Config). c.max_edges_per_node) k.kept_config ∙ f.same_cap;
      out_clear = subst (Holds Outs) (sym k.kept_out) f.out_clear;
      in_clear = subst (Holds (All (IsClear cexs))) (sym k.kept_in) f.in_clear;
    }

    Kept-refl : (e : Engine) → Kept e e
    Kept-refl e = record { kept_cexs = refl; kept_config = refl; kept_out = refl; kept_in = refl }

    pub Kept-trans : (e e' e2 : Engine) → Kept e e' → Kept e' e2 → Kept e e2
    Kept-trans e e' e2 k l = record {
      kept_cexs = l.kept_cexs ∙ k.kept_cexs;
      kept_config = l.kept_config ∙ k.kept_config;
      kept_out = l.kept_out ∙ k.kept_out;
      kept_in = l.kept_in ∙ k.kept_in;
    }

    pub ensure_node-Kept : (a : String) (t : ℕ) (e : Engine) → Kept e (ensure_node a t e)
    unfolding ensure_node
    ensure_node-Kept a t e = ground arith

    pub change_node-Kept :
        (g : GraphNode → GraphNode) (a : String) (e e' : Engine)
        → change_node g a e ≡ some e'
        → Kept e e'
    unfolding change_node
    change_node-Kept g a e e' h = ground (arith, h)

    pass_one-Kept :
        (source : String) (ls : List Label) (a : String) (d : ℕ) (e : Engine)
        → Kept e (pass_one source ls a d e)
    unfolding pass_one
    pass_one-Kept source ls a d e = ground arith

    pass_labels-Kept :
        (source : String) (ls : List Label) (m : Map ℕ) (e : Engine)
        → Kept e (pass_labels source ls m e)
    unfolding pass_labels
    pass_labels-Kept source ls [] e = Kept-refl e
    pass_labels-Kept source ls ((a, d) ∷ m) e =
        let e' = pass_one source ls a d e in
        Kept-trans e e' (pass_labels source ls m e') (pass_one-Kept source ls a d e)
          (pass_labels-Kept source ls m e')

    pub propagate_labels-Kept :
        (a : String) (e e' : Engine) → propagate_labels a e ≡ some e' → Kept e e'
    unfolding propagate_labels
    propagate_labels-Kept a e e' h = elim (Option-cases (lookup a e.nodes)) [
      | inl absent ↦ ground (arith, h, absent)
      | inr (node, there) ↦
          elim (Option-cases
            (search (next_out e) (e.config).label_prop_depth (fuel_of e) (start a))) [
              | inl runs_out ↦ ground (arith, h, there, runs_out)
              | inr (s, ends) ↦
                  ground (arith, h, there, ends, pass_labels-Kept a node.labels s.visited e)
            ]
    ]

    mark_one-Kept : (id : ℕ) (w : String) (e : Engine) → Kept e (mark_one id w e)
    unfolding mark_one
    mark_one-Kept id w e = ground arith

    mark_cluster-Kept : (id : ℕ) (ws : List String) (e : Engine) → Kept e (mark_cluster id ws e)
    unfolding mark_cluster
    mark_cluster-Kept id [] e = Kept-refl e
    mark_cluster-Kept id (w ∷ ws) e =
        let e' = mark_one id w e in
        Kept-trans e e' (mark_cluster id ws e') (mark_one-Kept id w e) (mark_cluster-Kept id ws e')

    pub detect_sybil_cluster-Kept :
        (wallets : List String) (e : Engine) → Kept e (detect_sybil_cluster wallets e).0
    unfolding detect_sybil_cluster
    detect_sybil_cluster-Kept wallets e =
        let id = uint32 (e.next_cluster + 1) in
        elim (Option-cases (common_funder (length wallets / 2) (funders_of e wallets []))) [
          | inl no_funder ↦ ground (arith, no_funder)
          | inr (funder, found) ↦ ground (
            arith,
            found,
            mark_cluster-Kept id (wallets ++ (funder ∷ [])) (record e { next_cluster = id }),
          )
        ]

    evict_among-IsFenced :
        (cutoff : ℕ) (m : Map GraphNode) (e : Engine)
        → IsFenced cexs cap e
        → IsFenced cexs cap (evict_among cutoff m e).0
    unfolding evict_among
    evict_among-IsFenced cutoff [] e f = f
    evict_among-IsFenced cutoff ((a, node) ∷ m) e f =
        let e' = (evict_among cutoff m e).0 in
        let f' = evict_among-IsFenced cutoff m e f in
        ground (
          arith,
          f',
          Holds-delete Outs a e'.adj_out f'.out_clear,
          Holds-delete (All (IsClear cexs)) a e'.adj_in f'.in_clear,
        )

    pub evict-IsFenced :
        (now : ℕ) (e : Engine) → IsFenced cexs cap e → IsFenced cexs cap (evict now e).0
    unfolding evict
    evict-IsFenced now e f = ground (
      arith,
      evict_among-IsFenced ((now - (e.config).eviction_days * 86_400_000_000_000) / 1_000_000_000)
          e.nodes e f,
    )
