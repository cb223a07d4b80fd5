-- ===== src/Graph/Labels/Exchanges.antt =====
-- The calls that change the graph of nexus/internal/graph/engine.go, and walks in it by way of exchanges.
use mathlib.Core.Option.{some-injective}
use mmh.Prelude.{
  ◌≡◌, refl, ap, sym, subst, ◌∙◌, inl, inr, ℕ, ◌+◌, String, Bool, true, false, ◌||◌, Option, none,
  some, List, [], ◌∷◌, arith, All, Map, lookup, mem, mem-append, mem-cases, Bool-cases,
  Option-cases, ◌/◌,
}
use mmh.Numbers.{Numbers}
use mmh.Graph.{
  GraphNode, GraphEdge, Config, Engine, is_known_cex, count_tx, count_rug, add_label,
  profitable_insider, link, time_decay, edges_of, seed, new_engine, ensure_node, change_node,
  add_edge, add_transfer, add_deploy, mark_rug, mark_insider,
}
use mmh.Graph.Search.{receivers, senders, next_both}
use mmh.Graph.Search.Walk.{Walk, here, step}
use mmh.Graph.Labels.{propagate_labels, detect_sybil_cluster}
use mmh.Graph.Upkeep.{evict}
use mmh.Graph.Labels.Firewall.{
  IsClear, IsFenced, Outs, edges_of-Holds, add_edge-IsFenced, Kept-IsFenced, Kept-trans,
  ensure_node-Kept, change_node-Kept, propagate_labels-Kept, detect_sybil_cluster-Kept,
  evict-IsFenced,
}

module _ ⦃N : Numbers⦄ where
  -- The calls that change the graph.
  pub data Call : Type 0 where
    transfers : ℕ → String → String → N.Float → ℕ → String → Call
    deploys : String → ℕ → Call
    rugs : ℕ → String → Call
    insiders : ℕ → String → Call
    propagates : String → Call
    detects : List String → Call
    evicts : ℕ → Call

  -- `none` is a panic, or a search without fuel.
  unfoldable pub call : Call → Engine → Option Engine
  call (transfers now from to amount timestamp tx_type) e =
      add_transfer now from to amount timestamp tx_type e
  call (deploys a timestamp) e = add_deploy a timestamp e
  call (rugs now a) e = mark_rug now a e
  call (insiders now a) e = mark_insider now a e
  call (propagates a) e = propagate_labels a e
  call (detects wallets) e = some (detect_sybil_cluster wallets e).0
  call (evicts now) e = some (evict now e).0

  -- `change_node` after `ensure_node`.
  ensured-IsFenced :
      (cexs : Map Bool) (cap : ℕ) (g : GraphNode → GraphNode) (a : String) (t : ℕ) (e e' : Engine)
      → change_node g a (ensure_node a t e) ≡ some e'
      → IsFenced cexs cap e
      → IsFenced cexs cap e'
  ensured-IsFenced cexs cap g a t e e' h f =
      let e1 = ensure_node a t e in
      Kept-IsFenced cexs cap e e'
        (Kept-trans cexs cap e e1 e' (ensure_node-Kept cexs cap a t e)
          (change_node-Kept cexs cap g a e1 e' h))
        f

  link-IsFenced :
      (cexs : Map Bool) (cap : ℕ) (edge : GraphEdge) (e e' : Engine)
      → IsClear cexs edge
      → link edge e ≡ some e'
      → IsFenced cexs cap e
      → IsFenced cexs cap e'
  unfolding link
  link-IsFenced cexs cap edge e e' clear h f =
      let e1 = ensure_node edge.from edge.timestamp e in
      let e2 = ensure_node edge.to edge.timestamp e1 in
      let k1 = ensure_node-Kept cexs cap edge.from edge.timestamp e in
      let k2 = ensure_node-Kept cexs cap edge.to edge.timestamp e1 in
      let f2 = Kept-IsFenced cexs cap e e2 (Kept-trans cexs cap e e1 e2 k1 k2) f in
      elim (Option-cases (change_node count_tx edge.from e2)) [
        | inl panics ↦ ground (arith, h, panics)
        | inr (e3, from_ok) ↦
            let f3 =
              Kept-IsFenced cexs cap e2 e3
                (change_node-Kept cexs cap count_tx edge.from e2 e3 from_ok) f2 in
            elim (Option-cases (change_node count_tx edge.to e3)) [
              | inl panics ↦ ground (arith, h, from_ok, panics)
              | inr (e4, to_ok) ↦
                  let f4 =
                    Kept-IsFenced cexs cap e3 e4
                      (change_node-Kept cexs cap count_tx edge.to e3 e4 to_ok) f3 in
                  let result : add_edge edge e4 ≡ e' = ground (arith, h, from_ok, to_ok) in
                  subst (IsFenced cexs cap) result (add_edge-IsFenced cexs cap edge e4 clear f4)
            ]
      ]

  add_transfer-IsFenced :
      (cexs : Map Bool) (cap now : ℕ) (from to : String) (amount : N.Float) (timestamp : ℕ)
      (tx_type : String) (e e' : Engine)
      → add_transfer now from to amount timestamp tx_type e ≡ some e'
      → IsFenced cexs cap e
      → IsFenced cexs cap e'
  unfolding add_transfer
  add_transfer-IsFenced cexs cap now from to amount timestamp tx_type e e' h f =
      elim (Bool-cases (is_known_cex from e || is_known_cex to e)) [
        | inl exchange ↦ ground (arith, h, exchange, f)
        | inr no_exchange ↦
            let edge : GraphEdge = record {
              from = from;
              to = to;
              amount = amount;
              timestamp = timestamp;
              tx_type = tx_type;
              weight = N.fmul amount (time_decay e.config now timestamp);
            } in
            let clear : IsClear e.cex_addrs edge = ground (arith, no_exchange) in
            ground (
              arith,
              h,
              no_exchange,
              f,
              link-IsFenced cexs cap edge e e' (subst (λ m. IsClear m edge) f.same_cexs clear),
            )
      ]

  pub call-IsFenced :
      (cexs : Map Bool) (cap : ℕ) (c : Call) (e e' : Engine)
      → call c e ≡ some e'
      → IsFenced cexs cap e
      → IsFenced cexs cap e'
  unfolding call add_deploy mark_rug mark_insider
  call-IsFenced cexs cap (transfers now from to amount timestamp tx_type) e e' h f =
      add_transfer-IsFenced cexs cap now from to amount timestamp tx_type e e' h f
  call-IsFenced cexs cap (deploys a t) e e' h f =
      ensured-IsFenced cexs cap (λ node. record node { deploy_count = node.deploy_count + 1 }) a t e
        e' h f
  call-IsFenced cexs cap (rugs now a) e e' h f =
      ensured-IsFenced cexs cap count_rug a (now / 1_000_000_000) e e' h f
  call-IsFenced cexs cap (insiders now a) e e' h f =
      ensured-IsFenced cexs cap (add_label profitable_insider) a (now / 1_000_000_000) e e' h f
  call-IsFenced cexs cap (propagates a) e e' h f =
      Kept-IsFenced cexs cap e e' (propagate_labels-Kept cexs cap a e e' h) f
  call-IsFenced cexs cap (detects wallets) e e' h f =
      subst (IsFenced cexs cap) (some-injective (detect_sybil_cluster wallets e).0 e' h) (
        Kept-IsFenced cexs cap e (detect_sybil_cluster wallets e).0
          (detect_sybil_cluster-Kept cexs cap wallets e) f)
  call-IsFenced cexs cap (evicts now) e e' h f =
      subst (IsFenced cexs cap) (some-injective (evict now e).0 e' h)
        (evict-IsFenced cexs cap now e f)

  -- The address is that of an exchange.
  abbrev pub is_exchange : Map Bool → String → Bool
  is_exchange cexs a = elim (lookup a cexs) [ none ↦ false | some b ↦ b ]

  receivers-clear :
      (cexs : Map Bool) (es : List GraphEdge) (v : String)
      → All (IsClear cexs) es
      → mem v (receivers es) ≡ true
      → is_exchange cexs v ≡ false
  receivers-clear cexs [] v h among = cc
  receivers-clear cexs (edge ∷ es) v ((from_clear, to_clear), h) among =
      elim (mem-cases v edge.to (receivers es) among) [
        | inl same ↦ ap (is_exchange cexs) (sym same) ∙ to_clear
        | inr later ↦ receivers-clear cexs es v h later
      ]

  senders-clear :
      (cexs : Map Bool) (es : List GraphEdge) (v : String)
      → All (IsClear cexs) es
      → mem v (senders es) ≡ true
      → is_exchange cexs v ≡ false
  senders-clear cexs [] v h among = cc
  senders-clear cexs (edge ∷ es) v ((from_clear, to_clear), h) among =
      elim (mem-cases v edge.from (senders es) among) [
        | inl same ↦ ap (is_exchange cexs) (sym same) ∙ from_clear
        | inr later ↦ senders-clear cexs es v h later
      ]

  next_both-clear :
      (cexs : Map Bool) (cap : ℕ) (e : Engine) (a v : String)
      → IsFenced cexs cap e
      → mem v (next_both e a) ≡ true
      → is_exchange cexs v ≡ false
  next_both-clear cexs cap e a v f among =
      let outs =
        edges_of-Holds cexs cap (Outs cexs cap) a e.adj_out (tt, omega arith) f.out_clear in
      let ins = edges_of-Holds cexs cap (All (IsClear cexs)) a e.adj_in tt f.in_clear in
      let out_ends = receivers (edges_of a e.adj_out) in
      let in_ends = senders (edges_of a e.adj_in) in
      elim (Bool-cases (mem v out_ends)) [
        | inl out ↦ receivers-clear cexs (edges_of a e.adj_out) v outs.0 out
        | inr not_out ↦
            senders-clear cexs (edges_of a e.adj_in) v ins
              (ground (arith, among, not_out, mem-append v out_ends in_ends))
      ]

  pub Walk-clear :
      (cexs : Map Bool) (limit : ℕ) (e : Engine) (source : String) {k : ℕ} {b : String}
      → IsFenced cexs limit e
      → is_exchange cexs source ≡ false
      → Walk (next_both e) source k b
      → is_exchange cexs b ≡ false
  Walk-clear cexs limit e source f outside here = outside
  Walk-clear cexs limit e source f outside (step {k} {a} {b} walk among) =
      next_both-clear cexs limit e a b f among

  pub new_engine-IsFenced :
      (c : Config) → IsFenced (new_engine c).cex_addrs c.max_edges_per_node (new_engine c)
  unfolding new_engine seed
  new_engine-IsFenced c = record {
    same_cexs = refl;
    same_cap = refl;
    out_clear = tt;
    in_clear = tt;
  }
