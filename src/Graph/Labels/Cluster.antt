-- ===== src/Graph/Labels/Cluster.antt =====
-- The end of the loop of `QueryCluster` of nexus/internal/graph/engine.go.
use mmh.Prelude.{
  ◌≡◌, ap, inl, inr, ℕ, suc, zero, ◌+◌, ◌≤◌, String, true, none, some, List, [], ◌∷◌, ◌++◌, arith,
  length, length-append, lookup, insert, has_key, mem, str_eq_refl, Bool-cases, List-cases, ltb,
}
use mmh.Numbers.{Numbers}
use mmh.Graph.{GraphNode, Engine}
use mmh.Graph.Search.{next_both}
use mmh.Graph.Search.Ends.{unseen, unseen-insert}
use mmh.Graph.Search.Keys.{all_ends, next_both_inside}
use mmh.Graph.Labels.{Walker, meet, visit, gather}

module _ ⦃N : Numbers⦄ where
  abbrev pub work : List String → Walker → ℕ
  work us w = unseen us w.seen + length w.waiting

  meet-work :
      (us : List String) (w : Walker) (met : List String)
      → ((a : String) → mem a met ≡ true → mem a us ≡ true)
      → work us (meet w met) ≤ work us w
  meet-work us w [] inside = omega arith
  meet-work us w (a ∷ rest) inside =
      let later = λ (x : String) (h : mem x rest ≡ true). inside x (ground (arith, h)) in
      elim (Bool-cases (has_key a w.seen)) [
        | inl seen ↦ ground (arith, seen, meet-work us w rest later)
        | inr fresh ↦
            let w' : Walker = record w {
              seen = insert a true w.seen;
              waiting = w.waiting ++ (a ∷ []);
            } in
            ground (
              arith,
              fresh,
              meet-work us w' rest later,
              unseen-insert us a true w.seen (inside a (ground (arith, str_eq_refl a))) fresh,
              length-append w.waiting (a ∷ []),
            )
      ]

  pub gather_ends :
      (e : Engine) (fuel : ℕ) (w : Walker)
      → work (all_ends e) w ≤ fuel
      → (nodes : List GraphNode) × (gather e fuel w ≡ some nodes)
  unfolding gather
  gather_ends e zero w h = (w.cluster, ground (arith, List-cases w.waiting))
  gather_ends e (suc fuel) w h = elim (List-cases w.waiting) [
    | inl empty ↦ (w.cluster, ground (arith, empty))
    | inr (a, rest, q) ↦ elim (Bool-cases (ltb (length w.cluster) 100)) [
      | inr many ↦ (w.cluster, ground (arith, q, many))
      | inl few ↦
          let (nodes, found) =
            gather_ends e fuel (visit e w a rest) (visit-work e w a rest fuel h q) in
          (nodes, ground (arith, q, few, found))
    ]
  ]
    where
      visit-work :
          (e' : Engine) (w' : Walker) (a : String) (rest : List String) (fuel' : ℕ)
          → work (all_ends e') w' ≤ suc fuel'
          → w'.waiting ≡ a ∷ rest
          → work (all_ends e') (visit e' w' a rest) ≤ fuel'
      visit-work e' w' a rest fuel' small q' =
          let found : List GraphNode = elim (lookup a e'.nodes) [
            | none ↦ []
            | some node ↦ node ∷ []
          ] in
          let w2 : Walker = record w' { cluster = w'.cluster ++ found; waiting = rest } in
          omega (
            arith,
            meet-work (all_ends e') w2 (next_both e' a) (next_both_inside e' a),
            ap length q',
            small,
          )
