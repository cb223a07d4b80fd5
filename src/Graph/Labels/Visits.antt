-- ===== src/Graph/Labels/Visits.antt =====
-- The wallets that `QueryCluster` of nexus/internal/graph/engine.go visits.
use mmh.Prelude.{
  ◌≡◌, refl, ap, sym, subst, ◌∙◌, inl, inr, ℕ, suc, zero, ◌≤◌, String, true, false, none, some,
  List, [], ◌∷◌, ◌++◌, arith, All, length, length-append, lookup, insert, has_key, has_key-insert,
  mem, mem-append, mem-cases, ◌<◌, str_eq_iff, str_eq_refl, Bool-cases, Option-cases, List-cases,
  ltb,
}
use mathlib.Core.Bool.{true≢false}
use mathlib.Core.Option.{some-injective, none-ne-some}
use mmh.Numbers.{Numbers}
use mmh.Graph.{GraphNode, Engine}
use mmh.Graph.Search.{next_both, fuel_of}
use mmh.Graph.Search.Walk.{Walk, here, step}
use mmh.Graph.Search.Ends.{unseen-le}
use mmh.Graph.Search.Keys.{all_ends}
use mmh.Graph.Labels.{Walker, meet, visit, gather, query_cluster}
use mmh.Graph.Labels.Cluster.{gather_ends, work}

-- No text stands twice.
abbrev pub IsUnique : List String → Type 0
IsUnique [] = Unit
IsUnique (x ∷ xs) = (mem x xs ≡ false) × IsUnique xs

append_one_assoc :
    (xs ys : List String) (b : String) → (xs ++ ys) ++ (b ∷ []) ≡ xs ++ (ys ++ (b ∷ []))
append_one_assoc [] ys b = refl
append_one_assoc (x ∷ xs) ys b = ap (λ zs. x ∷ zs) (append_one_assoc xs ys b)

append_one-shift :
    (xs : List String) (b : String) (ys : List String) → (xs ++ (b ∷ [])) ++ ys ≡ xs ++ (b ∷ ys)
append_one-shift [] b ys = refl
append_one-shift (x ∷ xs) b ys = ap (λ zs. x ∷ zs) (append_one-shift xs b ys)

append_one-IsUnique :
    (xs : List String) (b : String) → IsUnique xs → mem b xs ≡ false → IsUnique (xs ++ (b ∷ []))
append_one-IsUnique [] b u fresh = (refl, tt)
append_one-IsUnique (x ∷ xs) b (new, u) fresh = (
  ground (arith, mem-append x xs (b ∷ []), new, fresh, str_eq_iff x b, str_eq_iff b x),
  append_one-IsUnique xs b u (ground (arith, fresh)),
)

prefix-IsUnique : (xs ys : List String) → IsUnique (xs ++ ys) → IsUnique xs
prefix-IsUnique [] ys u = tt
prefix-IsUnique (x ∷ xs) ys (new, u) =
    (ground (arith, new, mem-append x xs ys), prefix-IsUnique xs ys u)

module _ {ℓ} {A : Type ℓ} (P : A → Type 0) where
  append_one-All : (xs : List A) (b : A) → All P xs → P b → All P (xs ++ (b ∷ []))
  append_one-All [] b h p = (p, tt)
  append_one-All (x ∷ xs) b (hx, h) p = (hx, append_one-All xs b h p)

  prefix-All : (xs ys : List A) → All P (xs ++ ys) → All P xs
  prefix-All [] ys h = tt
  prefix-All (x ∷ xs) ys (hx, h) = (hx, prefix-All xs ys h)

module _ ⦃N : Numbers⦄ where
  -- The nodes of some addresses, of those that have one.
  abbrev pub nodes_of : Engine → List String → List GraphNode
  nodes_of e [] = []
  nodes_of e (a ∷ as') = elim (lookup a e.nodes) [
    | none ↦ nodes_of e as'
    | some node ↦ node ∷ nodes_of e as'
  ]

  nodes_of-append_one :
      (e : Engine) (as' : List String) (b : String)
      → nodes_of e (as' ++ (b ∷ [])) ≡ nodes_of e as' ++ nodes_of e (b ∷ [])
  nodes_of-append_one e [] b = refl
  nodes_of-append_one e (a ∷ as') b = elim (Option-cases (lookup a e.nodes)) [
    | inl absent ↦ ground (arith, absent, nodes_of-append_one e as' b)
    | inr (node, there) ↦ ground (arith, there, nodes_of-append_one e as' b)
  ]

  -- A wallet that a walk over edges leads to.
  abbrev pub IsReached : Engine → String → String → Type 0
  IsReached e source b = (k : ℕ) × Walk (next_both e) source k b

  -- What the loop keeps: `vs` are visited and the rest wait.
  record IsTraced (e : Engine) (source : String) (vs : List String) (w : Walker) : Type 0 where
    unique : IsUnique (vs ++ w.waiting)
    noted : (b : String) → mem b (vs ++ w.waiting) ≡ true → has_key b w.seen ≡ true
    kept : (b : String) → has_key b w.seen ≡ true → mem b (vs ++ w.waiting) ≡ true
    rooted : has_key source w.seen ≡ true
    reached : All (IsReached e source) (vs ++ w.waiting)

  meet-IsTraced :
      (e : Engine) (source : String) (vs : List String) (w : Walker) (met : List String)
      → IsTraced e source vs w
      → ((b : String) → mem b met ≡ true → IsReached e source b)
      → IsTraced e source vs (meet w met)
  meet-IsTraced e source vs w [] t led = t
  meet-IsTraced e source vs w (b ∷ rest) t led =
      let later = λ (x : String) (h : mem x rest ≡ true). led x (ground (arith, h)) in
      elim (Bool-cases (has_key b w.seen)) [
        | inl seen ↦ rw seen (meet-IsTraced e source vs w rest t later)
        | inr fresh ↦
            let w' : Walker = record w {
              seen = insert b true w.seen;
              waiting = w.waiting ++ (b ∷ []);
            } in
            let same = append_one_assoc vs w.waiting b in
            let new : mem b (vs ++ w.waiting) ≡ false =
              elim (Bool-cases (mem b (vs ++ w.waiting))) [
                | inr new ↦ new
                | inl old ↦ absurd (true≢false (sym (t.noted b old) ∙ fresh))
              ] in
            rw fresh (
              meet-IsTraced e source vs w' rest
                (record {
                  unique =
                      subst IsUnique same (append_one-IsUnique (vs ++ w.waiting) b t.unique new);
                  noted = λ x h. noted_too x h same;
                  kept = λ x h. kept_too x h same;
                  rooted = ground (arith, has_key-insert b source true w.seen, t.rooted);
                  reached = subst (All (IsReached e source)) same (
                      append_one-All (IsReached e source) (vs ++ w.waiting) b t.reached
                        (led b (ground (arith, str_eq_refl b))));
                })
                later)
      ]
    where
      noted_too :
          (x : String)
          → mem x (vs ++ (w.waiting ++ (b ∷ []))) ≡ true
          → (vs ++ w.waiting) ++ (b ∷ []) ≡ vs ++ (w.waiting ++ (b ∷ []))
          → has_key x (insert b true w.seen) ≡ true
      noted_too x h same =
          let among : mem x ((vs ++ w.waiting) ++ (b ∷ [])) ≡ true = ap (mem x) same ∙ h in
          ground (
            arith,
            among,
            mem-append x (vs ++ w.waiting) (b ∷ []),
            t.noted x,
            has_key-insert b x true w.seen,
          )

      kept_too :
          (x : String)
          → has_key x (insert b true w.seen) ≡ true
          → (vs ++ w.waiting) ++ (b ∷ []) ≡ vs ++ (w.waiting ++ (b ∷ []))
          → mem x (vs ++ (w.waiting ++ (b ∷ []))) ≡ true
      kept_too x h same =
          let among : mem x ((vs ++ w.waiting) ++ (b ∷ [])) ≡ true = ground (
            arith,
            h,
            mem-append x (vs ++ w.waiting) (b ∷ []),
            t.kept x,
            has_key-insert b x true w.seen,
          ) in
          ap (mem x) (sym same) ∙ among

  -- What is seen stays seen, and what is met is seen.
  meet-seen :
      (w : Walker) (met : List String) (x : String)
      → has_key x w.seen ≡ true
      → has_key x (meet w met).seen ≡ true
  meet-seen w [] x h = h
  meet-seen w (b ∷ rest) x h = elim (Bool-cases (has_key b w.seen)) [
    | inl seen ↦ ground (arith, seen, meet-seen w rest x h)
    | inr fresh ↦
        let w' : Walker = record w {
          seen = insert b true w.seen;
          waiting = w.waiting ++ (b ∷ []);
        } in
        ground
          (arith, fresh, meet-seen w' rest x (ground (arith, has_key-insert b x true w.seen, h)))
  ]

  meet-met :
      (w : Walker) (met : List String) (x : String)
      → mem x met ≡ true
      → has_key x (meet w met).seen ≡ true
  meet-met w [] x h = cc
  meet-met w (b ∷ rest) x h =
      let w' : Walker = record w { seen = insert b true w.seen; waiting = w.waiting ++ (b ∷ []) } in
      elim (mem-cases x b rest h) [
        | inl same ↦ elim (Bool-cases (has_key b w.seen)) [
          | inl seen ↦
              ground
                (arith, seen, meet-seen w rest x (ap (λ y. has_key y w.seen) (sym same) ∙ seen))
          | inr fresh ↦ ground (
            arith,
            fresh,
            meet-seen w' rest x
                (has_key-insert b x true w.seen ∙ ground (arith, same, str_eq_iff b x)),
          )
        ]
        | inr later ↦ elim (Bool-cases (has_key b w.seen)) [
          | inl seen ↦ ground (arith, seen, meet-met w rest x later)
          | inr fresh ↦ ground (arith, fresh, meet-met w' rest x later)
        ]
      ]

  -- The neighbours of what is visited are seen.
  abbrev IsClosed : Engine → List String → Walker → Type 0
  IsClosed e vs w =
      (v b : String) → mem v vs ≡ true → mem b (next_both e v) ≡ true → has_key b w.seen ≡ true

  visit-IsClosed :
      (e : Engine) (vs : List String) (w : Walker) (a : String) (rest : List String)
      → IsClosed e vs w
      → IsClosed e (vs ++ (a ∷ [])) (visit e w a rest)
  visit-IsClosed e vs w a rest closed v b visited next =
      let found : List GraphNode = elim (lookup a e.nodes) [ none ↦ [] | some node ↦ node ∷ [] ] in
      let w' : Walker = record w { cluster = w.cluster ++ found; waiting = rest } in
      elim (Bool-cases (mem v vs)) [
        | inl before ↦ meet-seen w' (next_both e a) b (closed v b before next)
        | inr after ↦
            let same : a ≡ v =
              (str_eq_iff a v).0 (ground (arith, visited, after, mem-append v vs (a ∷ []))) in
            meet-met w' (next_both e a) b (ap (λ x. mem b (next_both e x)) same ∙ next)
      ]

  -- When nothing waits, everything that a walk leads to is visited.
  all_visited :
      (e : Engine) (source : String) (vs : List String) (w : Walker) {k : ℕ} {b : String}
      → IsTraced e source vs w
      → IsClosed e vs w
      → w.waiting ≡ []
      → Walk (next_both e) source k b
      → mem b vs ≡ true
  all_visited e source vs w t closed empty walk = seen_visited _ (seen walk)
    where
      seen_visited : (b : String) → has_key b w.seen ≡ true → mem b vs ≡ true
      seen_visited b h =
          ground (arith, ap (λ ws. mem b (vs ++ ws)) empty, t.kept b h, mem-append b vs [])

      seen : {k : ℕ} {b : String} → Walk (next_both e) source k b → has_key b w.seen ≡ true
      seen here = t.rooted
      seen (step {k} {a} {b} walk among) = closed a b (seen_visited a (seen walk)) among

  -- The next address of the queue is visited.
  shift-IsTraced :
      (e : Engine) (source : String) (vs : List String) (w : Walker) (a : String)
      (rest : List String) (cluster : List GraphNode)
      → w.waiting ≡ a ∷ rest
      → IsTraced e source vs w
      → IsTraced e source (vs ++ (a ∷ [])) (record w { cluster = cluster; waiting = rest })
  shift-IsTraced e source vs w a rest cluster q t =
      let same : vs ++ w.waiting ≡ (vs ++ (a ∷ [])) ++ rest =
        ap (λ ws. vs ++ ws) q ∙ sym (append_one-shift vs a rest) in
      record {
        unique = subst IsUnique same t.unique;
        noted = λ b h. t.noted b (ap (mem b) same ∙ h);
        kept = λ b h. ap (mem b) (sym same) ∙ t.kept b h;
        rooted = t.rooted;
        reached = subst (All (IsReached e source)) same t.reached;
      }

  All-last :
      (P : String → Type 0) (vs : List String) (a : String) (rest : List String)
      → All P (vs ++ (a ∷ rest))
      → P a
  All-last P [] a rest h = h.0
  All-last P (v ∷ vs) a rest h = All-last P vs a rest h.1

  visit-IsTraced :
      (e : Engine) (source : String) (vs : List String) (w : Walker) (a : String)
      (rest : List String)
      → w.waiting ≡ a ∷ rest
      → IsTraced e source vs w
      → IsTraced e source (vs ++ (a ∷ [])) (visit e w a rest)
  visit-IsTraced e source vs w a rest q t =
      let found : List GraphNode = elim (lookup a e.nodes) [ none ↦ [] | some node ↦ node ∷ [] ] in
      let w' : Walker = record w { cluster = w.cluster ++ found; waiting = rest } in
      let (k, walk) =
        All-last (IsReached e source) vs a rest
          (subst (λ ws. All (IsReached e source) (vs ++ ws)) q t.reached) in
      meet-IsTraced e source (vs ++ (a ∷ [])) w' (next_both e a)
        (shift-IsTraced e source vs w a rest (w.cluster ++ found) q t)
        (λ b among. (suc k, step walk among))

  meet-cluster : (w : Walker) (met : List String) → (meet w met).cluster ≡ w.cluster
  meet-cluster w [] = refl
  meet-cluster w (b ∷ rest) = elim (Bool-cases (has_key b w.seen)) [
    | inl seen ↦ ground (arith, seen, meet-cluster w rest)
    | inr fresh ↦
        let w' : Walker = record w {
          seen = insert b true w.seen;
          waiting = w.waiting ++ (b ∷ []);
        } in
        ground (arith, fresh, meet-cluster w' rest)
  ]

  visit-cluster :
      (e : Engine) (w : Walker) (a : String) (rest : List String)
      → (visit e w a rest).cluster ≡ w.cluster ++ nodes_of e (a ∷ [])
  visit-cluster e w a rest =
      let found : List GraphNode = elim (lookup a e.nodes) [ none ↦ [] | some node ↦ node ∷ [] ] in
      meet-cluster (record w { cluster = w.cluster ++ found; waiting = rest }) (next_both e a)

  -- What the loop returns: the nodes of some addresses.
  abbrev pub IsVisit : Engine → String → List GraphNode → List String → Type 0
  IsVisit e source nodes vs =
      (nodes ≡ nodes_of e vs)
      × IsUnique vs
      × All (IsReached e source) vs
      × (length nodes ≤ 100)
      × (length nodes < 100
          → (k : ℕ) (b : String) → Walk (next_both e) source k b
          → mem b vs ≡ true)

  visit-few :
      (e : Engine) (w : Walker) (a : String) (rest : List String)
      → ltb (length w.cluster) 100 ≡ true
      → length (visit e w a rest).cluster ≤ 100
  visit-few e w a rest room = ground (
    arith,
    room,
    ap length (visit-cluster e w a rest),
    length-append w.cluster (nodes_of e (a ∷ [])),
  )

  stop-IsVisit :
      (e : Engine) (source : String) (vs : List String) (w : Walker) (nodes : List GraphNode)
      → IsTraced e source vs w
      → IsClosed e vs w
      → w.cluster ≡ nodes_of e vs
      → length w.cluster ≤ 100
      → (length w.cluster < 100 → w.waiting ≡ [])
      → w.cluster ≡ nodes
      → (us : List String) × IsVisit e source nodes us
  stop-IsVisit e source vs w nodes t closed same few ends stops =
      let few' : length nodes ≤ 100 = omega (arith, few, ap length stops) in
      (
        vs,
        (
          sym stops ∙ same,
          prefix-IsUnique vs w.waiting t.unique,
          prefix-All (IsReached e source) vs w.waiting t.reached,
          few',
          λ fewer k b walk.
              all_visited e source vs w t closed (ends (omega (arith, fewer, ap length stops)))
                walk,
        ),
      )

  gather-IsVisit :
      (e : Engine) (source : String) (fuel : ℕ) (vs : List String) (w : Walker)
      (nodes : List GraphNode)
      → IsTraced e source vs w
      → IsClosed e vs w
      → w.cluster ≡ nodes_of e vs
      → length w.cluster ≤ 100
      → gather e fuel w ≡ some nodes
      → (us : List String) × IsVisit e source nodes us
  unfolding gather
  gather-IsVisit e source zero vs w nodes t closed same few h = elim (List-cases w.waiting) [
    | inl empty ↦
        stop-IsVisit e source vs w nodes t closed same few (λ fewer. empty)
          (some-injective w.cluster nodes (ground (arith, h, empty)))
    | inr (a, rest, q) ↦ absurd (none-ne-some nodes (ground (arith, h, q)))
  ]
  gather-IsVisit e source (suc fuel) vs w nodes t closed same few h = elim (List-cases w.waiting) [
    | inl empty ↦
        stop-IsVisit e source vs w nodes t closed same few (λ fewer. empty)
          (some-injective w.cluster nodes (ground (arith, h, empty)))
    | inr (a, rest, q) ↦ elim (Bool-cases (ltb (length w.cluster) 100)) [
      | inr many ↦
          stop-IsVisit e source vs w nodes t closed same few
            (λ fewer. absurd (true≢false (sym (ground (arith, fewer)) ∙ many)))
            (some-injective w.cluster nodes (ground (arith, h, q, many)))
      | inl room ↦
          gather-IsVisit e source fuel (vs ++ (a ∷ [])) (visit e w a rest) nodes
            (visit-IsTraced e source vs w a rest q t) (visit-IsClosed e vs w a rest closed)
            (visit-cluster e w a rest
              ∙ ap (λ ns. ns ++ nodes_of e (a ∷ [])) same
              ∙ sym (nodes_of-append_one e vs a))
            (visit-few e w a rest room) (ground (arith, h, q, room))
    ]
  ]

  -- The query for a cluster always returns. It returns the nodes of some addresses, of those that
  -- have one: each address is visited once and is the end of a walk over edges from the address
  -- asked for; there are at most 100 nodes, and if there are fewer then every address that such a walk
  -- leads to is visited.
  pub query_cluster_visits :
      (e : Engine) (a : String)
      → (nodes : List GraphNode) × (query_cluster a e ≡ some nodes)
        × ((vs : List String) × IsVisit e a nodes vs)
  unfolding query_cluster lookup
  query_cluster_visits e a =
      let w : Walker = record { cluster = []; seen = (a, true) ∷ []; waiting = a ∷ [] } in
      let (nodes, returned) = gather_ends e (fuel_of e) w (start_work e a) in
      (
        nodes,
        returned,
        gather-IsVisit e a (fuel_of e) [] w nodes
            (record {
              unique = (refl, tt);
              noted = λ b h. ground (arith, h);
              kept = λ b h. ground (arith, h);
              rooted = ground (arith, str_eq_refl a);
              reached = ((0, here), tt);
            })
            (λ v b h. cc) refl (omega arith) returned,
      )
    where
      start_work :
          (e' : Engine) (a' : String)
          → work (all_ends e') (record { cluster = []; seen = (a', true) ∷ []; waiting = a' ∷ [] })
            ≤ fuel_of e'
      start_work e' a' = omega (arith, unseen-le (all_ends e') ((a', true) ∷ []))
