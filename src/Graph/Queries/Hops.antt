-- ===== src/Graph/Queries/Hops.antt =====
-- The hops that the reports of nexus/internal/graph/engine.go give.
use mathlib.Core.Option.{some-injective, none-ne-some}
use mmh.Prelude.{
  ◌≡◌, refl, ap, sym, ◌∙◌, inl, inr, ◌⊎◌, ℕ, ◌+◌, ◌≤◌, String, Bool, true, false, not, ◌&&◌, Option,
  none, some, List, [], ◌∷◌, arith, ltb, Map, lookup, has_key, HasUniqueKeys, str_eq, str_eq_refl,
  eq_of_str_eq, Bool-cases, Option-cases, if◌then◌else◌,
}
use mmh.Numbers.{Numbers}
use mmh.Graph.{
  Label, unknown, serial_rugger, profitable_insider, wash_trader, sybil_cluster, clean, cex,
  has_label, GraphNode, GraphEdge, Engine, edges_of,
}
use mmh.Graph.Search.{Search, search, start, next_both, fuel_of}
use mmh.Graph.Search.Walk.{Walk}
use mmh.Graph.Search.Distance.{search_finds}
use mmh.Graph.Search.Keys.{all_ends, next_both_inside, search-HasUniqueKeys}
use mmh.Graph.Queries.{
  EntityReport, nearer, note_labels, note_funder, analyze_one, analyze, blank_report, cluster_size,
  report_on, query_deployer,
}

module _ ⦃N : Numbers⦄ where
  note_funder-hops :
      (a : String) (ls : List Label) (es : List GraphEdge) (r : EntityReport)
      → (note_funder a ls es r).hops_to_rugger ≡ r.hops_to_rugger
  note_funder-hops a ls [] r = refl
  note_funder-hops a ls (edge ∷ es) r =
      elim (Bool-cases (str_eq edge.from a && str_eq r.seed_funder "")) [
        | inl found ↦ ground (
          arith,
          found,
          note_funder-hops a ls es (record r { seed_funder = a; seed_funder_labels = ls }),
        )
        | inr other ↦ ground (arith, other, note_funder-hops a ls es r)
      ]

  nearer_twice : (d : ℕ) (h : Option ℕ) → nearer d (nearer d h) ≡ nearer d h
  nearer_twice d none = ground arith
  nearer_twice d (some h) = ground arith

  note_labels-hops :
      (d : ℕ) (ls : List Label) (r : EntityReport)
      → (note_labels d ls r).hops_to_rugger
        ≡ (if has_label serial_rugger ls then nearer d r.hops_to_rugger else r.hops_to_rugger)
  note_labels-hops d [] r = refl
  note_labels-hops d (serial_rugger ∷ ls) r = ground (
    arith,
    note_labels-hops d ls (record r { hops_to_rugger = nearer d r.hops_to_rugger }),
    nearer_twice d r.hops_to_rugger,
  )
  note_labels-hops d (profitable_insider ∷ ls) r =
      note_labels-hops d ls (record r { hops_to_insider = nearer d r.hops_to_insider })
  note_labels-hops d (unknown ∷ ls) r = note_labels-hops d ls r
  note_labels-hops d (wash_trader ∷ ls) r = note_labels-hops d ls r
  note_labels-hops d (sybil_cluster ∷ ls) r = note_labels-hops d ls r
  note_labels-hops d (clean ∷ ls) r = note_labels-hops d ls r
  note_labels-hops d (cex ∷ ls) r = note_labels-hops d ls r

  -- Another wallet that is labelled a serial rugger.
  abbrev pub is_other_rugger : Engine → String → String → Bool
  is_other_rugger e address a =
      not (str_eq a address)
      && elim (lookup a e.nodes) [ none ↦ false | some node ↦ has_label serial_rugger node.labels ]

  abbrev nearest : Engine → String → Map ℕ → Option ℕ → Option ℕ
  nearest e address [] h = h
  nearest e address ((a, d) ∷ m) h =
      nearest e address m (if is_other_rugger e address a then nearer d h else h)

  analyze_one-hops :
      (e : Engine) (address a : String) (d : ℕ) (r : EntityReport)
      → (analyze_one e address a d r).hops_to_rugger
        ≡ (if is_other_rugger e address a then nearer d r.hops_to_rugger else r.hops_to_rugger)
  unfolding analyze_one
  analyze_one-hops e address a d r = elim (Option-cases (lookup a e.nodes)) [
    | inl absent ↦ ground (arith, absent)
    | inr (node, there) ↦ ground (
      arith,
      there,
      note_labels-hops d node.labels r,
      note_funder-hops a node.labels (edges_of address e.adj_in) (note_labels d node.labels r),
    )
  ]

  analyze-hops :
      (e : Engine) (address : String) (m : Map ℕ) (r : EntityReport)
      → (analyze e address m r).hops_to_rugger ≡ nearest e address m r.hops_to_rugger
  unfolding analyze
  analyze-hops e address [] r = refl
  analyze-hops e address ((a, d) ∷ m) r =
      analyze-hops e address m (analyze_one e address a d r)
      ∙ ap (nearest e address m) (analyze_one-hops e address a d r)

  nearer-le : (c : ℕ) (h : Option ℕ) → (i : ℕ) × (nearer c h ≡ some i) × (i ≤ c)
  nearer-le c none = (c, refl, omega arith)
  nearer-le c (some j) = elim (Bool-cases (ltb c j)) [
    | inl closer ↦ (c, rw closer refl, omega arith)
    | inr farther ↦ (j, rw farther refl, ground (arith, farther))
  ]

  nearer-cases : (c : ℕ) (h : Option ℕ) (k : ℕ) → nearer c h ≡ some k → (h ≡ some k) ⊎ (c ≡ k)
  nearer-cases c none k e = inr (some-injective c k e)
  nearer-cases c (some j) k e = ground (arith, e)

  other_key :
      (a b : String) (k : ℕ) (m : Map ℕ)
      → lookup a m ≡ some k
      → has_key b m ≡ false
      → str_eq b a ≡ false
  other_key a b k m at fresh = elim (Bool-cases (str_eq b a)) [
    | inl same ↦
        let fresh' = sym (ap (λ x. has_key x m) (eq_of_str_eq b a same)) ∙ fresh in
        ground (arith, at, fresh')
    | inr other ↦ other
  ]

  -- A hop that is found is at most any that was known.
  nearest-le :
      (e : Engine) (address : String) (m : Map ℕ) (h : Option ℕ) (j : ℕ)
      → h ≡ some j
      → (k : ℕ) × (nearest e address m h ≡ some k) × (k ≤ j)
  nearest-le e address [] h j known = (j, known, omega arith)
  nearest-le e address ((a, d) ∷ m) h j known =
      let h' = if is_other_rugger e address a then nearer d h else h in
      let (i, now, small) = step_le in
      let (k, found, smaller) = nearest-le e address m h' i now in
      (k, found, omega (arith, small, smaller))
    where
      step_le :
          (i : ℕ) × ((if is_other_rugger e address a then nearer d h else h) ≡ some i) × (i ≤ j)
      step_le = elim (Bool-cases (is_other_rugger e address a)) [
        | inr no_rugger ↦ (j, rw (no_rugger, known) refl, omega arith)
        | inl rugger ↦ elim (Bool-cases (ltb d j)) [
          | inl closer ↦ (d, rw (rugger, known, closer) refl, ground (arith, closer))
          | inr farther ↦ (j, rw (rugger, known, farther) refl, omega arith)
        ]
      ]

  -- No rugger among what is visited is nearer than the hop that is found.
  nearest-bounds :
      (e : Engine) (address : String) (m : Map ℕ) (h : Option ℕ) (a : String) (d : ℕ)
      → lookup a m ≡ some d
      → is_other_rugger e address a ≡ true
      → (k : ℕ) × (nearest e address m h ≡ some k) × (k ≤ d)
  unfolding lookup
  nearest-bounds e address [] h a d at rugger = cc
  nearest-bounds e address ((b, c) ∷ m) h a d at rugger = elim (Bool-cases (str_eq b a)) [
    | inl same ↦
        let b_is_a = eq_of_str_eq b a same in
        let rugger' = ap (is_other_rugger e address) b_is_a ∙ rugger in
        let c_is_d : c ≡ d = ground (arith, at, same) in
        let (i, now, small) = nearer-le c h in
        let (k, found, smaller) =
          nearest-le e address m (if is_other_rugger e address b then nearer c h else h) i
            (rw rugger' now) in
        (k, found, omega (arith, small, smaller, c_is_d))
    | inr other ↦
        nearest-bounds e address m (if is_other_rugger e address b then nearer c h else h) a d
          (ground (arith, at, other)) rugger
  ]

  -- A hop that is found is that of a rugger, or was known.
  nearest-found :
      (e : Engine) (address : String) (m : Map ℕ) (h : Option ℕ) (k : ℕ)
      → HasUniqueKeys m
      → nearest e address m h ≡ some k
      → (h ≡ some k) ⊎ ((a : String) × (lookup a m ≡ some k) × (is_other_rugger e address a ≡ true))
  unfolding lookup
  nearest-found e address [] h k unique found = inl found
  nearest-found e address ((b, c) ∷ m) h k (fresh, unique) found =
      elim (nearest-found e address m (if is_other_rugger e address b then nearer c h else h) k
        unique found) [
          | inr (a, at, rugger) ↦ inr (a, ground (arith, at, other_key a b k m at fresh), rugger)
          | inl now ↦ elim (Bool-cases (is_other_rugger e address b)) [
            | inr no_rugger ↦ inl (rw no_rugger at now)
            | inl rugger ↦ elim (nearer-cases c h k (rw rugger at now)) [
              | inl known ↦ inl known
              | inr c_is_k ↦ inr (b, ground (arith, str_eq_refl b, c_is_k), rugger)
            ]
          ]
        ]

  start-HasUniqueKeys : (a : String) → HasUniqueKeys (start a).visited
  unfolding start lookup
  start-HasUniqueKeys a = (refl, tt)

  report_on-hops :
      (e : Engine) (address : String) (node : GraphNode) (m : Map ℕ)
      → (report_on e address node m).hops_to_rugger ≡ nearest e address m none
  unfolding report_on
  report_on-hops e address node m = analyze-hops e address m (record (blank_report address) {
    labels = node.labels;
    cluster_size = cluster_size address e;
  })

  query_deployer_report :
      (e : Engine) (address : String) (node : GraphNode) (s : Search)
      → lookup address e.nodes ≡ some node
      → search (next_both e) (e.config).label_prop_depth (fuel_of e) (start address) ≡ some s
      → query_deployer address e
        ≡ some (record e { query_count = e.query_count + 1 }, report_on e address node s.visited)
  unfolding query_deployer
  query_deployer_report e address node s there ends = ground (arith, there, ends)

  -- The wallet whose depth the hops are, and a shortest walk to it.
  found_walk :
      (e : Engine) (address : String) (limit : ℕ) (s : Search)
      → ((v : String) (d : ℕ)
          → lookup v s.visited ≡ some d
          → Walk (next_both e) address d v
            × (d ≤ limit)
            × ((k : ℕ) → Walk (next_both e) address k v → d ≤ k))
      → HasUniqueKeys s.visited
      → (k : ℕ) → nearest e address s.visited none ≡ some k
      → (a : String) × Walk (next_both e) address k a
        × (k ≤ limit)
        × (is_other_rugger e address a ≡ true)
  found_walk e address limit s sound unique k found =
      elim (nearest-found e address s.visited none k unique found) [
        | inl known ↦ absurd (none-ne-some k known)
        | inr (a, at, rugger) ↦ (a, (sound a k at).0, (sound a k at).1, rugger)
      ]

  -- The query for a known address returns a report and changes only the counter of queries. The
  -- report has hops to a rugger exactly when a walk over edges in either direction, of at most the
  -- depth that the configuration sets, leads to another wallet labelled a serial rugger, and the
  -- hops are then the length of a shortest such walk.
  pub query_deployer-hops :
      (e : Engine) (address : String) (node : GraphNode)
      → lookup address e.nodes ≡ some node
      → (r : EntityReport) × (query_deployer address e
          ≡ some (record e { query_count = e.query_count + 1 }, r))
        × ((k : ℕ)
            → r.hops_to_rugger ≡ some k
            → (a : String) × Walk (next_both e) address k a
              × (k ≤ (e.config).label_prop_depth)
              × (is_other_rugger e address a ≡ true))
        × ((a : String) (k : ℕ)
            → Walk (next_both e) address k a
            → k ≤ (e.config).label_prop_depth
            → is_other_rugger e address a ≡ true
            → (h : ℕ) × (r.hops_to_rugger ≡ some h) × (h ≤ k))
  query_deployer-hops e address node there =
      let limit = (e.config).label_prop_depth in
      let (s, ends, sound, complete) =
        search_finds (next_both e) limit address (all_ends e) (next_both_inside e) in
      let m = s.visited in
      let unique =
        search-HasUniqueKeys (next_both e) limit (fuel_of e) (start address) s
          (start-HasUniqueKeys address) ends in
      let hops = report_on-hops e address node m in
      (
        report_on e address node m,
        query_deployer_report e address node s there ends,
        λ k found. found_walk e address limit s sound unique k (sym hops ∙ found),
        λ a k walk near rugger.
            let (d, at) = complete a k walk near in
            let (h, found, small) = nearest-bounds e address m none a d at rugger in
            (h, hops ∙ found, omega (arith, small, (sound a d at).2 k walk)),
      )
