-- ===== src/Graph/Search/Distance.antt =====
-- The depths that the search of nexus/internal/graph/engine.go finds are distances.
use mathlib.Core.Option.{some-injective}
use mathlib.Core.Bool.{true≢false}
use mmh.Prelude.{
  ◌≡◌, ap, sym, subst, ◌∙◌, inl, inr, ◌⊎◌, ℕ, suc, zero, ◌≤◌, ◌<◌, String, true, false, some, List,
  [], ◌∷◌, arith, leb, length, Map, lookup, mem, mem-cases, List-cases, Bool-cases, str_eq_refl,
  eq_of_str_eq,
}
use mmh.Graph.Search.{Search, offer_all, expand, search, start}
use mmh.Graph.Search.Walk.{Walk, here, step, Grows, offer_all-Grows}
use mmh.Graph.Search.Ends.{work, unseen-le, search_ends}
use mmh.Graph.Search.Levels.{At, Levels, All-Levels, offer_all-Levels}

module _ (next : String → List String) (limit : ℕ) (source : String) where
  -- The neighbours of an address at a depth are visited, one deeper at most.
  abbrev Covers : Map ℕ → String → ℕ → Type 0
  Covers m u d =
      (v : String) → mem v (next u) ≡ true → (e : ℕ) × (lookup v m ≡ some e) × (e ≤ suc d)

  abbrev Bounded : Map ℕ → ℕ → Type 0
  Bounded m d = (v : String) (e : ℕ) → lookup v m ≡ some e → e ≤ suc d

  record Inv (s : Search) : Type 0 where
    source_at : lookup source s.visited ≡ some 0
    sound : (v : String) (d : ℕ) → lookup v s.visited ≡ some d → Walk next source d v × (d ≤ limit)
    closed :
        (u : String) (d : ℕ)
        → lookup u s.visited ≡ some d
        → d < limit
        → (mem u s.queue ≡ true) ⊎ Covers s.visited u d
    level : (d : ℕ) × Levels s.visited d s.queue × Bounded s.visited d

  -- The head of the queue is at the least depth of the queue.
  head_level :
      (s : Search) (a : String) (rest : List String)
      → s.queue ≡ a ∷ rest
      → Inv s
      → (d : ℕ) × At s.visited d a × Levels s.visited d rest × Bounded s.visited d
  head_level s a rest e inv =
      let (d, levels, bounded) = inv.level in
      elim (subst (Levels s.visited d) e levels) [
        | inl (at, more) ↦ (d, at, more, bounded)
        | inr (at, more) ↦ (
          suc d,
          at,
          All-Levels s.visited (suc d) rest more,
          λ v k h. omega (arith, bounded v k h),
        )
      ]

  expand_deep :
      (s : Search) (a : String) (rest : List String) (d : ℕ)
      → At s.visited d a
      → leb limit d ≡ true
      → expand next limit s a rest ≡ record s { queue = rest }
  unfolding expand
  expand_deep s a rest d at h = ground (arith, at, h)

  expand_near :
      (s : Search) (a : String) (rest : List String) (d : ℕ)
      → At s.visited d a
      → leb limit d ≡ false
      → expand next limit s a rest ≡ offer_all d (record s { queue = rest }) (next a)
  unfolding expand
  expand_near s a rest d at h = ground (arith, at, h)

  Inv-deep :
      (s : Search) (a : String) (rest : List String) (d : ℕ)
      → s.queue ≡ a ∷ rest
      → At s.visited d a
      → Levels s.visited d rest
      → Bounded s.visited d
      → limit ≤ d
      → Inv s
      → Inv (record s { queue = rest })
  Inv-deep s a rest d e at levels bounded deep inv = record {
    source_at = inv.source_at;
    sound = inv.sound;
    closed = λ u k h near. elim (inv.closed u k h near) [
      | inr covers ↦ inr covers
      | inl queued ↦ elim (mem-cases u a rest (subst (λ q. mem u q ≡ true) e queued)) [
        | inr later ↦ inl later
        | inl same ↦
            let k_is_d : k ≡ d =
              some-injective k d (sym h ∙ ap (λ x. lookup x s.visited) (sym same) ∙ at) in
            absurd (omega (arith, k_is_d, deep, near))
      ]
    ];
    level = (d, levels, bounded);
  }

  Inv-near :
      (s t : Search) (a : String) (rest : List String) (d : ℕ)
      → s.queue ≡ a ∷ rest
      → At s.visited d a
      → Bounded s.visited d
      → d < limit
      → Grows d (record s { queue = rest }) t (next a)
      → Levels t.visited d t.queue
      → Inv s
      → Inv t
  Inv-near s t a rest d e at bounded near grows levels inv =
      let bounded' : Bounded t.visited d = λ v k h. elim (grows.only_new v k h) [
        | inl old ↦ bounded v k old
        | inr (deeper, among, queued) ↦ omega (arith, deeper)
      ] in
      record {
        source_at = grows.keeps source 0 inv.source_at;
        sound = λ v k h. elim (grows.only_new v k h) [
          | inl old ↦ inv.sound v k old
          | inr (deeper, among, queued) ↦
              subst (λ n. Walk next source n v × (n ≤ limit)) (sym deeper)
                (step (inv.sound a d at).0 among, omega (arith, near))
        ];
        closed = λ u k h shallow. elim (grows.only_new u k h) [
          | inr (deeper, among, queued) ↦ inl queued
          | inl old ↦ elim (inv.closed u k old shallow) [
            | inr covers ↦
                inr (λ v m. let (x, vx, small) = covers v m in (x, grows.keeps v x vx, small))
            | inl queued ↦ elim (mem-cases u a rest (subst (λ q. mem u q ≡ true) e queued)) [
              | inr later ↦ inl (grows.queue_keeps u later)
              | inl same ↦
                  let k_is_d : k ≡ d =
                    some-injective k d (sym old ∙ ap (λ x. lookup x s.visited) (sym same) ∙ at) in
                  inr (λ v m.
                    let (x, vx) =
                      grows.covers v (subst (λ w. mem v (next w) ≡ true) (sym same) m) in
                    (x, vx, omega (arith, bounded' v x vx, k_is_d)))
            ]
          ]
        ];
        level = (d, levels, bounded');
      }

  Inv-expand :
      (s : Search) (a : String) (rest : List String)
      → s.queue ≡ a ∷ rest
      → Inv s
      → Inv (expand next limit s a rest)
  Inv-expand s a rest e inv =
      let (d, at, levels, bounded) = head_level s a rest e inv in
      let s' = record s { queue = rest } in
      elim (Bool-cases (leb limit d)) [
        | inl deep ↦
            subst Inv (sym (expand_deep s a rest d at deep))
              (Inv-deep s a rest d e at levels bounded (ground (arith, deep)) inv)
        | inr near ↦ subst Inv (sym (expand_near s a rest d at near)) (
            Inv-near s (offer_all d s' (next a)) a rest d e at bounded (ground (arith, near))
              (offer_all-Grows d s' (next a)) (offer_all-Levels d s' (next a) levels) inv)
      ]

  start-only :
      (v : String) (d : ℕ) → lookup v (start source).visited ≡ some d → (source ≡ v) × (d ≡ 0)
  unfolding start lookup
  start-only v d h = ground (arith, h, eq_of_str_eq source v)

  Inv-start : Inv (start source)
  unfolding start lookup
  Inv-start = record {
    source_at = ground (arith, str_eq_refl source);
    sound = λ v d h.
        let (same, zero_deep) = start-only v d h in
        rw zero_deep (subst (Walk next source 0) same here, omega arith);
    closed = λ u d h near.
        let (same, zero_deep) = start-only u d h in inl (ground (arith, same, str_eq_refl u));
    level = (
      0,
      inl (ground (arith, str_eq_refl source), tt),
      λ v e h. omega (arith, (start-only v e h).1),
    );
  }

  search_empty : (fuel : ℕ) (s : Search) → s.queue ≡ [] → search next limit fuel s ≡ some s
  unfolding search
  search_empty zero s h = ground (arith, h)
  search_empty (suc fuel) s h = ground (arith, h)

  search-Inv :
      (fuel : ℕ) (s t : Search) → Inv s → search next limit fuel s ≡ some t → Inv t × (t.queue ≡ [])
  unfolding search
  search-Inv zero s t inv e = elim (List-cases s.queue) [
    | inl empty ↦
        let same : s ≡ t = some-injective s t (sym (search_empty zero s empty) ∙ e) in
        (subst Inv same inv, ap (λ x. x.queue) (sym same) ∙ empty)
    | inr (a, rest, q) ↦ ground (arith, e, q)
  ]
  search-Inv (suc fuel) s t inv e = elim (List-cases s.queue) [
    | inl empty ↦
        let same : s ≡ t = some-injective s t (sym (search_empty (suc fuel) s empty) ∙ e) in
        (subst Inv same inv, ap (λ x. x.queue) (sym same) ∙ empty)
    | inr (a, rest, q) ↦
        search-Inv fuel (expand next limit s a rest) t (Inv-expand s a rest q inv)
          (ground (arith, e, q))
  ]

  complete :
      (t : Search)
      → Inv t
      → t.queue ≡ []
      → {v : String} {k : ℕ} → Walk next source k v
      → k ≤ limit
      → (d : ℕ) × (lookup v t.visited ≡ some d) × (d ≤ k)
  complete t inv done here near = (0, inv.source_at, omega arith)
  complete t inv done (step {k} {a} {b} walk among) near =
      let (d, at, small) = complete t inv done walk (omega (arith, near)) in
      elim (inv.closed a d at (omega (arith, small, near))) [
        | inl queued ↦ absurd (true≢false (sym queued ∙ ap (mem a) done))
        | inr covers ↦
            let (e, at', small') = covers b among in (e, at', omega (arith, small, small'))
      ]

  start-work : (us : List String) → work us (start source) ≤ suc (length us)
  unfolding start
  start-work us = omega (arith, unseen-le us (start source).visited)

  shortest :
      (t : Search)
      → Inv t
      → t.queue ≡ []
      → (v : String) (d k : ℕ) → lookup v t.visited ≡ some d
      → d ≤ limit
      → Walk next source k v
      → d ≤ k
  shortest t inv done v d k h near walk = elim (Bool-cases (leb d k)) [
    | inl small ↦ ground (arith, small)
    | inr large ↦
        let (d', at, small) = complete t inv done walk (ground (arith, large, near)) in
        let same : d' ≡ d = some-injective d' d (sym at ∙ h) in omega (arith, same, small)
  ]

  -- Where the neighbours lie within some addresses and there is fuel for each of them and one more:
  -- the search ends. What it has visited are the addresses that a walk of at most `limit` steps
  -- leads to, each at the length of a shortest such walk.
  pub search_finds :
      (us : List String)
      → ((a b : String) → mem b (next a) ≡ true → mem b us ≡ true)
      → (t : Search) × (search next limit (suc (length us)) (start source) ≡ some t)
        × ((v : String) (d : ℕ)
            → lookup v t.visited ≡ some d
            → Walk next source d v × (d ≤ limit) × ((k : ℕ) → Walk next source k v → d ≤ k))
        × ((v : String) (k : ℕ)
            → Walk next source k v
            → k ≤ limit
            → (d : ℕ) × (lookup v t.visited ≡ some d))
  search_finds us inside =
      let (t, ends) =
        search_ends us next limit inside (suc (length us)) (start source) (start-work us) in
      let (inv, done) = search-Inv (suc (length us)) (start source) t Inv-start ends in
      (
        t,
        ends,
        λ v d h.
            let (walk, near) = inv.sound v d h in
            (walk, near, λ k other. shortest t inv done v d k h near other),
        λ v k walk near. let (d, at, small) = complete t inv done walk near in (d, at),
      )
