-- ===== src/Graph/Search/Walk.antt =====
-- Walks from an address, and what one round of the search of nexus/internal/graph/engine.go adds.
use mathlib.Core.Option.{some-injective, none-ne-some}
use mmh.Prelude.{
  ◌≡◌, ap, sym, subst, ◌∙◌, inl, inr, ◌⊎◌, ℕ, suc, zero, String, true, none, some, List, [], ◌∷◌,
  ◌++◌, arith, lookup, insert, lookup-insert_self, lookup-insert_ne, mem, mem-append, mem-cases,
  str_eq, str_eq_refl, eq_of_str_eq, Bool-cases, Option-cases,
}
use mmh.Graph.Search.{Search, offer, offer_all}

-- The walks of a length from an address to another.
pub data Walk (next : String → List String) (source : String) : ℕ → String → Type 0 where
  here : Walk next source zero source
  step :
      {k : ℕ} {a b : String}
      → Walk next source k a
      → mem b (next a) ≡ true
      → Walk next source (suc k) b

-- What offering some addresses at a depth has added.
pub record Grows (d : ℕ) (s t : Search) (offered : List String) : Type 0 where
  pub keeps : (v : String) (e : ℕ) → lookup v s.visited ≡ some e → lookup v t.visited ≡ some e
  pub queue_keeps : (v : String) → mem v s.queue ≡ true → mem v t.queue ≡ true
  pub covers : (v : String) → mem v offered ≡ true → (e : ℕ) × (lookup v t.visited ≡ some e)
  pub only_new :
      (v : String) (e : ℕ)
      → lookup v t.visited ≡ some e
      → (lookup v s.visited ≡ some e)
        ⊎ ((e ≡ suc d) × (mem v offered ≡ true) × (mem v t.queue ≡ true))

pub offer-seen :
    (d : ℕ) (s : Search) (a : String) {e : ℕ} → lookup a s.visited ≡ some e → offer d s a ≡ s
unfolding offer
offer-seen d s a h = ground (arith, h)

-- What an address that is first visited makes of the search.
abbrev pub extend : ℕ → Search → String → Search
extend d s a = record { visited = insert a (suc d) s.visited; queue = s.queue ++ (a ∷ []) }

pub offer-fresh :
    (d : ℕ) (s : Search) (a : String) → lookup a s.visited ≡ none → offer d s a ≡ extend d s a
unfolding offer
offer-fresh d s a h = ground (arith, h)

only_self : (v a : String) → mem v (a ∷ []) ≡ true → a ≡ v
only_self v a h = elim (mem-cases v a [] h) [ inl same ↦ same | inr none_left ↦ cc ]

seen-Grows :
    (d : ℕ) (s : Search) (a : String) {e : ℕ} → lookup a s.visited ≡ some e → Grows d s s (a ∷ [])
seen-Grows d s a {e} seen = record {
  keeps = λ v e' h. h;
  queue_keeps = λ v h. h;
  covers = λ v h. (e, subst (λ k. lookup k s.visited ≡ some e) (only_self v a h) seen);
  only_new = λ v e' h. inl h;
}

extend-Grows :
    (d : ℕ) (s : Search) (a : String)
    → lookup a s.visited ≡ none
    → Grows d s (extend d s a) (a ∷ [])
extend-Grows d s a fresh =
    let there : lookup a (extend d s a).visited ≡ some (suc d) =
      lookup-insert_self a (suc d) s.visited in
    record {
      keeps = λ v e h. elim (Bool-cases (str_eq a v)) [
        | inl same ↦
            absurd (
              none-ne-some e (sym fresh ∙ ap (λ k. lookup k s.visited) (eq_of_str_eq a v same) ∙ h))
        | inr other ↦ lookup-insert_ne a v (suc d) s.visited other ∙ h
      ];
      queue_keeps = λ v h. ground (arith, mem-append v s.queue (a ∷ []), h);
      covers = λ v h. (
        suc d,
        subst (λ k. lookup k (extend d s a).visited ≡ some (suc d)) (only_self v a h) there,
      );
      only_new = λ v e h. elim (Bool-cases (str_eq a v)) [
        | inl same ↦
            let is_v = eq_of_str_eq a v same in
            let at_v = ap (λ k. lookup k (extend d s a).visited) (sym is_v) in
            inr (
              some-injective e (suc d) (sym h ∙ at_v ∙ there),
              ground (arith, same),
              ground (arith, mem-append v s.queue (a ∷ []), same),
            )
        | inr other ↦ inl (sym (lookup-insert_ne a v (suc d) s.visited other) ∙ h)
      ];
    }

offer-Grows : (d : ℕ) (s : Search) (a : String) → Grows d s (offer d s a) (a ∷ [])
offer-Grows d s a = elim (Option-cases (lookup a s.visited)) [
  | inr (e, seen) ↦
      subst (λ t. Grows d s t (a ∷ [])) (sym (offer-seen d s a seen)) (seen-Grows d s a seen)
  | inl fresh ↦
      subst (λ t. Grows d s t (a ∷ [])) (sym (offer-fresh d s a fresh)) (extend-Grows d s a fresh)
]

pub offer_all-Grows :
    (d : ℕ) (s : Search) (offered : List String) → Grows d s (offer_all d s offered) offered
unfolding offer_all
offer_all-Grows d s [] = record {
  keeps = λ v e h. h;
  queue_keeps = λ v h. h;
  covers = λ v h. cc;
  only_new = λ v e h. inl h;
}
offer_all-Grows d s (a ∷ rest) =
    let one = offer-Grows d s a in
    let more = offer_all-Grows d (offer d s a) rest in
    record {
      keeps = λ v e h. more.keeps v e (one.keeps v e h);
      queue_keeps = λ v h. more.queue_keeps v (one.queue_keeps v h);
      covers = λ v h. elim (mem-cases v a rest h) [
        | inl same ↦
            let (e, at) = one.covers v (ground (arith, same, str_eq_refl v)) in
            (e, more.keeps v e at)
        | inr later ↦ more.covers v later
      ];
      only_new = λ v e h. elim (more.only_new v e h) [
        | inr (depth, among, queued) ↦ inr (depth, ground (arith, among), queued)
        | inl old ↦ elim (one.only_new v e old) [
          | inl older ↦ inl older
          | inr (depth, among, queued) ↦
              inr (depth, ground (arith, among), more.queue_keeps v queued)
        ]
      ];
    }
