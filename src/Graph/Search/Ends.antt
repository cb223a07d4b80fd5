-- ===== src/Graph/Search/Ends.antt =====
-- The search of nexus/internal/graph/engine.go ends: an address joins the queue only when it is first visited.
use mmh.Prelude.{
  ◌≡◌, refl, ap, ◌∙◌, inl, inr, ℕ, suc, zero, ◌+◌, ◌≤◌, ◌<◌, String, true, false, some, List, [],
  ◌∷◌, arith, length, length-append, Map, insert, has_key, has_key-insert, List-cases, mem, str_eq,
  str_eq_refl, eq_of_str_eq, Bool-cases, if◌then◌else◌,
}
use mmh.Graph.Search.{Search, offer, offer_all, depth_of, expand, search}

-- Those of some addresses that have not been visited.
abbrev pub unseen {ℓ} : {V : Type ℓ} → List String → Map V → ℕ
unseen [] m = 0
unseen (u ∷ us) m = let n = unseen us m in if has_key u m then n else suc n

pub unseen-le {ℓ} : {V : Type ℓ} (us : List String) (m : Map V) → unseen us m ≤ length us
unseen-le [] m = omega arith
unseen-le (u ∷ us) m = ground (arith, unseen-le us m)

unseen-insert_le {ℓ} :
    {V : Type ℓ} (us : List String) (a : String) (d : V) (m : Map V)
    → unseen us (insert a d m) ≤ unseen us m
unseen-insert_le [] a d m = omega arith
unseen-insert_le (u ∷ us) a d m = ground (arith, unseen-insert_le us a d m, has_key-insert a u d m)

pub unseen-insert {ℓ} :
    {V : Type ℓ} (us : List String) (a : String) (d : V) (m : Map V)
    → mem a us ≡ true
    → has_key a m ≡ false
    → unseen us (insert a d m) < unseen us m
unseen-insert [] a d m among fresh = cc
unseen-insert (u ∷ us) a d m among fresh = elim (Bool-cases (str_eq u a)) [
  | inl same ↦
      let is_a = eq_of_str_eq u a same in
      let old : has_key u m ≡ false = ap (λ k. has_key k m) is_a ∙ fresh in
      let now : has_key u (insert a d m) ≡ true =
        ground (arith, has_key-insert a u d m, str_eq_refl a, ap (str_eq a) is_a) in
      ground (arith, old, now, unseen-insert_le us a d m)
  | inr other ↦
      ground
        (arith, unseen-insert us a d m (ground (arith, among, other)) fresh, has_key-insert a u d m)
]

module _ (us : List String) where
  abbrev pub work : Search → ℕ
  work s = unseen us s.visited + length s.queue

  offer-work :
      (depth : ℕ) (s : Search) (a : String) → mem a us ≡ true → work (offer depth s a) ≤ work s
  unfolding offer
  offer-work depth s a among = elim (Bool-cases (has_key a s.visited)) [
    | inl seen ↦ ground (arith, seen)
    | inr fresh ↦ ground (
      arith,
      fresh,
      unseen-insert us a (suc depth) s.visited among fresh,
      length-append s.queue (a ∷ []),
    )
  ]

  offer_all-work :
      (depth : ℕ) (s : Search) (as' : List String)
      → ((a : String) → mem a as' ≡ true → mem a us ≡ true)
      → work (offer_all depth s as') ≤ work s
  unfolding offer_all
  offer_all-work depth s [] among = omega arith
  offer_all-work depth s (a ∷ rest) among =
      let here = among a (ground (arith, str_eq_refl a)) in
      let later =
        offer_all-work depth (offer depth s a) rest (λ b h. among b (ground (arith, h))) in
      omega (arith, offer-work depth s a here, later)

  module _ (next : String → List String) (limit : ℕ)
      (inside : (a b : String) → mem b (next a) ≡ true → mem b us ≡ true) where
    expand-work :
        (s : Search) (a : String) (rest : List String)
        → work (expand next limit s a rest) ≤ unseen us s.visited + length rest
    unfolding expand
    expand-work s a rest =
        ground
          (arith, offer_all-work (depth_of s a) (record s { queue = rest }) (next a) (inside a))

    pub search_ends :
        (fuel : ℕ) (s : Search) → work s ≤ fuel → (t : Search) × (search next limit fuel s ≡ some t)
    unfolding search
    search_ends zero s h = (s, ground (arith, List-cases s.queue))
    search_ends (suc fuel) s h = elim (List-cases s.queue) [
      | inl empty ↦ (s, rw empty refl)
      | inr (a, rest, e) ↦
          let (t, ends) =
            search_ends fuel (expand next limit s a rest)
              (omega (arith, expand-work s a rest, ap length e)) in
          (t, ground (arith, e, ends))
    ]
