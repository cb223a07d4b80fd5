-- ===== src/Graph/Search/Levels.antt =====
-- The queue of the search of nexus/internal/graph/engine.go holds addresses of two depths.
use mathlib.Core.Option.{none-ne-some}
use mmh.Prelude.{
  ◌≡◌, ap, sym, subst, ◌∙◌, inl, inr, ◌⊎◌, ℕ, suc, String, none, some, List, [], ◌∷◌, ◌++◌, All,
  Map, lookup, insert, lookup-insert_self, lookup-insert_ne, Bool-cases, Option-cases, str_eq,
  eq_of_str_eq,
}
use mmh.Graph.Search.{Search, offer, offer_all}
use mmh.Graph.Search.Walk.{offer-seen, offer-fresh}

abbrev pub At : Map ℕ → ℕ → String → Type 0
At m d a = lookup a m ≡ some d

-- A queue of addresses at one depth and then of addresses at the next.
abbrev pub Levels : Map ℕ → ℕ → List String → Type 0
Levels m d [] = Unit
Levels m d (a ∷ rest) = (At m d a × Levels m d rest) ⊎ All (At m (suc d)) (a ∷ rest)

Keeps : Map ℕ → Map ℕ → Type 0
Keeps m m' = (v : String) (e : ℕ) → lookup v m ≡ some e → lookup v m' ≡ some e

All-Keeps : (m m' : Map ℕ) (d : ℕ) (q : List String) → Keeps m m' → All (At m d) q → All (At m' d) q
unfolding Keeps
All-Keeps m m' d [] keeps h = tt
All-Keeps m m' d (a ∷ q) keeps (at, h) = (keeps a d at, All-Keeps m m' d q keeps h)

Levels-Keeps : (m m' : Map ℕ) (d : ℕ) (q : List String) → Keeps m m' → Levels m d q → Levels m' d q
unfolding Keeps
Levels-Keeps m m' d [] keeps h = tt
Levels-Keeps m m' d (a ∷ q) keeps (inl (at, h)) = inl (keeps a d at, Levels-Keeps m m' d q keeps h)
Levels-Keeps m m' d (a ∷ q) keeps (inr h) = inr (All-Keeps m m' (suc d) (a ∷ q) keeps h)

All-append_one :
    (m : Map ℕ) (d : ℕ) (q : List String) (b : String)
    → All (At m d) q
    → At m d b
    → All (At m d) (q ++ (b ∷ []))
All-append_one m d [] b h at = (at, tt)
All-append_one m d (a ∷ q) b (here_at, h) at = (here_at, All-append_one m d q b h at)

Levels-append :
    (m : Map ℕ) (d : ℕ) (q : List String) (b : String)
    → Levels m d q
    → At m (suc d) b
    → Levels m d (q ++ (b ∷ []))
Levels-append m d [] b h at = inr (at, tt)
Levels-append m d (a ∷ q) b (inl (here_at, h)) at = inl (here_at, Levels-append m d q b h at)
Levels-append m d (a ∷ q) b (inr h) at = inr (All-append_one m (suc d) (a ∷ q) b h at)

-- A queue that is all of one depth is a queue of levels from that depth on.
pub All-Levels : (m : Map ℕ) (d : ℕ) (q : List String) → All (At m d) q → Levels m d q
All-Levels m d [] h = tt
All-Levels m d (a ∷ q) (at, h) = inl (at, All-Levels m d q h)

insert-Keeps : (m : Map ℕ) (a : String) (d : ℕ) → lookup a m ≡ none → Keeps m (insert a d m)
unfolding Keeps
insert-Keeps m a d fresh v e h = elim (Bool-cases (str_eq a v)) [
  | inl same ↦
      absurd (none-ne-some e (sym fresh ∙ ap (λ k. lookup k m) (eq_of_str_eq a v same) ∙ h))
  | inr other ↦ lookup-insert_ne a v d m other ∙ h
]

offer-Levels :
    (d : ℕ) (s : Search) (a : String)
    → Levels s.visited d s.queue
    → Levels (offer d s a).visited d (offer d s a).queue
offer-Levels d s a h = elim (Option-cases (lookup a s.visited)) [
  | inr (e, seen) ↦ subst (λ t. Levels t.visited d t.queue) (sym (offer-seen d s a seen)) h
  | inl fresh ↦
      subst (λ t. Levels t.visited d t.queue) (sym (offer-fresh d s a fresh))
        (Levels-append (insert a (suc d) s.visited) d s.queue a
          (Levels-Keeps s.visited (insert a (suc d) s.visited) d s.queue
            (insert-Keeps s.visited a (suc d) fresh) h)
          (lookup-insert_self a (suc d) s.visited))
]

pub offer_all-Levels :
    (d : ℕ) (s : Search) (offered : List String)
    → Levels s.visited d s.queue
    → Levels (offer_all d s offered).visited d (offer_all d s offered).queue
unfolding offer_all
offer_all-Levels d s [] h = h
offer_all-Levels d s (a ∷ rest) h = offer_all-Levels d (offer d s a) rest (offer-Levels d s a h)
