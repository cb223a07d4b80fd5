-- ===== src/Exits/Hits.antt =====
-- The marks of nexus/internal/sniper/exits.go: what `ApplyDecision` marks as hit.
use mmh.Prelude.{
  ◌≡◌, refl, ap, ◌∙◌, ℕ, suc, zero, ◌+◌, ◌≤◌, ◌<◌, Bool, true, false, some, List, [], ◌∷◌, arith,
  length, get_elem?, Bool-cases, inl, inr, if◌then◌else◌,
}
use native.Mathlib.Nat.{add-zero, add-suc, suc-add}
use mathlib.Core.Option.{some-injective}
use mmh.Exits.{Reason, same_reason, mark_at, mark_all}

-- How many marks are not set.
abbrev pub unhit : List Bool → ℕ
unhit [] = 0
unhit (true ∷ hs) = unhit hs
unhit (false ∷ hs) = suc (unhit hs)

-- A mark set where there is one.
abbrev pub set_hit : ℕ → List Bool → List Bool
set_hit i [] = []
set_hit zero (h ∷ hs) = true ∷ hs
set_hit (suc i) (h ∷ hs) = h ∷ set_hit i hs

length-set_hit : (i : ℕ) (hits : List Bool) → length (set_hit i hits) ≡ length hits
length-set_hit i [] = refl
length-set_hit zero (h ∷ hs) = refl
length-set_hit (suc i) (h ∷ hs) = ap suc (length-set_hit i hs)

mark_at-set_hit :
    (i : ℕ) (hits : List Bool) → i < length hits → mark_at i hits ≡ some (set_hit i hits)
unfolding mark_at
mark_at-set_hit i [] h = absurd (omega arith)
mark_at-set_hit zero (x ∷ hs) h = refl
mark_at-set_hit (suc i) (x ∷ hs) h = rw (mark_at-set_hit i hs (omega arith))

get_elem?-set_hit :
    (i j : ℕ) (hits : List Bool)
    → get_elem? hits j ≡ some true
    → get_elem? (set_hit i hits) j ≡ some true
get_elem?-set_hit i j [] h = h
get_elem?-set_hit zero zero (x ∷ hs) h = refl
get_elem?-set_hit zero (suc j) (x ∷ hs) h = h
get_elem?-set_hit (suc i) zero (x ∷ hs) h = h
get_elem?-set_hit (suc i) (suc j) (x ∷ hs) h = get_elem?-set_hit i j hs h

get_elem?-set_hit_self :
    (i : ℕ) (hits : List Bool) → i < length hits → get_elem? (set_hit i hits) i ≡ some true
get_elem?-set_hit_self i [] h = absurd (omega arith)
get_elem?-set_hit_self zero (x ∷ hs) h = refl
get_elem?-set_hit_self (suc i) (x ∷ hs) h = get_elem?-set_hit_self i hs (omega arith)

unhit-set_hit : (i : ℕ) (hits : List Bool) → unhit (set_hit i hits) ≤ unhit hits
unhit-set_hit i [] = omega arith
unhit-set_hit zero (true ∷ hs) = omega arith
unhit-set_hit zero (false ∷ hs) = omega arith
unhit-set_hit (suc i) (true ∷ hs) = unhit-set_hit i hs
unhit-set_hit (suc i) (false ∷ hs) = omega (arith, unhit-set_hit i hs)

pub unhit_le :
    (hits hits' : List Bool)
    → length hits' ≡ length hits
    → ((k : ℕ) → get_elem? hits k ≡ some true → get_elem? hits' k ≡ some true)
    → unhit hits' ≤ unhit hits
unhit_le [] [] l keep = omega arith
unhit_le [] (x' ∷ hs') l keep = absurd (omega arith)
unhit_le (x ∷ hs) [] l keep = absurd (omega arith)
unhit_le (x ∷ hs) (x' ∷ hs') l keep =
    ground (arith, unhit_le hs hs' (omega arith) (λ k. keep (suc k)), keep 0)

-- A list in which an unset mark has been set has fewer of them.
pub unhit_lt :
    (j : ℕ) (hits hits' : List Bool)
    → length hits' ≡ length hits
    → ((k : ℕ) → get_elem? hits k ≡ some true → get_elem? hits' k ≡ some true)
    → get_elem? hits j ≡ some false
    → get_elem? hits' j ≡ some true
    → unhit hits' < unhit hits
unhit_lt j [] hits' l keep f t = cc
unhit_lt j (x ∷ hs) [] l keep f t = cc
unhit_lt zero (x ∷ hs) (x' ∷ hs') l keep f t =
    ground (arith, unhit_le hs hs' (omega arith) (λ k. keep (suc k)))
unhit_lt (suc j) (x ∷ hs) (x' ∷ hs') l keep f t =
    ground (arith, unhit_lt j hs hs' (omega arith) (λ k. keep (suc k)) f t, keep 0)

-- What the loop of `ApplyDecision` makes of the marks.
abbrev pub hit_all : Reason → ℕ → List Reason → List Bool → List Bool
hit_all r i [] hits = hits
hit_all r i (s ∷ rest) hits =
    hit_all r (suc i) rest (if same_reason r s then set_hit i hits else hits)

length-if :
    (b : Bool) (i : ℕ) (hits : List Bool)
    → length (if b then set_hit i hits else hits) ≡ length hits
length-if true i hits = length-set_hit i hits
length-if false i hits = refl

pub length-hit_all :
    (r : Reason) (i : ℕ) (rs : List Reason) (hits : List Bool)
    → length (hit_all r i rs hits) ≡ length hits
length-hit_all r i [] hits = refl
length-hit_all r i (s ∷ rs) hits =
    length-hit_all r (suc i) rs (if same_reason r s then set_hit i hits else hits)
    ∙ length-if (same_reason r s) i hits

pub mark_all-hit_all :
    (r : Reason) (i : ℕ) (rs : List Reason) (hits : List Bool)
    → i + length rs ≤ length hits
    → mark_all r i rs hits ≡ some (hit_all r i rs hits)
unfolding mark_all
mark_all-hit_all r i [] hits h = refl
mark_all-hit_all r i (s ∷ rs) hits h = elim (Bool-cases (same_reason r s)) [
  | inl e ↦ ground (
    arith,
    e,
    mark_at-set_hit i hits (omega arith),
    mark_all-hit_all r (suc i) rs (set_hit i hits) (omega (arith, length-set_hit i hits)),
  )
  | inr e ↦ ground (arith, e, mark_all-hit_all r (suc i) rs hits (omega arith))
]

keep-if :
    (b : Bool) (i j : ℕ) (hits : List Bool)
    → get_elem? hits j ≡ some true
    → get_elem? (if b then set_hit i hits else hits) j ≡ some true
keep-if true i j hits h = get_elem?-set_hit i j hits h
keep-if false i j hits h = h

-- A mark that is set stays set.
pub get_elem?-hit_all_keep :
    (r : Reason) (i : ℕ) (rs : List Reason) (hits : List Bool) (j : ℕ)
    → get_elem? hits j ≡ some true
    → get_elem? (hit_all r i rs hits) j ≡ some true
get_elem?-hit_all_keep r i [] hits j h = h
get_elem?-hit_all_keep r i (s ∷ rs) hits j h =
    get_elem?-hit_all_keep r (suc i) rs (if same_reason r s then set_hit i hits else hits) j
      (keep-if (same_reason r s) i j hits h)

-- The mark of every reason that is the decision's is set.
pub get_elem?-hit_all :
    (r : Reason) (i : ℕ) (rs : List Reason) (hits : List Bool) (k : ℕ) {s : Reason}
    → get_elem? rs k ≡ some s
    → same_reason r s ≡ true
    → i + k < length hits
    → get_elem? (hit_all r i rs hits) (i + k) ≡ some true
get_elem?-hit_all r i [] hits k e t l = cc
get_elem?-hit_all r i (x ∷ rs) hits zero {s} e t l =
    let same : same_reason r x ≡ true = ap (same_reason r) (some-injective x s e) ∙ t in
    let now : get_elem? (if same_reason r x then set_hit i hits else hits) i ≡ some true =
      rw same (get_elem?-set_hit_self i hits (omega arith)) in
    rw add-zero
      (get_elem?-hit_all_keep r (suc i) rs (if same_reason r x then set_hit i hits else hits) i now)
get_elem?-hit_all r i (x ∷ rs) hits (suc k) e t l =
    rw (add-suc, ← suc-add)
      (get_elem?-hit_all r (suc i) rs (if same_reason r x then set_hit i hits else hits) k e t
        (omega (arith, length-if (same_reason r x) i hits)))
