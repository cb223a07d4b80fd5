-- ===== src/Prelude/Lists.antt =====
-- Lists measured and indexed by native numbers, and Go's maps with string keys as association lists.
use Prim.Native.Nat.{ℕ, zero, suc, ◌+◌}
use Prim.Native.String.{String}
use mathlib.Core.Path.{◌≡◌, refl, subst, ap}
use mathlib.Core.Logic.{◌⊎◌, inl, inr}
use mathlib.Core.Bool.{false}
use mathlib.Core.List.{List, [], ◌∷◌, ◌++◌}
use mathlib.Core.Option.{Option, none, some, some-injective}
use native.Mathlib.Omega.{arith}
use mmh.Prelude.Tests.{if◌then◌else◌, str_eq, str_eq_iff, Bool-cases}

module _ {ℓ} {A : Type ℓ} where
  abbrev pub length : List A → ℕ
  length [] = 0
  length (x ∷ xs) = suc (length xs)

  pub length-append : (xs ys : List A) → length (xs ++ ys) ≡ length xs + length ys
  length-append [] ys = omega arith
  length-append (x ∷ xs) ys = omega (arith, length-append xs ys)

  pub List-cases : (xs : List A) → (xs ≡ []) ⊎ ((x : A) × (rest : List A) × (xs ≡ x ∷ rest))
  List-cases [] = inl refl
  List-cases (x ∷ xs) = inr (x, xs, refl)

  -- A predicate of every element.
  abbrev pub All {κ} : (A → Type κ) → List A → Type κ
  All P [] = Unit
  All P (x ∷ xs) = P x × All P xs

module _ {ℓ} {A : Type ℓ} where
  abbrev pub get_elem? : List A → ℕ → Option A
  get_elem? [] i = none
  get_elem? (x ∷ xs) zero = some x
  get_elem? (x ∷ xs) (suc i) = get_elem? xs i

  abbrev pub replicate : ℕ → A → List A
  replicate zero a = []
  replicate (suc n) a = a ∷ replicate n a

  pub length-replicate : (n : ℕ) (a : A) → length (replicate n a) ≡ n
  length-replicate zero a = refl
  length-replicate (suc n) a = ap suc (length-replicate n a)

-- A map[string]V: the entry of a key stands once.
abbrev pub Map {ℓ} : Type ℓ → Type ℓ
Map V = List (String × V)

module _ {ℓ} {V : Type ℓ} where
  -- `v, ok := m[k]`
  unfoldable pub lookup : String → Map V → Option V
  lookup k [] = none
  lookup k ((j, v) ∷ m) = if str_eq j k then some v else lookup k m

  -- `m[k] = v`
  unfoldable pub insert : String → V → Map V → Map V
  insert k v [] = (k, v) ∷ []
  insert k v ((j, w) ∷ m) = if str_eq j k then (k, v) ∷ m else (j, w) ∷ insert k v m

  -- A read after a write: the value written at its key, and any other key as before.
  pub lookup-insert :
      (k j : String) (v : V) (m : Map V)
      → lookup j (insert k v m) ≡ (if str_eq k j then some v else lookup j m)
  unfolding lookup insert
  lookup-insert k j v [] = refl
  lookup-insert k j v ((i, w) ∷ m) =
      ground (arith, str_eq_iff k j, str_eq_iff i k, str_eq_iff i j, lookup-insert k j v m)

  pub lookup-insert_self : (k : String) (v : V) (m : Map V) → lookup k (insert k v m) ≡ some v
  lookup-insert_self k v m = rw (lookup-insert k k v m, (str_eq_iff k k).1 refl)

  pub lookup-insert_ne :
      (k j : String) (v : V) (m : Map V) → str_eq k j ≡ false → lookup j (insert k v m) ≡ lookup j m
  lookup-insert_ne k j v m h = rw (lookup-insert k j v m, h)

  -- Every value that a map holds satisfies a predicate.
  abbrev pub Holds {κ} : (V → Type κ) → Map V → Type κ
  Holds P [] = Unit
  Holds P (e ∷ m) = P (e.1) × Holds P m

  pub Holds-insert {κ} :
      (P : V → Type κ) (k : String) (v : V) (m : Map V) → P v → Holds P m → Holds P (insert k v m)
  unfolding insert
  Holds-insert P k v [] p h = (p, tt)
  Holds-insert P k v ((j, w) ∷ m) p h = elim (Bool-cases (str_eq j k)) [
    | inl e ↦ rw e (p, h.1)
    | inr e ↦ rw e (h.0, Holds-insert P k v m p h.1)
  ]

  pub Holds-lookup {κ} :
      (P : V → Type κ) (k : String) (m : Map V) {v : V} → Holds P m → lookup k m ≡ some v → P v
  unfolding lookup
  Holds-lookup P k [] h e = cc
  Holds-lookup P k ((j, w) ∷ m) h e = elim (Bool-cases (str_eq j k)) [
    | inl t ↦ subst P (some-injective w _ (rw t at e)) h.0
    | inr t ↦ Holds-lookup P k m h.1 (rw t at e)
  ]

  -- To write what a key holds already changes nothing.
  pub insert_same : (k : String) (v : V) (m : Map V) → lookup k m ≡ some v → insert k v m ≡ m
  unfolding lookup insert
  insert_same k v [] h = cc
  insert_same k v ((j, w) ∷ m) h = elim (Bool-cases (str_eq j k)) [
    | inl t ↦ ground (arith, t, h, str_eq_iff j k)
    | inr t ↦ ground (arith, t, h, insert_same k v m (rw t at h))
  ]
