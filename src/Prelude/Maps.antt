-- ===== src/Prelude/Maps.antt =====
-- Go's maps as association lists: `delete`, and tests of strings.
use Prim.Native.Nat.{suc, ◌≤◌}
use Prim.Native.String.{String}
use mathlib.Core.Path.{◌≡◌, refl, ap, sym, ◌∙◌}
use mathlib.Core.Logic.{inl, inr}
use mathlib.Core.Bool.{Bool, true, false}
use mathlib.Core.Logic.{◌⊎◌}
use mathlib.Core.Bool.{◌||◌}
use mathlib.Core.List.{List, [], ◌∷◌, ◌++◌}
use mathlib.Core.Option.{none, some}
use native.Mathlib.Omega.{arith}
use mmh.Prelude.Tests.{if◌then◌else◌, str_eq, str_eq_iff, Bool-cases}
use mmh.Prelude.Lists.{Map, lookup, insert, lookup-insert, length, Holds}

-- `==` of a string with itself, and with another.
pub str_eq_refl : (s : String) → str_eq s s ≡ true
str_eq_refl s = (str_eq_iff s s).1 refl

pub eq_of_str_eq : (s t : String) → str_eq s t ≡ true → s ≡ t
eq_of_str_eq s t = (str_eq_iff s t).0

-- The test for a string in a list, or in a map[string]struct{}.
abbrev pub mem : String → List String → Bool
mem s [] = false
mem s (x ∷ xs) = if str_eq x s then true else mem s xs

pub mem-append : (s : String) (xs ys : List String) → mem s (xs ++ ys) ≡ (mem s xs || mem s ys)
mem-append s [] ys = refl
mem-append s (x ∷ xs) ys = ground (arith, mem-append s xs ys)

-- A member is at the head or in the rest.
pub mem-cases :
    (s x : String) (xs : List String) → mem s (x ∷ xs) ≡ true → (x ≡ s) ⊎ (mem s xs ≡ true)
mem-cases s x xs h = elim (Bool-cases (str_eq x s)) [
  | inl e ↦ inl (eq_of_str_eq x s e)
  | inr e ↦ inr (ground (arith, h, e))
]

module _ {ℓ} {V : Type ℓ} where
  -- `_, ok := m[k]`
  abbrev pub has_key : String → Map V → Bool
  has_key k m = elim (lookup k m) [ none ↦ false | some v ↦ true ]

  -- `delete(m, k)`
  unfoldable pub delete : String → Map V → Map V
  delete k [] = []
  delete k ((j, v) ∷ m) = let rest = delete k m in if str_eq j k then rest else (j, v) ∷ rest

  pub lookup-delete :
      (k j : String) (m : Map V) → lookup j (delete k m) ≡ (if str_eq k j then none else lookup j m)
  unfolding lookup delete
  lookup-delete k j [] = ground arith
  lookup-delete k j ((i, w) ∷ m) =
      ground (arith, str_eq_iff k j, str_eq_iff i k, str_eq_iff i j, lookup-delete k j m)

  pub length-delete : (k : String) (m : Map V) → length (delete k m) ≤ length m
  unfolding delete
  length-delete k [] = omega arith
  length-delete k ((j, v) ∷ m) = ground (arith, length-delete k m)

  -- To write at a new key makes the map longer by one, at an old key not at all.
  pub length-insert :
      (k : String) (v : V) (m : Map V)
      → length (insert k v m) ≡ (if has_key k m then length m else suc (length m))
  unfolding lookup insert
  length-insert k v [] = refl
  length-insert k v ((j, w) ∷ m) = ground (arith, length-insert k v m)

  pub has_key-insert :
      (k j : String) (v : V) (m : Map V) → has_key j (insert k v m) ≡ (str_eq k j || has_key j m)
  has_key-insert k j v m = ground (arith, lookup-insert k j v m)

  -- Every key stands once.
  abbrev pub HasUniqueKeys : Map V → Type 0
  HasUniqueKeys [] = Unit
  HasUniqueKeys (entry ∷ m) = (has_key entry.0 m ≡ false) × HasUniqueKeys m

  pub insert-HasUniqueKeys :
      (k : String) (v : V) (m : Map V) → HasUniqueKeys m → HasUniqueKeys (insert k v m)
  unfolding insert lookup
  insert-HasUniqueKeys k v [] h = (refl, tt)
  insert-HasUniqueKeys k v ((j, w) ∷ m) (fresh, h) = elim (Bool-cases (str_eq j k)) [
    | inl same ↦ rw same (ap (λ x. has_key x m) (sym (eq_of_str_eq j k same)) ∙ fresh, h)
    | inr other ↦ rw other (
      has_key-insert k j v m ∙ ground (arith, fresh, other, str_eq_iff k j, str_eq_iff j k),
      insert-HasUniqueKeys k v m h,
    )
  ]

  pub Holds-delete {κ} :
      (P : V → Type κ) (k : String) (m : Map V) → Holds P m → Holds P (delete k m)
  unfolding delete
  Holds-delete P k [] h = tt
  Holds-delete P k ((j, v) ∷ m) h = elim (Bool-cases (str_eq j k)) [
    | inl same ↦ rw same (Holds-delete P k m h.1)
    | inr other ↦ rw other (h.0, Holds-delete P k m h.1)
  ]
