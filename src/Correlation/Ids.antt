-- ===== src/Correlation/Ids.antt =====
-- Maps with numbers for keys in nexus/internal/correlation/crosstoken.go: `lookup_id`, `insert_id` and `delete_id`.
use mathlib.Core.Option.{some-injective}
use mmh.Prelude.{
  ◌≡◌, refl, subst, inl, inr, ℕ, suc, ◌≤◌, some, [], ◌∷◌, ◌==◌, arith, length, All, Bool-cases,
}
use mmh.Correlation.{IdMap, lookup_id, insert_id, delete_id}

module _ {V : Type 0} where
  pub length-delete_id : (k : ℕ) (m : IdMap V) → length (delete_id k m) ≤ length m
  unfolding delete_id
  length-delete_id k [] = omega arith
  length-delete_id k ((j, v) ∷ m) = ground (arith, length-delete_id k m)

  -- To delete the key of an entry makes the map shorter.
  pub length-delete_id_found :
      (k : ℕ) (m : IdMap V) (v : V)
      → lookup_id k m ≡ some v
      → suc (length (delete_id k m)) ≤ length m
  unfolding delete_id lookup_id
  length-delete_id_found k [] v h = cc
  length-delete_id_found k ((j, w) ∷ m) v h = elim (Bool-cases (j == k)) [
    | inl same ↦ ground (arith, same, length-delete_id k m)
    | inr other ↦ ground (arith, other, length-delete_id_found k m v (rw other at h))
  ]

  pub length-insert_id_le :
      (k : ℕ) (v : V) (m : IdMap V) → length (insert_id k v m) ≤ suc (length m)
  unfolding insert_id
  length-insert_id_le k v [] = omega arith
  length-insert_id_le k v ((j, w) ∷ m) = ground (arith, length-insert_id_le k v m)

  pub length-insert_id_found :
      (k : ℕ) (v w : V) (m : IdMap V) → lookup_id k m ≡ some w → length (insert_id k v m) ≡ length m
  unfolding insert_id lookup_id
  length-insert_id_found k v w [] h = cc
  length-insert_id_found k v w ((j, u) ∷ m) h = elim (Bool-cases (j == k)) [
    | inl same ↦ ground (arith, same)
    | inr other ↦ ground (arith, other, length-insert_id_found k v w m (rw other at h))
  ]

  pub insert_id-All {κ} :
      (P : V → Type κ) (k : ℕ) (v : V) (m : IdMap V)
      → P v
      → All (λ entry. P (entry.1)) m
      → All (λ entry. P (entry.1)) (insert_id k v m)
  unfolding insert_id
  insert_id-All P k v [] p h = (p, tt)
  insert_id-All P k v ((j, w) ∷ m) p h = elim (Bool-cases (j == k)) [
    | inl same ↦ rw same (p, h.1)
    | inr other ↦ rw other (h.0, insert_id-All P k v m p h.1)
  ]

  pub delete_id-All {κ} :
      (P : V → Type κ) (k : ℕ) (m : IdMap V)
      → All (λ entry. P (entry.1)) m
      → All (λ entry. P (entry.1)) (delete_id k m)
  unfolding delete_id
  delete_id-All P k [] h = tt
  delete_id-All P k ((j, w) ∷ m) h = elim (Bool-cases (j == k)) [
    | inl same ↦ rw same (delete_id-All P k m h.1)
    | inr other ↦ rw other (h.0, delete_id-All P k m h.1)
  ]

  pub lookup_id-All {κ} :
      (P : V → Type κ) (k : ℕ) (m : IdMap V) (v : V)
      → All (λ entry. P (entry.1)) m
      → lookup_id k m ≡ some v
      → P v
  unfolding lookup_id
  lookup_id-All P k [] v h e = cc
  lookup_id-All P k ((j, w) ∷ m) v h e = elim (Bool-cases (j == k)) [
    | inl same ↦ subst P (some-injective w v (rw same at e)) h.0
    | inr other ↦ lookup_id-All P k m v h.1 (rw other at e)
  ]

  pub lookup_id_further :
      (k : ℕ) (e : ℕ × V) (m : IdMap V) (v : V)
      → lookup_id k m ≡ some v
      → (w : V) × (lookup_id k (e ∷ m) ≡ some w)
  unfolding lookup_id
  lookup_id_further k (j, u) m v h = elim (Bool-cases (j == k)) [
    | inl same ↦ (u, rw same refl)
    | inr other ↦ (v, rw other h)
  ]

  pub lookup_id_head : (k : ℕ) (v : V) (m : IdMap V) → lookup_id k ((k, v) ∷ m) ≡ some v
  unfolding lookup_id
  lookup_id_head k v m = ground arith

  pub lookup_id-insert_id : (k : ℕ) (v : V) (m : IdMap V) → lookup_id k (insert_id k v m) ≡ some v
  unfolding lookup_id insert_id
  lookup_id-insert_id k v [] = ground arith
  lookup_id-insert_id k v ((j, w) ∷ m) = ground (arith, lookup_id-insert_id k v m)
