-- ===== src/Position/Netting.antt =====
-- The netted map of nexus/internal/execution/position.go holds, over all symbols, what the strategies
-- hold together.
use mmh.Prelude.{
  ◌≡◌, refl, ap, sym, ◌∙◌, Option, none, some, String, List, [], ◌∷◌, Map, lookup, insert, str_eq,
  if◌then◌else◌, Bool-cases, inl, inr,
}
use mmh.Numbers.{Numbers}
use mmh.Numbers.Laws.{IsGroup}
use mmh.Position.{
  Position, Fill, PositionManager, position_key, global_key, apply_fill_to_position, signed_qty_of,
  flat, found_or, apply_at, apply_fill, apply_fills, new_position_manager,
}
use mmh.Position.Effect.{apply_fill_to_position_effect}

module _ ⦃N : Numbers⦄ where
  abbrev pub sum_qty : Map Position → N.Decimal
  sum_qty [] = N.zero
  sum_qty (e ∷ m) = N.add (e.1).qty (sum_qty m)

  abbrev qty_or_zero : Option Position → N.Decimal
  qty_or_zero none = N.zero
  qty_or_zero (some p) = p.qty

  found_or-qty :
      (fresh : Position) (o : Option Position)
      → fresh.qty ≡ N.zero
      → (found_or fresh o).qty ≡ qty_or_zero o
  found_or-qty fresh none z = z
  found_or-qty fresh (some p) z = refl

  lookup-cons :
      (k j : String) (w : Position) (m : Map Position)
      → lookup k ((j, w) ∷ m) ≡ (if str_eq j k then some w else lookup k m)
  unfolding lookup
  lookup-cons k j w m = refl

  module _ (laws : IsGroup) where
    open laws use {add_assoc, add_comm, zero-add}

    add_left_comm : (a b c : N.Decimal) → N.add a (N.add b c) ≡ N.add b (N.add a c)
    add_left_comm a b c =
        sym (add_assoc a b c) ∙ ap (λ x. N.add x c) (add_comm a b) ∙ add_assoc b a c

    sum_qty-insert :
        (k : String) (d : N.Decimal) (p : Position) (m : Map Position)
        → p.qty ≡ N.add (qty_or_zero (lookup k m)) d
        → sum_qty (insert k p m) ≡ N.add d (sum_qty m)
    unfolding insert
    sum_qty-insert k d p [] h = ap (λ x. N.add x N.zero) (h ∙ unfold lookup in zero-add d)
    sum_qty-insert k d p ((j, w) ∷ m) h =
        let at_head = λ (o : Option Position). N.add (qty_or_zero o) d in
        elim (Bool-cases (str_eq j k)) [
          | inl e ↦
              let found : lookup k ((j, w) ∷ m) ≡ some w = lookup-cons k j w m ∙ (rw e) in
              rw e (
                ap (λ x. N.add x (sum_qty m)) (h ∙ ap at_head found ∙ add_comm w.qty d)
                ∙ add_assoc d w.qty (sum_qty m))
          | inr e ↦
              let found : lookup k ((j, w) ∷ m) ≡ lookup k m = lookup-cons k j w m ∙ (rw e) in
              rw e (
                ap (N.add w.qty) (sum_qty-insert k d p m (h ∙ ap at_head found))
                ∙ add_left_comm w.qty d (sum_qty m))
        ]

    sum_qty-apply_at :
        (key : String) (fresh : Position) (f : Fill) (m : Map Position)
        → fresh.qty ≡ N.zero
        → sum_qty (apply_at key fresh f m) ≡ N.add (signed_qty_of f) (sum_qty m)
    unfolding apply_at
    sum_qty-apply_at key fresh f m z =
        let old = found_or fresh (lookup key m) in
        let signed = signed_qty_of f in
        sum_qty-insert key signed (apply_fill_to_position old f.price signed f.fee f.timestamp) m (
          (apply_fill_to_position_effect old f.price signed f.fee f.timestamp).0
          ∙ ap (λ x. N.add x signed) (found_or-qty fresh (lookup key m) z))

    sum_qty-apply_fills :
        (pm : PositionManager) (fs : List Fill)
        → sum_qty pm.positions ≡ sum_qty pm.global_pos
        → sum_qty (apply_fills pm fs).positions ≡ sum_qty (apply_fills pm fs).global_pos
    unfolding apply_fills apply_fill flat
    sum_qty-apply_fills pm [] h = h
    sum_qty-apply_fills pm (f ∷ fs) h = sum_qty-apply_fills (apply_fill f pm) fs (
        sum_qty-apply_at (position_key f.strategy_id f.exchange f.symbol)
          (flat f.strategy_id f.exchange f.symbol) f pm.positions refl
        ∙ ap (N.add (signed_qty_of f)) h
        ∙ sym (
            sum_qty-apply_at (global_key f.exchange f.symbol) (flat "_global" f.exchange f.symbol) f
              pm.global_pos refl))

    -- Where addition is that of a commutative group, after any fills from the start the quantities
    -- of all strategy positions add up to those of all netted positions.
    pub netted :
        (fs : List Fill)
        → let pm = apply_fills new_position_manager fs in
          sum_qty pm.positions ≡ sum_qty pm.global_pos
    unfolding new_position_manager
    netted fs = sum_qty-apply_fills new_position_manager fs refl
