-- ===== src/Execution/Fills.antt =====
-- `HandleFill` of nexus/internal/execution/engine.go.
use mmh.Prelude.{
  ◌≡◌, refl, sym, ap, ◌∙◌, ◌⊎◌, inl, inr, ℕ, true, false, Option, none, some, String, [], ◌∷◌, ◌++◌,
  arith, lookup, insert, insert_same, lookup-insert_self, Option-cases, Bool-cases, if◌then◌else◌,
}
use mmh.Numbers.{Numbers}
use mmh.Numbers.Laws.{IsOrdered}
use mmh.Order
use mmh.Order.{
  OrderIntent, Order, OrderEvent, EventData, filled, partial_filled, cancel_pending, partial_fill,
  fill, fill_data, transition, remaining_qty, invalid_transition,
}
use mmh.Order.Diagram.{transition_error_unchanged}
use mmh.Position.{Fill, apply_fill}
use mmh.Execution.{
  Engine, Error, advance, put, publish, fill_event, unknown_order, transition_failed, handle_fill,
  fill_event_of, fill_record_of,
}

module _ ⦃N : Numbers⦄ where
  -- The order with the fill booked on it.
  abbrev pub booked : ℕ → Fill → Order → Order × Option Order.Error
  booked now f o = transition (fill_event_of f o) (fill_data (fill_record_of f)) now o

  -- The engine once a fill is booked.
  abbrev booked_engine : Fill → Engine → Engine
  booked_engine f e =
      publish (fill_event f.exchange f.intent_id f) (record e { pos_mgr = apply_fill f e.pos_mgr })

  handle_fill_unknown :
      (now : ℕ) (f : Fill) (e : Engine)
      → lookup f.intent_id e.orders ≡ none
      → handle_fill now f e ≡ (e, some (unknown_order f.intent_id))
  unfolding handle_fill
  handle_fill_unknown now f e h = ground arith

  handle_fill_known :
      (now : ℕ) (f : Fill) (e : Engine) (o : Order)
      → lookup f.intent_id e.orders ≡ some o
      → handle_fill now f e
        ≡ advance f.intent_id (booked now f o) (λ e'. (booked_engine f e', none)) e
  unfolding handle_fill
  handle_fill_known now f e o h = ground arith

  put_same :
      (id : String) (o o' : Order) (e : Engine)
      → lookup id e.orders ≡ some o
      → o' ≡ o
      → put id o' e ≡ e
  put_same id o o' e h s =
      ap (λ m. record e { orders = m })
        (ap (λ x. insert id x e.orders) s ∙ insert_same id o e.orders h)

  advance_error_unchanged :
      (id : String) (o : Order) (t : Order × Option Order.Error) (next : Engine → Engine)
      (e : Engine) {err : Error}
      → lookup id e.orders ≡ some o
      → ((x : Order.Error) → t.1 ≡ some x → t.0 ≡ o)
      → (advance id t (λ e'. (next e', none)) e).1 ≡ some err
      → (advance id t (λ e'. (next e', none)) e).0 ≡ e
  advance_error_unchanged id o (o', some x) next e h same r = put_same id o o' e h (same x refl)
  advance_error_unchanged id o (o', none) next e h same r = cc

  -- A fill that is refused, for an unknown order or by its state machine, changes nothing: neither
  -- the order nor a position.
  pub handle_fill_error_unchanged :
      (now : ℕ) (f : Fill) (e : Engine) {err : Error}
      → (handle_fill now f e).1 ≡ some err
      → (handle_fill now f e).0 ≡ e
  handle_fill_error_unchanged now f e {err} h = elim (Option-cases (lookup f.intent_id e.orders)) [
    | inl missing ↦ ap (λ r. r.0) (handle_fill_unknown now f e missing)
    | inr (o, found) ↦
        let known = handle_fill_known now f e o found in
        ap (λ r. r.0) known
        ∙ advance_error_unchanged f.intent_id o (booked now f o) (booked_engine f) e found
            (λ x r.
              transition_error_unchanged (fill_event_of f o) (fill_data (fill_record_of f)) now o r)
            (sym (ap (λ r. r.1) known) ∙ h)
  ]

  booked_effect :
      (now : ℕ) (f : Fill) (o : Order)
      → (booked now f o).1 ≡ none
      → let o' = (booked now f o).0 in
        (o'.filled_qty ≡ N.add o.filled_qty f.qty)
        × (o'.qty ≡ o.qty)
        × (N.greater_than o'.filled_qty o.qty ≡ false)
        × (o'.fills ≡ o.fills ++ (fill_record_of f ∷ []))
        × (o'.state ≡ (
            if N.greater_than_or_equal f.qty (N.sub o.qty o.filled_qty)
            then filled
            else partial_filled))
  unfolding transition fill_event_of fill_record_of
  booked_effect now f o h = ground arith

  handle_fill_ok :
      (now : ℕ) (f : Fill) (e : Engine) (o : Order)
      → lookup f.intent_id e.orders ≡ some o
      → (handle_fill now f e).1 ≡ none
      → ((booked now f o).1 ≡ none)
        × ((handle_fill now f e).0 ≡ booked_engine f (put f.intent_id (booked now f o).0 e))
  handle_fill_ok now f e o found h =
      let known = handle_fill_known now f e o found in
      go (booked now f o) (ap (λ r. r.0) known) (sym (ap (λ r. r.1) known) ∙ h)
    where
      go :
          (t : Order × Option Order.Error)
          → (handle_fill now f e).0 ≡ (advance f.intent_id t (λ e'. (booked_engine f e', none)) e).0
          → (advance f.intent_id t (λ e'. (booked_engine f e', none)) e).1 ≡ none
          → (t.1 ≡ none) × ((handle_fill now f e).0 ≡ booked_engine f (put f.intent_id t.0 e))
      go (o', some x) p q = cc
      go (o', none) p q = (refl, p)

  module _ (laws : IsOrdered) where
    -- Where the comparisons are those of an order that addition keeps: a fill that is accepted is
    -- recorded on the order of its intent and applied to the positions, and nothing is sent to an
    -- exchange. The order's filled quantity grows by the fill. The order is then filled exactly up
    -- to its quantity, or partially filled and below it.
    pub handle_fill_books :
        (now : ℕ) (f : Fill) (e : Engine) (o : Order)
        → lookup f.intent_id e.orders ≡ some o
        → (handle_fill now f e).1 ≡ none
        → let e' = (handle_fill now f e).0 in
          (o' : Order) × (lookup f.intent_id e'.orders ≡ some o')
          × (o'.filled_qty ≡ N.add o.filled_qty f.qty)
          × (o'.fills ≡ o.fills ++ (fill_record_of f ∷ []))
          × (((o'.state ≡ filled) × (o'.filled_qty ≡ o.qty))
              ⊎ ((o'.state ≡ partial_filled) × (N.less_than o'.filled_qty o.qty ≡ true)))
          × (e'.pos_mgr ≡ apply_fill f e.pos_mgr)
          × (e'.calls ≡ e.calls)
    handle_fill_books now f e o found h =
        let (done, e'_eq) = handle_fill_ok now f e o found h in
        let o' = (booked now f o).0 in
        let (sum, same, within, recorded, state) = booked_effect now f o done in
        let split = laws.ge-sub f.qty o.qty o.filled_qty in
        (
          o',
          ap (λ x. lookup f.intent_id (x.orders)) e'_eq
              ∙ lookup-insert_self f.intent_id o' e.orders,
          sum,
          recorded,
          elim (Bool-cases (N.greater_than_or_equal f.qty (N.sub o.qty o.filled_qty))) [
            | inl full ↦ inl (
              rw full at state,
              laws.ge_antisymm o'.filled_qty o.qty (rw sum (sym split ∙ full)) within,
            )
            | inr part ↦ inr (
              rw part at state,
              laws.lt_of_not_ge o'.filled_qty o.qty (rw sum (sym split ∙ part)),
            )
          ],
          ap (λ x. x.pos_mgr) e'_eq,
          ap (λ x. x.calls) e'_eq,
        )

  pending_booked :
      (now : ℕ) (f : Fill) (o : Order)
      → o.state ≡ cancel_pending
      → N.greater_than_or_equal f.qty (remaining_qty o) ≡ false
      → booked now f o ≡ (o, some (invalid_transition cancel_pending partial_fill))
  unfolding transition fill_event_of
  pending_booked now f o p below = ground arith

  -- While a cancellation is pending, a fill below the remaining quantity is refused and lost: the
  -- order and the positions stay as they are, though the exchange has executed it.
  pub pending_partial_fill_lost :
      (now : ℕ) (f : Fill) (e : Engine) (o : Order)
      → lookup f.intent_id e.orders ≡ some o
      → o.state ≡ cancel_pending
      → N.greater_than_or_equal f.qty (remaining_qty o) ≡ false
      → handle_fill now f e
        ≡ (e, some (transition_failed (invalid_transition cancel_pending partial_fill)))
  pending_partial_fill_lost now f e o found p below =
      handle_fill_known now f e o found
      ∙ ap (λ t. advance f.intent_id t (λ e'. (booked_engine f e', none)) e)
          (pending_booked now f o p below)
      ∙ ap (λ x. (x, some (transition_failed (invalid_transition cancel_pending partial_fill))))
          (put_same f.intent_id o o e found refl)
