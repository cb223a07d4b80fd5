-- ===== src/Order/Cancel.antt =====
-- Cancelling an order of nexus/internal/execution/order_sm.go, and how its life can end.
use mmh.Prelude.{◌≡◌, ◌⊎◌, true, none, some, ℕ, ◌≤◌, List, [], ◌∷◌, arith, length}
use mmh.Numbers.{Numbers}
use mmh.Order.{
  OrderState, created, submitted, acked, partial_filled, cancel_pending, OrderEvent, submit, reject,
  partial_fill, request_cancel, cancel_ack, cancel_reject, Order, EventData, no_data,
  invalid_transition, Input, is_terminal, transition, run,
}
use mmh.Order.Diagram.{IsTracked}

module _ ⦃N : Numbers⦄ where
  -- A request to cancel that the exchange refuses leaves an order with the same fills in the state
  -- that it was in; only the times and the remembered state are new.
  pub request_cancel-cancel_reject :
      (d d' : EventData) (t t' : ℕ) (o : Order)
      → (o.state ≡ acked) ⊎ (o.state ≡ partial_filled)
      → transition cancel_reject d' t' (transition request_cancel d t o).0
        ≡ (record o { state_before_cancel = some o.state; updated_at = t' }, none)
  unfolding transition
  request_cancel-cancel_reject d d' t t' o h = ground arith

  -- While a cancellation is pending, a fill that completes the order is recorded, and a partial fill
  -- is refused whatever it is.
  pub pending-partial_fill :
      (d : EventData) (t : ℕ) (o : Order)
      → o.state ≡ cancel_pending
      → transition partial_fill d t o ≡ (o, some (invalid_transition cancel_pending partial_fill))
  unfolding transition
  pending-partial_fill d t o h = ground arith

  abbrev call : OrderEvent → ℕ → Input
  call e t = record { event = e; payload = no_data; now = t }

  -- Calls that end an order with no fill.
  way_out : ℕ → OrderState → List Input
  way_out t created = call submit t ∷ call reject t ∷ []
  way_out t submitted = call reject t ∷ []
  way_out t acked = call request_cancel t ∷ call cancel_ack t ∷ []
  way_out t partial_filled = call request_cancel t ∷ call cancel_ack t ∷ []
  way_out t cancel_pending = call cancel_ack t ∷ []
  way_out t _ = []

  -- From every state that an order can be in, two calls at most end its life.
  pub can_end :
      (t : ℕ) (o : Order)
      → IsTracked o
      → (is : List Input) × (length is ≤ 2) × (is_terminal (run o is) ≡ true)
  unfolding run transition is_terminal way_out
  can_end t o v = (way_out t o.state, ground arith, ground arith)
