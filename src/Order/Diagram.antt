-- ===== src/Order/Diagram.antt =====
-- The diagram of the state machine of nexus/internal/execution/order_sm.go.
use mmh.Prelude.{◌≡◌, refl, ◌≢◌, ◌⊎◌, true, Option, none, some, ℕ, List, [], ◌∷◌, arith}
use mmh.Numbers.{Numbers}
use mmh.Order.{
  OrderState, created, submitted, acked, partial_filled, filled, rejected, cancel_pending,
  cancelled, cancel_rejected, OrderEvent, Order, EventData, Error, invalid_transition, Input,
  is_terminal, transition, run,
}

-- The edges that a successful transition takes. A refused cancellation leads back to the state from
-- which the cancellation was requested.
infix 40 ◌⟶◌ ◌⟶*◌
pub data ◌⟶◌ : OrderState → OrderState → Type 0 where
  send : created ⟶ submitted
  accept : submitted ⟶ acked
  refuse : submitted ⟶ rejected
  first_fill : acked ⟶ partial_filled
  next_fill : partial_filled ⟶ partial_filled
  fill_at_once : acked ⟶ filled
  last_fill : partial_filled ⟶ filled
  cancel_acked : acked ⟶ cancel_pending
  cancel_partial : partial_filled ⟶ cancel_pending
  confirm : cancel_pending ⟶ cancelled
  back_to_acked : cancel_pending ⟶ acked
  back_to_partial : cancel_pending ⟶ partial_filled
  late_fill : cancel_pending ⟶ filled

pub data ◌⟶*◌ : OrderState → OrderState → Type 0 where
  here : {s : OrderState} → s ⟶* s
  then : {s t u : OrderState} → s ⟶ t → t ⟶* u → s ⟶* u

pub ruleset edges = (
  send, accept, refuse, first_fill, next_fill, fill_at_once, last_fill, cancel_acked,
  cancel_partial, confirm, back_to_acked, back_to_partial, late_fill,
)

-- The remembered state is one from which a cancellation can be requested, and it is known while a
-- cancellation is pending.
abbrev pub KnowsBefore : OrderState → Option OrderState → Type 0
KnowsBefore s none = s ≢ cancel_pending
KnowsBefore s (some b) = (b ≡ acked) ⊎ (b ≡ partial_filled)

module _ ⦃N : Numbers⦄ where
  -- An order whose state before a cancellation is known where it is needed.
  pub record IsTracked (o : Order) : Type 0 where
    pub not_cancel_rejected : o.state ≢ cancel_rejected
    pub knows_before : KnowsBefore o.state o.state_before_cancel

  pub transition-IsTracked :
      (e : OrderEvent) (d : EventData) (now : ℕ) (o : Order)
      → IsTracked o
      → IsTracked (transition e d now o).0
  unfolding transition
  transition-IsTracked e d now o v = ground arith

  -- A transition that fails leaves the order as it was.
  pub transition_error_unchanged :
      (e : OrderEvent) (d : EventData) (now : ℕ) (o : Order) {err : Error}
      → (transition e d now o).1 ≡ some err
      → (transition e d now o).0 ≡ o
  unfolding transition
  transition_error_unchanged e d now o h = ground arith

  -- A transition that succeeds follows an edge of the diagram.
  pub transition-⟶ :
      (e : OrderEvent) (d : EventData) (now : ℕ) (o : Order)
      → IsTracked o
      → (transition e d now o).1 ≡ none
      → o.state ⟶ (transition e d now o).0.state
  unfolding transition
  transition-⟶ e d now o v h = grind (arith, edges)

  step-cons :
      (o : Order) (i : Input) (is : List Input)
      → run o (i ∷ is) ≡ run (transition i.event i.payload i.now o).0 is
  unfolding run
  step-cons o i is = refl

  pub run-IsTracked : (o : Order) (is : List Input) → IsTracked o → IsTracked (run o is)
  unfolding run
  run-IsTracked o [] v = v
  run-IsTracked o (i ∷ is) v =
      run-IsTracked (transition i.event i.payload i.now o).0 is
        (transition-IsTracked i.event i.payload i.now o v)

  pub transition_of_is_terminal :
      (e : OrderEvent) (d : EventData) (now : ℕ) (o : Order)
      → is_terminal o ≡ true
      → transition e d now o ≡ (o, some (invalid_transition o.state e))
  unfolding transition is_terminal
  transition_of_is_terminal e d now o h = ground arith

  -- A terminal order stays as it is, whatever calls follow.
  pub terminal_absorbs : (o : Order) (is : List Input) → is_terminal o ≡ true → run o is ≡ o
  unfolding run
  terminal_absorbs o [] h = refl
  terminal_absorbs o (i ∷ is) h =
      rw (transition_of_is_terminal i.event i.payload i.now o h) (terminal_absorbs o is h)
