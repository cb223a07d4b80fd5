-- ===== src/Order.antt =====
-- nexus/internal/execution/order_sm.go: an order and its state machine. A method on `*Order` returns
-- the new order; `error` is an `Option Error`; `time.Now()` is the argument `now`, an instant in
-- nanoseconds with 0 for the zero time. `data interface{}` is an `EventData`. The mutex and the log
-- line are left out: a transition is one step.
pub mod Diagram
pub mod Fills
pub mod Cancel
pub mod Examples
use mmh.Prelude.{
  ℕ, String, Bool, true, false, Option, none, some, List, [], ◌∷◌, ◌++◌, ◌||◌, if◌then◌else◌,
}
use mmh.Numbers.{Numbers, is_zero, is_negative}

pub data OrderState : Type 0 where
  created submitted acked partial_filled filled rejected cancel_pending cancelled cancel_rejected :
      OrderState

pub data OrderEvent : Type 0 where
  submit ack reject partial_fill fill request_cancel cancel_ack cancel_reject : OrderEvent

pub OrderState-discrete : Discrete OrderState
OrderState-discrete = hlevel

module _ ⦃N : Numbers⦄ where
  pub record FillRecord : Type 0 where
    pub fill_id : String
    pub qty : N.Decimal
    pub price : N.Decimal
    pub fee : N.Decimal
    pub fee_ccy : String
    pub timestamp : ℕ
    pub slippage_bps : N.Float

  -- bus.OrderIntent, with the field of its BaseEvent that the execution engine sets.
  pub record OrderIntent : Type 0 where
    pub event_id : String
    pub trace_id : String
    pub causation_id : String
    pub correlation_id : String
    pub intent_id : String
    pub strategy_id : String
    pub exchange : String
    pub symbol : String
    pub side : String
    pub order_type : String
    pub qty : N.Decimal
    pub limit_price : N.Decimal
    pub time_in_force : String
    pub tags : List String

  pub record Order : Type 0 where
    pub intent_id : String
    pub order_id : String
    pub strategy_id : String
    pub exchange : String
    pub symbol : String
    pub side : String
    pub order_type : String
    pub qty : N.Decimal
    pub filled_qty : N.Decimal
    pub avg_fill_price : N.Decimal
    pub limit_price : N.Decimal
    pub state : OrderState
    pub fills : List FillRecord
    pub created_at : ℕ
    pub updated_at : ℕ
    pub submitted_at : ℕ
    pub acked_at : ℕ
    pub completed_at : ℕ
    pub state_before_cancel : Option OrderState

  -- What the callers pass for `data interface{}`; a typed nil pointer is not among it.
  pub data EventData : Type 0 where
    no_data : EventData
    ack_data : String → EventData
    fill_data : FillRecord → EventData

  pub data Error : Type 0 where
    invalid_transition : OrderState → OrderEvent → Error
    missing_fill : OrderEvent → Error
    fill_not_positive : N.Decimal → Error
    fill_exceeds_order : N.Decimal → N.Decimal → N.Decimal → Error

-- The table `transitions`.
unfoldable pub transitions : OrderState → OrderEvent → Option OrderState
transitions created submit = some submitted
transitions submitted ack = some acked
transitions submitted reject = some rejected
transitions acked partial_fill = some partial_filled
transitions acked fill = some filled
transitions partial_filled partial_fill = some partial_filled
transitions partial_filled fill = some filled
transitions acked request_cancel = some cancel_pending
transitions partial_filled request_cancel = some cancel_pending
transitions cancel_pending cancel_ack = some cancelled
transitions cancel_pending cancel_reject = some cancel_rejected
transitions cancel_pending fill = some filled
transitions _ _ = none

abbrev pub is_terminal_state : OrderState → Bool
is_terminal_state filled = true
is_terminal_state rejected = true
is_terminal_state cancelled = true
is_terminal_state _ = false

module _ ⦃N : Numbers⦄ where
  unfoldable pub is_terminal : Order → Bool
  is_terminal o = is_terminal_state o.state

  unfoldable pub remaining_qty : Order → N.Decimal
  remaining_qty o = N.sub o.qty o.filled_qty

  unfoldable pub new_order : ℕ → OrderIntent → Order
  new_order now intent = record {
    intent_id = intent.intent_id;
    order_id = "";
    strategy_id = intent.strategy_id;
    exchange = intent.exchange;
    symbol = intent.symbol;
    side = intent.side;
    order_type = intent.order_type;
    qty = intent.qty;
    filled_qty = N.zero;
    avg_fill_price = N.zero;
    limit_price = intent.limit_price;
    state = created;
    fills = [];
    created_at = now;
    updated_at = now;
    submitted_at = 0;
    acked_at = 0;
    completed_at = 0;
    state_before_cancel = none;
  }

  -- An error leaves the order as it is.
  unfoldable pub record_fill : Order → FillRecord → Order × Option Error
  record_fill o fr =
      let new_filled_qty = N.add o.filled_qty fr.qty in
      let total_cost = N.add (N.mul o.avg_fill_price o.filled_qty) (N.mul fr.price fr.qty) in
      if is_zero fr.qty || is_negative fr.qty
      then (o, some (fill_not_positive fr.qty))
      else if N.greater_than new_filled_qty o.qty
      then (o, some (fill_exceeds_order o.filled_qty fr.qty o.qty))
      else (
        record o {
          avg_fill_price = N.div total_cost new_filled_qty;
          filled_qty = new_filled_qty;
          fills = o.fills ++ (fr ∷ []);
        },
        none,
      )

  -- The `case EventPartialFill, EventFill`.
  record_event : OrderEvent → EventData → Order → Order × Option Error
  unfolding record_fill
  record_event event (fill_data fr) o = record_fill o fr
  record_event event _ o = (o, some (missing_fill event))

  -- The switch before the state changes: the order with the side effects of the event, the error
  -- that ends the transition, and the state to go to.
  side_effects : OrderEvent → EventData → ℕ → OrderState → Order → Order × Option Error × OrderState
  unfolding record_event
  side_effects submit d now next o = (record o { submitted_at = now }, none, next)
  side_effects ack (ack_data id) now next o =
      (record o { order_id = id; acked_at = now }, none, next)
  side_effects ack d now next o = (record o { acked_at = now }, none, next)
  side_effects partial_fill d now next o =
      let (o', err) = record_event partial_fill d o in (o', err, next)
  side_effects fill d now next o = let (o', err) = record_event fill d o in (o', err, next)
  side_effects request_cancel d now next o =
      (record o { state_before_cancel = some o.state }, none, next)
  side_effects cancel_reject d now next o =
      (o, none, elim o.state_before_cancel [ none ↦ next | some s ↦ s ])
  side_effects _ d now next o = (o, none, next)

  -- The assignments after the switch.
  enter : ℕ → OrderState → Order → Order
  enter now next o =
      if is_terminal_state next
      then record o { state = next; updated_at = now; completed_at = now }
      else record o { state = next; updated_at = now }

  -- The body of `Transition` once the table has given the next state.
  advance : OrderEvent → EventData → ℕ → Option OrderState → Order → Order × Option Error
  unfolding side_effects enter
  advance event d now none o = (o, some (invalid_transition o.state event))
  advance event d now (some next) o =
      let (o', err, next') = side_effects event d now next o in
      elim err [ none ↦ (enter now next' o', none) | some e ↦ (o', some e) ]

  unfoldable pub transition : OrderEvent → EventData → ℕ → Order → Order × Option Error
  unfolding advance transitions
  transition event d now o = advance event d now (transitions o.state event) o

-- One call of `Transition`.
pub record Input ⦃N : Numbers⦄ : Type 0 where
  pub event : OrderEvent
  pub payload : EventData
  pub now : ℕ

module _ ⦃N : Numbers⦄ where
  -- Any calls of `Transition` in a row, their errors dropped.
  unfoldable pub run : Order → List Input → Order
  run o [] = o
  run o (i ∷ is) = run (transition i.event i.payload i.now o).0 is
