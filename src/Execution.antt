-- ===== src/Execution.antt =====
-- nexus/internal/execution/engine.go: routing of orders. The state is the engine's, with two logs added:
-- the calls made to exchanges and the events published, whose errors the code drops. An adapter is a
-- record of functions, given the number of calls made so far, so that its answers may differ from
-- call to call. The orders that the Go map points to are kept by value and written back. `now`,
-- `uuid` and the trace id are arguments. A call of a method is one step; `place` is the part of
-- `executeIntent` after the risk check, which runs under its own test for a duplicate.
pub mod Signals
pub mod Target
pub mod Gate
pub mod Invariant
pub mod Fills
pub mod Cancels
pub mod Examples
use Prim.Native.String.{◌++◌ as append}
use mmh.Prelude.{
  ℕ, ◌+◌, suc, String, Bool, true, false, not, Option, none, some, List, [], ◌∷◌, ◌++◌,
  if◌then◌else◌, Map, lookup, insert, str_eq, length,
}
use mmh.Numbers.{Numbers, is_zero, is_negative}
use mmh.Order
use mmh.Order.{
  OrderIntent, Order, OrderEvent, FillRecord, ack_data, no_data, fill_data, submit, ack, reject,
  partial_fill, fill, request_cancel, cancel_ack, new_order, transition, remaining_qty, is_terminal,
}
use mmh.Position.{Fill, PositionManager, apply_fill, get_position}
use mmh.Risk
use mmh.Risk.{ReasonCode, check}

pub record OrderAck : Type 0 where
  pub order_id : String
  pub status : String
  pub reason : String
  pub timestamp : ℕ

module _ ⦃N : Numbers⦄ where
  -- adapters.ExchangeAdapter: `SubmitOrder` and `CancelOrder`; `none` and `false` are an error.
  pub record ExchangeAdapter : Type 0 where
    pub submit_order : ℕ → OrderIntent → Option OrderAck
    pub cancel_order : ℕ → String → Bool

  pub data ExchangeCall : Type 0 where
    submitted_order : OrderIntent → ExchangeCall
    cancelled_order : String → String → ExchangeCall

  pub data Event : Type 0 where
    risk_deny : String → List ReasonCode → String → Event
    risk_allow : String → String → Event
    order_event : String → String → Order → Event
    fill_event : String → String → Fill → Event

  pub data Error : Type 0 where
    risk_denied : String → List ReasonCode → Error
    no_adapter : String → Error
    submit_failed : String → Error
    cancel_failed : String → Error
    unknown_order : String → Error
    transition_failed : Order.Error → Error

  pub record Engine : Type 0 where
    pub orders : Map Order
    pub adapters : Map ExchangeAdapter
    pub risk_engine : Risk.Engine
    pub pos_mgr : PositionManager
    pub dry_run : Bool
    pub calls : List ExchangeCall
    pub published : List Event

  abbrev pub publish : Event → Engine → Engine
  publish ev e = record e { published = e.published ++ (ev ∷ []) }

  abbrev pub put : String → Order → Engine → Engine
  put id o e = record e { orders = insert id o e.orders }

  unfoldable pub register_adapter : String → ExchangeAdapter → Engine → Engine
  register_adapter name a e = record e { adapters = insert name a e.adapters }

  -- A transition whose error is returned, the new order stored; on success the engine goes on.
  abbrev pub advance :
      String
      → Order × Option Order.Error
      → (Engine → Engine × Option Error)
      → Engine
      → Engine × Option Error
  advance id (o, some err) next e = (put id o e, some (transition_failed err))
  advance id (o, none) next e = next (put id o e)

  -- Steps 8 and 9.
  acknowledge : ℕ → OrderIntent → OrderAck → Order → Engine → Engine × Option Error
  acknowledge now intent a o e =
      let id = intent.intent_id in
      let t =
        if str_eq a.status "accepted"
        then transition ack (ack_data a.order_id) now o
        else transition reject no_data now o in
      advance id t (λ e'. (publish (order_event intent.exchange id (t.0)) e', none)) e

  -- Step 7.
  submit_to : ℕ → OrderIntent → ExchangeAdapter → Order → Engine → Engine × Option Error
  unfolding acknowledge
  submit_to now intent a o e =
      let e' = record e { calls = e.calls ++ (submitted_order intent ∷ []) } in
      elim (a.submit_order (length e.calls) intent) [
        | none ↦ (
          put intent.intent_id (transition reject no_data now o).0 e',
          some (submit_failed intent.exchange),
        )
        | some answer ↦ acknowledge now intent answer o e'
      ]

  -- Steps 5 and 6.
  route : ℕ → OrderIntent → Order → Engine → Engine × Option Error
  unfolding submit_to
  route now intent o e =
      let id = intent.intent_id in
      if e.dry_run
      then (put id (transition ack (ack_data (append "DRYRUN-" id)) now o).0 e, none)
      else elim (lookup intent.exchange e.adapters) [
        | none ↦ (put id (transition reject no_data now o).0 e, some (no_adapter intent.exchange))
        | some a ↦ submit_to now intent a o e
      ]

  -- Steps 3 to 9.
  unfoldable pub place : ℕ → OrderIntent → Engine → Engine × Option Error
  unfolding route
  place now intent e =
      let id = intent.intent_id in
      elim (lookup id e.orders) [
        | some o ↦ (e, none)
        | none ↦
            let t = transition submit no_data now (new_order now intent) in
            advance id t (route now intent (t.0)) e
      ]

  -- Steps 1 and 2, then the rest.
  unfoldable pub execute_intent : ℕ → String → OrderIntent → Engine → Engine × Option Error
  unfolding place
  execute_intent now trace intent e =
      let id = intent.intent_id in
      let (r, d) = check intent now e.risk_engine in
      let e' = record e { risk_engine = r } in
      elim (lookup id e.orders) [
        | some o ↦ (e, none)
        | none ↦ if d.allowed then place now intent (publish (risk_allow id trace) e') else (
          publish (risk_deny id d.reason_codes trace) e',
          some (risk_denied id d.reason_codes),
        )
      ]

  -- The loop of `Execute`: the first error is returned.
  unfoldable pub execute_all : ℕ → String → List OrderIntent → Engine → Engine × Option Error
  execute_all now trace [] e = (e, none)
  execute_all now trace (i ∷ is) e =
      let (e', err) = execute_intent now trace i e in
      let (e'', later) = execute_all now trace is e' in
      (e'', elim err [ some x ↦ some x | none ↦ later ])

  unfoldable pub fill_record_of : Fill → FillRecord
  fill_record_of f = record {
    fill_id = f.event_id;
    qty = f.qty;
    price = f.price;
    fee = f.fee;
    fee_ccy = f.fee_currency;
    timestamp = f.timestamp;
    slippage_bps = f.slippage_bps;
  }

  unfoldable pub fill_event_of : Fill → Order → OrderEvent
  unfolding remaining_qty
  fill_event_of f o = if N.greater_than_or_equal f.qty (remaining_qty o) then fill else partial_fill

  unfoldable pub handle_fill : ℕ → Fill → Engine → Engine × Option Error
  unfolding fill_record_of fill_event_of
  handle_fill now f e = elim (lookup f.intent_id e.orders) [
    | none ↦ (e, some (unknown_order f.intent_id))
    | some o ↦
        advance f.intent_id (transition (fill_event_of f o) (fill_data (fill_record_of f)) now o)
          (λ e'. (
            publish (fill_event f.exchange f.intent_id f)
                (record e' { pos_mgr = apply_fill f e'.pos_mgr }),
            none,
          ))
          e
  ]

  -- `CancelOrder` after the order waits for its cancellation.
  cancel_pending_order : ℕ → String → Order → Engine → Engine × Option Error
  cancel_pending_order now id o e =
      let confirmed = transition cancel_ack no_data now o in
      if e.dry_run then (put id (confirmed.0) e, none) else elim (lookup o.exchange e.adapters) [
        | none ↦ (e, some (no_adapter o.exchange))
        | some a ↦
            let e' = record e { calls = e.calls ++ (cancelled_order o.exchange o.order_id ∷ []) } in
            if a.cancel_order (length e.calls) o.order_id
            then advance id confirmed
                (λ e''. (publish (order_event o.exchange id (confirmed.0)) e'', none)) e'
            else (e', some (cancel_failed o.exchange))
      ]

  unfoldable pub cancel_order : ℕ → String → Engine → Engine × Option Error
  unfolding cancel_pending_order
  cancel_order now id e = elim (lookup id e.orders) [
    | none ↦ (e, some (unknown_order id))
    | some o ↦
        let t = transition request_cancel no_data now o in
        advance id t (cancel_pending_order now id (t.0)) e
  ]

  unfoldable pub get_order : String → Engine → Option Order
  get_order id e = lookup id e.orders

  active_of : Map Order → List Order
  active_of [] = []
  active_of ((id, o) ∷ m) = let rest = active_of m in if is_terminal o then rest else o ∷ rest

  unfoldable pub active_orders : Engine → List Order
  unfolding active_of
  active_orders e = active_of e.orders

  -- The calls that strategies and exchanges make.
  pub data Call : Type 0 where
    executes : ℕ → String → OrderIntent → Call
    fills : ℕ → Fill → Call
    cancels : ℕ → String → Call
    registers : String → ExchangeAdapter → Call

  unfoldable pub step : Call → Engine → Engine
  step (executes now trace intent) e = (execute_intent now trace intent e).0
  step (fills now f) e = (handle_fill now f e).0
  step (cancels now id) e = (cancel_order now id e).0
  step (registers name a) e = register_adapter name a e

  unfoldable pub run : List Call → Engine → Engine
  run [] e = e
  run (c ∷ cs) e = run cs (step c e)
