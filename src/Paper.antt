-- ===== src/Paper.antt =====
-- nexus/internal/execution/paper_broker.go. An order is known by its intent's id: `orders` holds the orders,
-- and `pending` the ids of those that `pendingOrders` points to. Two intents of one id make no second
-- order. `print n` is the decimal writing of `n`, `fill_id` a new uuid, `event` the base event of
-- the bus, and `done` tells whether the context ends before the delay does. Timestamps of an
-- acknowledgement are the argument `now`. The mutex is left out, also where it is released for the
-- delay; CancelOrder looks in the order of the list, which Go leaves open.
pub mod Pending
pub mod Live
pub mod Books
pub mod Stranded
pub mod Examples
use Prim.Native.String.{◌++◌ as append}
use mmh.Prelude.{
  mem, ℕ, suc, ◌+◌, String, Bool, true, false, not, Option, none, some, List, [], ◌∷◌, ◌++◌,
  if◌then◌else◌, ◌&&◌, ltb, Map, lookup, insert, str_eq,
}
use mmh.Numbers.{Numbers, is_zero}
use mmh.Order.{
  FillRecord, OrderIntent, Order, EventData, no_data, ack_data, fill_data, submit, ack, fill,
  request_cancel, cancel_ack, new_order, remaining_qty, transition, Error as OrderError,
}
use mmh.Position.{Fill}
use mmh.Execution.{OrderAck}

-- `delete(m, id)`
abbrev pub remove : String → List String → List String
remove id [] = []
remove id (x ∷ xs) = let rest = remove id xs in if str_eq x id then rest else x ∷ rest

module _ ⦃N : Numbers⦄ where
  pub data Error : Type 0 where
    duplicate_intent : String → Error
    no_pending_order : String → Error
    order_not_found : String → Error
    context_done : Error
    transition_failed : OrderError → Error

  pub record PaperBroker : Type 0 where
    pub orders : Map Order
    pub pending : List String
    pub next_order_id : ℕ
    pub fills : List Fill
    pub slippage_bps : N.Float
    pub fill_delay : ℕ
    pub seen_intents : List String

  -- What one call takes from its surroundings.
  pub record Context : Type 0 where
    pub now : ℕ
    pub fill_id : String
    pub event_id : String
    pub done : Bool

  unfoldable pub new_paper_broker : N.Float → ℕ → PaperBroker
  new_paper_broker slippage_bps fill_delay = record {
    orders = [];
    pending = [];
    next_order_id = 1;
    fills = [];
    slippage_bps = slippage_bps;
    fill_delay = fill_delay;
    seen_intents = [];
  }

  -- `pb.slippageBps == 0`, by two comparisons.
  abbrev pub is_float_zero : N.Float → Bool
  is_float_zero x = N.fle x (N.literal 0 1) && N.fle (N.literal 0 1) x

  unfoldable pub apply_slippage : N.Float → N.Decimal → String → N.Decimal
  apply_slippage bps price side =
      let factor = N.div (N.new_from_float bps) (N.new_from_int 10_000) in
      if is_float_zero bps
      then price
      else if str_eq side "buy"
      then N.mul price (N.add (N.new_from_int 1) factor)
      else if str_eq side "sell"
      then N.mul price (N.sub (N.new_from_int 1) factor)
      else price

  abbrev pub fill_record : Context → N.Float → N.Decimal → N.Decimal → FillRecord
  fill_record x bps qty price = record {
    fill_id = x.fill_id;
    qty = qty;
    price = price;
    fee = N.zero;
    fee_ccy = "USD";
    timestamp = x.now;
    slippage_bps = bps;
  }

  -- The `bus.Fill` of an order.
  abbrev pub fill_of : Context → N.Float → Order → N.Decimal → N.Decimal → N.Decimal → Fill
  fill_of x bps o qty price expected = record {
    event_id = x.event_id;
    timestamp = x.now;
    trace_id = "";
    exchange = o.exchange;
    symbol = o.symbol;
    order_id = o.order_id;
    intent_id = o.intent_id;
    strategy_id = o.strategy_id;
    side = o.side;
    qty = qty;
    price = price;
    fee = N.zero;
    fee_currency = "USD";
    expected_price = expected;
    slippage_bps = bps;
  }

  abbrev pub ref_price : OrderIntent → N.Decimal
  ref_price intent = if is_zero intent.limit_price then N.new_from_int 1 else intent.limit_price

  -- A transition that fails is logged and leaves the order accepted.
  unfoldable pub execute_market_fill : Context → Order → OrderIntent → PaperBroker → PaperBroker
  unfolding apply_slippage
  execute_market_fill x o intent pb =
      let price = apply_slippage pb.slippage_bps (ref_price intent) intent.side in
      let (o', err) =
        transition fill (fill_data (fill_record x pb.slippage_bps intent.qty price)) x.now o in
      elim err [
        | some e ↦ pb
        | none ↦ record pb {
          orders = insert intent.intent_id o' pb.orders;
          fills =
              pb.fills
              ++ (record (fill_of x pb.slippage_bps o' intent.qty price (ref_price intent)) {
                exchange = intent.exchange;
                symbol = intent.symbol;
                intent_id = intent.intent_id;
                strategy_id = intent.strategy_id;
                side = intent.side;
              }
                  ∷ []);
        }
      ]

  -- `SubmitOrder` once the order is accepted.
  unfoldable pub accept :
      Context
      → Order
      → OrderIntent
      → OrderAck
      → PaperBroker
      → PaperBroker × Option OrderAck × Option Error
  unfolding execute_market_fill
  accept x o intent reply pb =
      let pb' = record pb { orders = insert intent.intent_id o pb.orders } in
      if str_eq intent.order_type "market"
      then if ltb 0 pb.fill_delay && x.done
        then (pb', some reply, some context_done)
        else (execute_market_fill x o intent pb', some reply, none)
      else (record pb' { pending = pb.pending ++ (intent.intent_id ∷ []) }, some reply, none)

  unfoldable pub submit_order :
      (ℕ → String)
      → Context
      → OrderIntent
      → PaperBroker
      → PaperBroker × Option OrderAck × Option Error
  unfolding accept
  submit_order print x intent pb =
      let id = append "PAPER-" (print pb.next_order_id) in
      let seen = record pb { seen_intents = intent.intent_id ∷ pb.seen_intents } in
      let numbered = record seen { next_order_id = suc pb.next_order_id } in
      let (o, err) = transition submit no_data x.now (new_order x.now intent) in
      let (o', err') = transition ack (ack_data id) x.now o in
      let reply : OrderAck = record {
        order_id = id;
        status = "accepted";
        reason = "";
        timestamp = x.now;
      } in
      let refusal : OrderAck = record {
        order_id = "";
        status = "rejected";
        reason = "duplicate_intent_id";
        timestamp = x.now;
      } in
      let accepted = accept x o' intent reply numbered in
      if mem intent.intent_id pb.seen_intents
      then (pb, some refusal, some (duplicate_intent intent.intent_id))
      else elim err [
        | some e ↦ (seen, none, some (transition_failed e))
        | none ↦ elim err' [
          | some e ↦ (numbered, none, some (transition_failed e))
          | none ↦ accepted
        ]
      ]

  -- The pending order of an id.
  abbrev pub pending_order : String → PaperBroker → Option Order
  pending_order id pb = if mem id pb.pending then lookup id pb.orders else none

  unfoldable pub simulate_fill :
      Context → String → N.Decimal → PaperBroker → PaperBroker × Option Error
  simulate_fill x id price pb = elim (pending_order id pb) [
    | none ↦ (pb, some (no_pending_order id))
    | some o ↦
        let qty = remaining_qty o in
        let bps = N.literal 0 1 in
        let (o', err) = transition fill (fill_data (fill_record x bps qty price)) x.now o in
        elim err [
          | some e ↦ (pb, some (transition_failed e))
          | none ↦ (
            record pb {
              orders = insert id o' pb.orders;
              pending = remove id pb.pending;
              fills = pb.fills ++ (fill_of x bps o' qty price o'.limit_price ∷ []);
            },
            none,
          )
        ]
  ]

  -- The body of the loop of `CancelOrder` for the order that is found.
  unfoldable pub cancel_found : ℕ → String → Order → PaperBroker → PaperBroker × Option Error
  cancel_found now id o pb =
      let (o', err) = transition request_cancel no_data now o in
      let (o2, err2) = transition cancel_ack no_data now o' in
      elim err [
        | some e ↦ (pb, some (transition_failed e))
        | none ↦ elim err2 [
          | some e ↦ (record pb { orders = insert id o' pb.orders }, some (transition_failed e))
          | none ↦
              (record pb { orders = insert id o2 pb.orders; pending = remove id pb.pending }, none)
        ]
      ]

  -- The loop over the pending orders.
  unfoldable pub cancel_among : ℕ → String → List String → PaperBroker → PaperBroker × Option Error
  unfolding cancel_found
  cancel_among now order_id [] pb = (pb, some (order_not_found order_id))
  cancel_among now order_id (id ∷ ids) pb =
      let rest = cancel_among now order_id ids pb in
      elim (lookup id pb.orders) [
        | none ↦ rest
        | some o ↦ if str_eq o.order_id order_id then cancel_found now id o pb else rest
      ]

  unfoldable pub cancel_order : ℕ → String → PaperBroker → PaperBroker × Option Error
  unfolding cancel_among
  cancel_order now order_id pb = cancel_among now order_id pb.pending pb
