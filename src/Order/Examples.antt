-- ===== src/Order/Examples.antt =====
-- Tests of the order state machine on whole numbers, and the theorems at concrete orders.
use mmh.Prelude.{◌≡◌, refl, inr, true, none, some, ℕ, ◌≤◌, List, [], ◌∷◌, arith, length}
use mmh.Prelude.Int.{pos, ◌+ℤ◌, ◌*ℤ◌, ◌/ℤ◌}
use mmh.Numbers.Whole.{whole}
use mmh.Order.{
  partial_filled, filled, cancel_pending, OrderEvent, submit, ack, partial_fill, fill,
  request_cancel, cancel_reject, FillRecord, OrderIntent, Order, EventData, no_data, ack_data,
  fill_data, invalid_transition, fill_exceeds_order, Input, is_terminal, new_order, transition, run,
}
use mmh.Order.Diagram.{◌⟶◌, IsTracked, transition-⟶, run-IsTracked, terminal_absorbs}
use mmh.Order.Fills.{IsValid, run-IsValid}
use mmh.Order.Cancel.{request_cancel-cancel_reject, pending-partial_fill, can_end}

abbrev pub sample_intent : OrderIntent
sample_intent = record {
  event_id = "e1";
  trace_id = "t1";
  causation_id = "";
  correlation_id = "";
  intent_id = "i1";
  strategy_id = "momentum";
  exchange = "kraken";
  symbol = "SOL";
  side = "buy";
  order_type = "limit";
  qty = pos 10;
  limit_price = pos 7;
  time_in_force = "GTC";
  tags = [];
}

abbrev pub piece : ℕ → ℕ → FillRecord
piece q p = record {
  fill_id = "f";
  qty = pos q;
  price = pos p;
  fee = pos 0;
  fee_ccy = "USD";
  timestamp = 5;
  slippage_bps = pos 0;
}

abbrev input : OrderEvent → EventData → Input
input e d = record { event = e; payload = d; now = 3 }

abbrev accepted : List Input
accepted = input submit no_data ∷ input ack (ack_data "x1") ∷ []

abbrev half_filled : List Input
half_filled =
    input submit no_data
    ∷ input ack (ack_data "x1")
    ∷ input partial_fill (fill_data (piece 4 5))
    ∷ []

abbrev all_filled : List Input
all_filled =
    input submit no_data
    ∷ input ack (ack_data "x1")
    ∷ input partial_fill (fill_data (piece 4 5))
    ∷ input fill (fill_data (piece 6 10))
    ∷ []

abbrev order_half : Order
order_half = run (new_order 1 sample_intent) half_filled

abbrev order_full : Order
order_full = run (new_order 1 sample_intent) all_filled

-- 4 at 5 and 6 at 10 cost 80, so the average is 8.
runs_to_filled :
    (order_full.state ≡ filled)
    × (order_full.filled_qty ≡ pos 10)
    × (order_full.avg_fill_price ≡ pos 8)
    × (order_full.order_id ≡ "x1")
    × (order_full.completed_at ≡ 3)
unfolding run transition new_order ◌+ℤ◌ ◌*ℤ◌ ◌/ℤ◌
runs_to_filled = (refl, refl, refl, refl, refl)

refuses_too_much :
    transition fill (fill_data (piece 7 5)) 9 order_half
    ≡ (order_half, some (fill_exceeds_order (pos 4) (pos 7) (pos 10)))
unfolding run transition new_order ◌+ℤ◌ ◌*ℤ◌ ◌/ℤ◌
refuses_too_much = refl

new-IsTracked : IsTracked (new_order 1 sample_intent)
unfolding new_order
new-IsTracked = ground arith

transition-⟶_example : partial_filled ⟶ filled
unfolding run transition new_order ◌+ℤ◌ ◌*ℤ◌ ◌/ℤ◌
transition-⟶_example =
    transition-⟶ fill (fill_data (piece 6 10)) 3 order_half
      (run-IsTracked (new_order 1 sample_intent) half_filled new-IsTracked) refl

run-IsTracked_example : IsTracked order_half
run-IsTracked_example = run-IsTracked (new_order 1 sample_intent) half_filled new-IsTracked

terminal_absorbs_example : run order_full all_filled ≡ order_full
unfolding is_terminal run transition new_order ◌+ℤ◌ ◌*ℤ◌ ◌/ℤ◌
terminal_absorbs_example = terminal_absorbs order_full all_filled refl

run-IsValid_example : IsValid order_full
run-IsValid_example = run-IsValid 1 sample_intent all_filled

request_cancel-cancel_reject_example :
    transition cancel_reject no_data 7 (transition request_cancel no_data 6 order_half).0
    ≡ (record order_half { state_before_cancel = some order_half.state; updated_at = 7 }, none)
unfolding run transition new_order ◌+ℤ◌ ◌*ℤ◌ ◌/ℤ◌
request_cancel-cancel_reject_example =
    request_cancel-cancel_reject no_data no_data 6 7 order_half (inr refl)

abbrev order_pending : Order
order_pending = (transition request_cancel no_data 6 order_half).0

pending-partial_fill_example :
    transition partial_fill (fill_data (piece 1 5)) 8 order_pending
    ≡ (order_pending, some (invalid_transition cancel_pending partial_fill))
unfolding run transition new_order ◌+ℤ◌ ◌*ℤ◌ ◌/ℤ◌
pending-partial_fill_example = pending-partial_fill (fill_data (piece 1 5)) 8 order_pending refl

can_end_example : (is : List Input) × (length is ≤ 2) × (is_terminal (run order_half is) ≡ true)
can_end_example = can_end 9 order_half run-IsTracked_example
