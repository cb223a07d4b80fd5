-- ===== src/Execution/Examples.antt =====
-- Tests of the execution engine on whole numbers, and the theorems at a concrete engine.
use mmh.Prelude.{
  ◌≡◌, refl, ◌⊎◌, inl, Bool, true, false, none, some, List, [], ◌∷◌, ◌++◌, lookup, insert,
}
use mmh.Prelude.Int.{pos, negsuc, ◌+ℤ◌, ◌-ℤ◌, ◌*ℤ◌, ◌/ℤ◌, ltb_ℤ}
use mmh.Numbers.{is_zero}
use mmh.Numbers.Whole.{whole, whole-IsOrdered, whole-IsGroup, whole-HasAbs}
use mmh.Order.{
  OrderIntent, Order, acked, partial_filled, filled, cancel_pending, cancelled, partial_fill,
  request_cancel, invalid_transition, new_order, transition, remaining_qty,
}
use mmh.Order.Examples.{sample_intent}
use mmh.Position.{
  apply_fill, apply_fill_to_position, new_position_manager, flat, position_key, global_key,
  get_position, signed_qty_of,
}
use mmh.Position.Examples.{trade}
use mmh.Risk.{check, new, kill}
use mmh.Risk.Examples.{engine as risk_engine}
use mmh.Execution.{
  ExchangeAdapter, submitted_order, transition_failed, Engine, execute_intent, handle_fill,
  cancel_order, fill_record_of, Call, executes, fills, cancels, run, step, active_orders,
}
use mmh.Execution.Gate.{execute_intent_gate, IsPlaced, execute_intent_idempotent}
use mmh.Execution.Invariant.{IsSound, run_from_empty}
use mmh.Execution.Fills.{handle_fill_books, pending_partial_fill_lost}
use mmh.Execution.Signals.{StrategySignal, compute_target_position_intents, exchange_of, qty_of}
use mmh.Execution.Target.{target_reached}
use mmh.Execution.Cancels.{requested, failed_cancel_stays}

-- An exchange that accepts every order and, by `cancels_ok`, cancels or does not.
abbrev exchange : Bool → ExchangeAdapter
exchange cancels_ok = record {
  submit_order =
      λ n i. some (record { order_id = "x1"; status = "accepted"; reason = ""; timestamp = 1 });
  cancel_order = λ n id. cancels_ok;
}

abbrev start : Bool → Engine
start cancels_ok = record {
  orders = [];
  adapters = ("kraken", exchange cancels_ok) ∷ [];
  risk_engine = risk_engine;
  pos_mgr = new_position_manager;
  dry_run = false;
  calls = [];
  published = [];
}

abbrev opened : Bool → Engine
opened b = (execute_intent 1 "t1" sample_intent (start b)).0

abbrev half : Engine
half = (handle_fill 2 (trade "momentum" "buy" 4 7) (opened false)).0

abbrev full : Engine
full = (handle_fill 3 (trade "momentum" "buy" 6 9) half).0

runs :
    ((opened true).calls ≡ submitted_order sample_intent ∷ [])
    × ((handle_fill 3 (trade "momentum" "buy" 6 9) half).1 ≡ none)
    × (full.calls ≡ submitted_order sample_intent ∷ [])
    × (active_orders full ≡ [])
unfolding execute_intent handle_fill check new lookup insert transition new_order remaining_qty
    active_orders mmh.Order.is_terminal new_position_manager ◌+ℤ◌ ◌-ℤ◌ ◌*ℤ◌ ◌/ℤ◌
runs = (refl, refl, refl, refl)

execute_intent_gate_example :
    ((opened true).calls ≡ [])
    ⊎ (((opened true).calls ≡ [] ++ (submitted_order sample_intent ∷ []))
        × ((check sample_intent 1 risk_engine).1.allowed ≡ true)
        × (false ≡ false)
        × (lookup {V = Order} "i1" [] ≡ none))
execute_intent_gate_example = execute_intent_gate 1 "t1" sample_intent (start true)

execute_intent_idempotent_example :
    IsPlaced sample_intent (lookup "i1" (opened true).orders)
    × (execute_intent 2 "t2" sample_intent (opened true) ≡ (opened true, none))
unfolding lookup check new ◌+ℤ◌ ◌*ℤ◌
execute_intent_idempotent_example =
    execute_intent_idempotent 1 2 "t1" "t2" sample_intent sample_intent (start true) refl refl refl

abbrev dead : Engine
dead = record (start true) { risk_engine = kill risk_engine }

abbrev story : List Call
story = executes 1 "t1" sample_intent ∷ fills 2 (trade "momentum" "buy" 4 7) ∷ cancels 3 "i1" ∷ []

abbrev after : Engine
after = run story (start false)

abbrev order_after : Order
order_after = record (new_order 1 sample_intent) {
  order_id = "x1";
  filled_qty = pos 4;
  avg_fill_price = pos 7;
  state = cancel_pending;
  fills = fill_record_of (trade "momentum" "buy" 4 7) ∷ [];
  updated_at = 3;
  submitted_at = 1;
  acked_at = 1;
  state_before_cancel = some partial_filled;
}

story_ends : lookup "i1" after.orders ≡ some order_after
unfolding run step execute_intent handle_fill cancel_order check new lookup insert transition
    new_order remaining_qty ◌+ℤ◌ ◌-ℤ◌ ◌*ℤ◌ ◌/ℤ◌
story_ends = refl

run_from_empty_example : IsSound order_after
run_from_empty_example = run_from_empty story (start false) "i1" refl story_ends

abbrev order_open : Order
order_open = record (new_order 1 sample_intent) {
  order_id = "x1";
  state = acked;
  submitted_at = 1;
  acked_at = 1;
}

handle_fill_books_example :
    (o' : Order) × (lookup "i1" half.orders ≡ some o')
    × (o'.filled_qty ≡ pos 0 +ℤ pos 4)
    × (o'.fills ≡ fill_record_of (trade "momentum" "buy" 4 7) ∷ [])
    × (((o'.state ≡ filled) × (o'.filled_qty ≡ pos 10))
        ⊎ ((o'.state ≡ partial_filled) × (ltb_ℤ o'.filled_qty (pos 10) ≡ true)))
    × (half.pos_mgr ≡ apply_fill (trade "momentum" "buy" 4 7) new_position_manager)
    × (half.calls ≡ (opened false).calls)
unfolding execute_intent handle_fill check new lookup insert transition new_order remaining_qty ◌+ℤ◌
    ◌-ℤ◌ ◌*ℤ◌ ◌/ℤ◌
handle_fill_books_example =
    handle_fill_books whole-IsOrdered 2 (trade "momentum" "buy" 4 7) (opened false) order_open refl
      refl

pending_partial_fill_lost_example :
    handle_fill 4 (trade "momentum" "buy" 1 7) after
    ≡ (after, some (transition_failed (invalid_transition cancel_pending partial_fill)))
unfolding run step execute_intent handle_fill cancel_order check new lookup insert transition
    new_order remaining_qty ◌+ℤ◌ ◌-ℤ◌ ◌*ℤ◌ ◌/ℤ◌
pending_partial_fill_lost_example =
    pending_partial_fill_lost 4 (trade "momentum" "buy" 1 7) after order_after refl refl refl

abbrev later_calls : List Call
later_calls =
    cancels 5 "i1"
    ∷ fills 6 (trade "momentum" "buy" 4 7)
    ∷ executes 7 "t" sample_intent
    ∷ cancels 8 "i1"
    ∷ []

failed_cancel_stays_example :
    lookup "i1" (run later_calls (cancel_order 4 "i1" (opened false)).0).orders
    ≡ some (requested 4 order_open)
unfolding execute_intent check new lookup insert transition new_order ◌+ℤ◌ ◌*ℤ◌ remaining_qty ◌-ℤ◌
failed_cancel_stays_example =
    failed_cancel_stays 4 "i1" (opened false) order_open (exchange false) later_calls refl
      (inl refl) refl refl refl (tt, (λ same. refl, (tt, (tt, tt))))

abbrev signal : StrategySignal
signal = record {
  event_id = "s1";
  trace_id = "";
  correlation_id = "c1";
  strategy_id = "momentum";
  symbol = "SOL";
  signal_type = "target_position";
  confidence = pos 1;
  target_position = negsuc 5;
  orders_intent = [];
  reason_codes = [];
  metadata_exchange = none;
}

-- Long 4 with a target of -6: sell 10.
abbrev derived : OrderIntent
derived = record sample_intent {
  event_id = "u";
  trace_id = "t";
  causation_id = "s1";
  correlation_id = "c1";
  intent_id = "u";
  side = "sell";
  order_type = "market";
  limit_price = pos 0;
  time_in_force = "IOC";
}

derives : compute_target_position_intents (λ n. "u") signal "t" half ≡ derived ∷ []
unfolding compute_target_position_intents get_position execute_intent handle_fill apply_fill
    apply_fill_to_position flat position_key global_key new_position_manager check new lookup insert
    transition new_order remaining_qty ◌+ℤ◌ ◌-ℤ◌ ◌*ℤ◌ ◌/ℤ◌
derives = refl

target_reached_example :
    (qty_of (
        get_position "momentum"
          (exchange_of signal half)
          "SOL"
          (apply_fill (trade "momentum" "sell" 10 5) half.pos_mgr))
      ≡ negsuc 5)
    × (derived.strategy_id ≡ "momentum")
    × (derived.symbol ≡ "SOL")
    × (derived.exchange ≡ exchange_of signal half)
    × (derived.order_type ≡ "market")
    × (is_zero (signed_qty_of (trade "momentum" "sell" 10 5)) ≡ false)
target_reached_example =
    target_reached whole-IsGroup whole-HasAbs (λ n. "u") signal "t" half derived
      (trade "momentum" "sell" 10 5) derives (refl, refl, refl, refl, refl)
