-- ===== src/Execution/Cancels.antt =====
-- `CancelOrder` of nexus/internal/execution/engine.go.
use mmh.Prelude.{
  ◌≡◌, refl, ap, sym, ◌∙◌, ◌⊎◌, inl, inr, All, List, lookup-insert_ne, Bool-cases, str_eq,
  str_eq_iff, ℕ, false, Option, none, some, String, [], ◌∷◌, ◌++◌, arith, lookup, insert,
  lookup-insert_self, insert_same, subst, Map, length,
}
use mmh.Numbers.{Numbers}
use mmh.Order.{
  Order, OrderIntent, remaining_qty, acked, partial_filled, cancel_pending, cancelled,
  request_cancel, no_data, transition, invalid_transition,
}
use mmh.Execution.{
  Engine, ExchangeAdapter, cancelled_order, cancel_failed, transition_failed, cancel_order, put,
  Call, executes, fills, cancels, registers, step, run, execute_intent, handle_fill,
}
use mmh.Position.{Fill}
use mmh.Execution.Fills.{pending_partial_fill_lost}

module _ ⦃N : Numbers⦄ where
  abbrev pub IsCancelled : Option Order → Type 0
  IsCancelled none = ⊥
  IsCancelled (some o) = o.state ≡ cancelled

  IsCancelled-insert :
      (id : String) (o : Order) (m : Map Order)
      → o.state ≡ cancelled
      → IsCancelled (lookup id (insert id o m))
  IsCancelled-insert id o m h = subst IsCancelled (sym (lookup-insert_self id o m)) h

  -- A cancellation that reports no error leaves the order cancelled, in dry run or not.
  pub cancel_order_ok :
      (now : ℕ) (id : String) (e : Engine)
      → (cancel_order now id e).1 ≡ none
      → IsCancelled (lookup id (cancel_order now id e).0.orders)
  unfolding cancel_order transition
  cancel_order_ok now id e h = grind (arith, IsCancelled-insert)

  -- The order with its cancellation requested.
  abbrev pub requested : ℕ → Order → Order
  requested now o = record o {
    state_before_cancel = some o.state;
    state = cancel_pending;
    updated_at = now;
  }

  request_lem :
      (now : ℕ) (o : Order)
      → (o.state ≡ acked) ⊎ (o.state ≡ partial_filled)
      → transition request_cancel no_data now o ≡ (requested now o, none)
  unfolding transition
  request_lem now o h = ground arith

  cancel_order_failed :
      (now : ℕ) (id : String) (e : Engine) (o : Order) (a : ExchangeAdapter)
      → lookup id e.orders ≡ some o
      → (o.state ≡ acked) ⊎ (o.state ≡ partial_filled)
      → e.dry_run ≡ false
      → lookup o.exchange e.adapters ≡ some a
      → a.cancel_order (length e.calls) o.order_id ≡ false
      → cancel_order now id e ≡ (
        record (put id (requested now o) e) {
          calls = e.calls ++ (cancelled_order o.exchange o.order_id ∷ []);
        },
        some (cancel_failed o.exchange),
      )
  unfolding cancel_order
  cancel_order_failed now id e o a found st dry reg fails = ground (arith, request_lem now o)

  -- An order that waits for its cancellation: each further attempt to cancel it is refused, and changes
  -- nothing.
  cancel_order_stuck :
      (now : ℕ) (id : String) (e : Engine) (o : Order)
      → lookup id e.orders ≡ some o
      → o.state ≡ cancel_pending
      → cancel_order now id e
        ≡ (e, some (transition_failed (invalid_transition cancel_pending request_cancel)))
  unfolding cancel_order transition
  cancel_order_stuck now id e o found st = ground (arith, insert_same id o e.orders)

  -- Anything but a fill of all that remains of the order under an id.
  abbrev pub IsPartial : String → Order → Call → Type 0
  IsPartial id o (fills now f) =
      f.intent_id ≡ id → N.greater_than_or_equal f.qty (remaining_qty o) ≡ false
  IsPartial id o _ = Unit

  handle_fill_other :
      (now : ℕ) (f : Fill) (e : Engine) (id : String)
      → str_eq f.intent_id id ≡ false
      → lookup id (handle_fill now f e).0.orders ≡ lookup id e.orders
  unfolding handle_fill
  handle_fill_other now f e id other = grind (arith, lookup-insert_ne)

  cancel_order_other :
      (now : ℕ) (i : String) (e : Engine) (id : String)
      → str_eq i id ≡ false
      → lookup id (cancel_order now i e).0.orders ≡ lookup id e.orders
  unfolding cancel_order
  cancel_order_other now i e id other = grind (arith, lookup-insert_ne)

  execute_intent_other :
      (now : ℕ) (trace : String) (intent : OrderIntent) (e : Engine) (id : String)
      → str_eq intent.intent_id id ≡ false
      → lookup id (execute_intent now trace intent e).0.orders ≡ lookup id e.orders
  unfolding execute_intent
  execute_intent_other now trace intent e id other = grind (arith, lookup-insert_ne)

  execute_intent_known :
      (now : ℕ) (trace : String) (intent : OrderIntent) (e : Engine) (o : Order)
      → lookup intent.intent_id e.orders ≡ some o
      → (execute_intent now trace intent e).0.orders ≡ e.orders
  unfolding execute_intent
  execute_intent_known now trace intent e o found = ground (arith, found)

  step_pending :
      (c : Call) (id : String) (o : Order) (e : Engine)
      → o.state ≡ cancel_pending
      → IsPartial id o c
      → lookup id e.orders ≡ some o
      → lookup id (step c e).orders ≡ some o
  unfolding step mmh.Execution.register_adapter
  step_pending (executes now trace intent) id o e st partial found =
      elim (Bool-cases (str_eq intent.intent_id id)) [
        | inl same ↦
            let is_id = (str_eq_iff intent.intent_id id).0 same in
            ap (lookup id) (
              execute_intent_known now trace intent e o (ap (λ i. lookup i e.orders) is_id ∙ found))
            ∙ found
        | inr other ↦ execute_intent_other now trace intent e id other ∙ found
      ]
  step_pending (fills now f) id o e st partial found = elim (Bool-cases (str_eq f.intent_id id)) [
    | inl same ↦
        let is_id = (str_eq_iff f.intent_id id).0 same in
        let there = ap (λ i. lookup i e.orders) is_id ∙ found in
        ap (λ x. lookup id x.0.orders)
          (pending_partial_fill_lost now f e o there st (partial is_id))
        ∙ found
    | inr other ↦ handle_fill_other now f e id other ∙ found
  ]
  step_pending (cancels now i) id o e st partial found = elim (Bool-cases (str_eq i id)) [
    | inl same ↦
        let is_id = (str_eq_iff i id).0 same in
        let there = ap (λ j. lookup j e.orders) is_id ∙ found in
        ap (λ x. lookup id x.0.orders) (cancel_order_stuck now i e o there st) ∙ found
    | inr other ↦ cancel_order_other now i e id other ∙ found
  ]
  step_pending (registers name a) id o e st partial found = found

  run_pending :
      (cs : List Call) (id : String) (o : Order) (e : Engine)
      → o.state ≡ cancel_pending
      → All (IsPartial id o) cs
      → lookup id e.orders ≡ some o
      → lookup id (run cs e).orders ≡ some o
  unfolding run
  run_pending [] id o e st partial found = found
  run_pending (c ∷ cs) id o e st partial found =
      run_pending cs id o (step c e) st partial.1 (step_pending c id o e st partial.0 found)

  -- When the exchange fails to cancel an accepted or partially filled order, the order waits for its
  -- cancellation for good: whatever is called after that, further cancellations of it included, it
  -- is as the failure left it, unless a fill of all that remains of it arrives.
  pub failed_cancel_stays :
      (now : ℕ) (id : String) (e : Engine) (o : Order) (a : ExchangeAdapter) (cs : List Call)
      → lookup id e.orders ≡ some o
      → (o.state ≡ acked) ⊎ (o.state ≡ partial_filled)
      → e.dry_run ≡ false
      → lookup o.exchange e.adapters ≡ some a
      → a.cancel_order (length e.calls) o.order_id ≡ false
      → All (IsPartial id o) cs
      → lookup id (run cs (cancel_order now id e).0).orders ≡ some (requested now o)
  unfolding remaining_qty
  failed_cancel_stays now id e o a cs found st dry reg fails partial =
      run_pending cs id (requested now o) (cancel_order now id e).0 refl (All-requested cs partial)
        (ap (λ x. lookup id x.0.orders) (cancel_order_failed now id e o a found st dry reg fails)
          ∙ lookup-insert_self id (requested now o) e.orders)
    where
      All-requested :
          (cs' : List Call) → All (IsPartial id o) cs' → All (IsPartial id (requested now o)) cs'
      All-requested [] h = tt
      All-requested (c ∷ cs') (h, hs) = (one c h, All-requested cs' hs)
        where
          one : (c' : Call) → IsPartial id o c' → IsPartial id (requested now o) c'
          one (executes n t i) h' = tt
          one (fills n f) h' = h'
          one (cancels n i) h' = tt
          one (registers n a') h' = tt
