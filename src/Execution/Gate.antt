-- ===== src/Execution/Gate.antt =====
-- The risk gate and the guard against duplicates of nexus/internal/execution/engine.go.
use mmh.Prelude.{
  ◌≡◌, refl, ◌⊎◌, ℕ, true, false, Option, none, some, String, [], ◌∷◌, ◌++◌, arith, lookup, insert,
  lookup-insert_self, Map, subst, sym, ap, ◌∙◌,
}
use mmh.Numbers.{Numbers}
use mmh.Order.{OrderIntent, Order, transition, new_order, acked, rejected}
use mmh.Risk.{check}
use mmh.Execution.{Engine, submitted_order, execute_intent, place, risk_allow, risk_denied}

module _ ⦃N : Numbers⦄ where
  -- The calls that the exchanges have seen grow by at most one submission of this very intent, and
  -- only if the risk engine allows it, no order has its id, and the engine is not in dry run.
  pub execute_intent_gate :
      (now : ℕ) (trace : String) (intent : OrderIntent) (e : Engine)
      → let e' = (execute_intent now trace intent e).0 in
        (e'.calls ≡ e.calls)
        ⊎ ((e'.calls ≡ e.calls ++ (submitted_order intent ∷ []))
            × ((check intent now e.risk_engine).1.allowed ≡ true)
            × (e.dry_run ≡ false)
            × (lookup intent.intent_id e.orders ≡ none))
  unfolding execute_intent
  execute_intent_gate now trace intent e = ground arith

  -- An intent whose id has an order already is skipped: nothing changes and there is no error.
  pub execute_intent_known :
      (now : ℕ) (trace : String) (intent : OrderIntent) (e : Engine) {o : Order}
      → lookup intent.intent_id e.orders ≡ some o
      → execute_intent now trace intent e ≡ (e, none)
  unfolding execute_intent
  execute_intent_known now trace intent e h = ground arith

  -- An order of the intent that the exchange has accepted or refused, with no fill yet.
  abbrev pub IsPlaced : OrderIntent → Option Order → Type 0
  IsPlaced intent none = ⊥
  IsPlaced intent (some o) =
      ((o.state ≡ acked) ⊎ (o.state ≡ rejected))
      × (o.filled_qty ≡ N.zero)
      × (o.qty ≡ intent.qty)
      × (o.fills ≡ [])

  IsPlaced-insert :
      (intent : OrderIntent) (o : Order) (m : Map Order)
      → IsPlaced intent (some o)
      → IsPlaced intent (lookup intent.intent_id (insert intent.intent_id o m))
  IsPlaced-insert intent o m h =
      subst (IsPlaced intent) (sym (lookup-insert_self intent.intent_id o m)) h

  place-IsPlaced :
      (now : ℕ) (intent : OrderIntent) (e : Engine)
      → lookup intent.intent_id e.orders ≡ none
      → IsPlaced intent (lookup intent.intent_id (place now intent e).0.orders)
  unfolding place transition new_order
  place-IsPlaced now intent e h = grind (arith, IsPlaced-insert)

  IsPlaced-found :
      (intent : OrderIntent) (o : Option Order) → IsPlaced intent o → (x : Order) × (o ≡ some x)
  IsPlaced-found intent none h = absurd h
  IsPlaced-found intent (some x) h = (x, refl)

  -- The engine when the risk engine has allowed the intent.
  abbrev cleared : ℕ → String → OrderIntent → Engine → Engine
  cleared now trace intent e = record e {
    risk_engine = (check intent now e.risk_engine).0;
    published = e.published ++ (risk_allow intent.intent_id trace ∷ []);
  }

  execute_intent_allowed :
      (now : ℕ) (trace : String) (intent : OrderIntent) (e : Engine)
      → lookup intent.intent_id e.orders ≡ none
      → (check intent now e.risk_engine).1.allowed ≡ true
      → execute_intent now trace intent e ≡ place now intent (cleared now trace intent e)
  unfolding execute_intent
  execute_intent_allowed now trace intent e h a = ground arith

  execute_intent_new :
      (now : ℕ) (trace : String) (intent : OrderIntent) (e : Engine)
      → lookup intent.intent_id e.orders ≡ none
      → (check intent now e.risk_engine).1.allowed ≡ true
      → IsPlaced intent (lookup intent.intent_id (execute_intent now trace intent e).0.orders)
  execute_intent_new now trace intent e h a =
      subst (λ r. IsPlaced intent (lookup intent.intent_id (r.0).orders))
        (sym (execute_intent_allowed now trace intent e h a))
        (place-IsPlaced now intent (cleared now trace intent e) h)

  -- A new intent that the risk engine allows ends as one order that the exchange (or the dry run) has
  -- accepted or that is rejected, of the intent's quantity and with no fill; and to execute an intent
  -- of that id once more, at any time and whatever the risk engine would say, changes nothing.
  pub execute_intent_idempotent :
      (now now' : ℕ) (trace trace' : String) (intent again : OrderIntent) (e : Engine)
      → lookup intent.intent_id e.orders ≡ none
      → (check intent now e.risk_engine).1.allowed ≡ true
      → again.intent_id ≡ intent.intent_id
      → let e' = (execute_intent now trace intent e).0 in
        IsPlaced intent (lookup intent.intent_id e'.orders)
        × (execute_intent now' trace' again e' ≡ (e', none))
  execute_intent_idempotent now now' trace trace' intent again e h a s =
      let e' = (execute_intent now trace intent e).0 in
      let placed = execute_intent_new now trace intent e h a in
      let (o, found) = IsPlaced-found intent (lookup intent.intent_id e'.orders) placed in
      (placed, execute_intent_known now' trace' again e' (ap (λ id. lookup id e'.orders) s ∙ found))

  -- An intent that the risk engine denies makes no order and no call, and the error carries the
  -- reasons of the decision.
  pub execute_intent_denied :
      (now : ℕ) (trace : String) (intent : OrderIntent) (e : Engine)
      → lookup intent.intent_id e.orders ≡ none
      → (check intent now e.risk_engine).1.allowed ≡ false
      → let (e', err) = execute_intent now trace intent e in
        (err ≡ some (risk_denied intent.intent_id (check intent now e.risk_engine).1.reason_codes))
        × (e'.orders ≡ e.orders)
        × (e'.calls ≡ e.calls)
        × (e'.pos_mgr ≡ e.pos_mgr)
  unfolding execute_intent
  execute_intent_denied now trace intent e h d = ground arith
