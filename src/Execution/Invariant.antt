-- ===== src/Execution/Invariant.antt =====
-- What holds of every order of the engine of nexus/internal/execution/engine.go between two calls.
use mmh.Prelude.{
  ◌≡◌, ℕ, some, String, List, [], ◌∷◌, arith, lookup, insert, Map, Holds, Holds-insert,
  Holds-lookup, subst, sym,
}
use mmh.Numbers.{Numbers}
use mmh.Order.{OrderIntent, Order, OrderEvent, EventData, transition, new_order}
use mmh.Order.Diagram.{IsTracked, transition-IsTracked}
use mmh.Order.Fills.{IsValid, new_order-IsValid, transition-IsValid}
use mmh.Position.{Fill}
use mmh.Execution.{
  Engine, Call, executes, fills, cancels, registers, step, run, execute_intent, handle_fill,
  cancel_order, register_adapter,
}

module _ ⦃N : Numbers⦄ where
  -- What an order is between two transitions.
  pub record IsSound (o : Order) : Type 0 where
    pub tracked : IsTracked o
    pub valid : IsValid o

  pub new_order-IsSound : (now : ℕ) (intent : OrderIntent) → IsSound (new_order now intent)
  unfolding new_order
  new_order-IsSound now intent = record {
    tracked = ground arith;
    valid = new_order-IsValid now intent;
  }

  pub transition-IsSound :
      (ev : OrderEvent) (d : EventData) (now : ℕ) (o : Order)
      → IsSound o
      → IsSound (transition ev d now o).0
  transition-IsSound ev d now o s = record {
    tracked = transition-IsTracked ev d now o s.tracked;
    valid = transition-IsValid ev d now o s.valid;
  }

  abbrev pub AllSound : Engine → Type 0
  AllSound e = Holds IsSound e.orders

  pub put-AllSound :
      (id : String) (o : Order) (m : Map Order)
      → IsSound o
      → Holds IsSound m
      → Holds IsSound (insert id o m)
  put-AllSound id o m p h = Holds-insert IsSound id o m p h

  pub found-IsSound :
      (id : String) (m : Map Order) (o : Order) → Holds IsSound m → lookup id m ≡ some o → IsSound o
  found-IsSound id m o h e = Holds-lookup IsSound id m h e

  ruleset sound = (arith, new_order-IsSound, transition-IsSound, put-AllSound, found-IsSound)

  execute_intent-AllSound :
      (now : ℕ) (trace : String) (intent : OrderIntent) (e : Engine)
      → AllSound e
      → AllSound (execute_intent now trace intent e).0
  unfolding execute_intent
  execute_intent-AllSound now trace intent e h = grind sound

  handle_fill-AllSound :
      (now : ℕ) (f : Fill) (e : Engine) → AllSound e → AllSound (handle_fill now f e).0
  unfolding handle_fill
  handle_fill-AllSound now f e h = grind sound

  cancel_order-AllSound :
      (now : ℕ) (id : String) (e : Engine) → AllSound e → AllSound (cancel_order now id e).0
  unfolding cancel_order
  cancel_order-AllSound now id e h = grind sound

  step-AllSound : (c : Call) (e : Engine) → AllSound e → AllSound (step c e)
  unfolding step register_adapter
  step-AllSound (executes now trace intent) e h = execute_intent-AllSound now trace intent e h
  step-AllSound (fills now f) e h = handle_fill-AllSound now f e h
  step-AllSound (cancels now id) e h = cancel_order-AllSound now id e h
  step-AllSound (registers name a) e h = h

  pub run-AllSound : (cs : List Call) (e : Engine) → AllSound e → AllSound (run cs e)
  unfolding run
  run-AllSound [] e h = h
  run-AllSound (c ∷ cs) e h = run-AllSound cs (step c e) (step-AllSound c e h)

  -- After any calls of an engine that starts with no orders, and whatever the exchanges answer, every
  -- order that it holds is in a state of the diagram that its fills agree with, its filled quantity
  -- is the sum of its positive fills, and once it has a fill it is not filled beyond its quantity.
  pub run_from_empty :
      (cs : List Call) (e : Engine) (id : String) {o : Order}
      → e.orders ≡ []
      → lookup id (run cs e).orders ≡ some o
      → IsSound o
  run_from_empty cs e id {o} h f =
      found-IsSound id (run cs e).orders o (run-AllSound cs e (subst (Holds IsSound) (sym h) tt)) f
