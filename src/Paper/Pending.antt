-- ===== src/Paper/Pending.antt =====
-- The pending orders of nexus/internal/execution/paper_broker.go.
use Prim.Native.String.{◌++◌ as append}
use mmh.Prelude.{
  mem, ◌≡◌, refl, sym, subst, ◌∙◌, ◌⊎◌, inl, inr, ℕ, String, true, false, ◌||◌, some, List, [], ◌∷◌,
  ◌++◌, arith, lookup, lookup-insert_self, lookup-insert_ne, Bool-cases, str_eq, str_eq_iff,
  if◌then◌else◌,
}
use mmh.Numbers.{Numbers}
use mathlib.Core.Bool.{true≢false}
use mmh.Order.{submit, ack, no_data, ack_data, acked, Order, OrderIntent, transition, new_order}
use mmh.Paper.{
  PaperBroker, Context, remove, execute_market_fill, accept, submit_order, simulate_fill,
}

mem-append :
    (id y : String) (xs : List String) → mem id (xs ++ (y ∷ [])) ≡ (mem id xs || str_eq y id)
mem-append id y [] = ground arith
mem-append id y (x ∷ xs) = ground (arith, mem-append id y xs)

pub mem-remove :
    (id y : String) (xs : List String)
    → mem id (remove y xs) ≡ (if str_eq y id then false else mem id xs)
mem-remove id y [] = ground arith
mem-remove id y (x ∷ xs) =
    ground (arith, mem-remove id y xs, str_eq_iff x y, str_eq_iff y id, str_eq_iff x id)

module _ ⦃N : Numbers⦄ where
  -- Nothing but the order of `id` has changed.
  pub record Keeps (id : String) (pb pb' : PaperBroker) : Type 0 where
    pub orders : (j : String) → str_eq id j ≡ false → lookup j pb'.orders ≡ lookup j pb.orders
    pub pending : (j : String) → str_eq id j ≡ false → mem j pb'.pending ≡ mem j pb.pending
    pub seen : (j : String) → mem j pb.seen_intents ≡ true → mem j pb'.seen_intents ≡ true

  pub submit_order-Keeps :
      (print : ℕ → String) (x : Context) (intent : OrderIntent) (pb : PaperBroker)
      → Keeps intent.intent_id pb (submit_order print x intent pb).0
  unfolding submit_order accept execute_market_fill
  submit_order-Keeps print x intent pb = record {
    orders = λ j other. grind (arith, lookup-insert_ne);
    pending = λ j other. ground (arith, other, mem-append j intent.intent_id pb.pending);
    seen = λ j h. ground (arith, h);
  }

  pub simulate_fill-Keeps :
      (x : Context) (id : String) (price : N.Decimal) (pb : PaperBroker)
      → Keeps id pb (simulate_fill x id price pb).0
  unfolding simulate_fill
  simulate_fill-Keeps x id price pb = record {
    orders = λ j other. grind (arith, lookup-insert_ne);
    pending = λ j other. ground (arith, other, mem-remove j id pb.pending);
    seen = λ j h. ground (arith, h);
  }

  -- Every pending order is accepted, and its intent has been seen.
  pub record IsSound (pb : PaperBroker) : Type 0 where
    pub live :
        (id : String)
        → mem id pb.pending ≡ true
        → (o : Order) × (lookup id pb.orders ≡ some o) × (o.state ≡ acked)
    pub known : (id : String) → mem id pb.pending ≡ true → mem id pb.seen_intents ≡ true

  same_key : (id j : String) → str_eq id j ≡ true → id ≡ j
  same_key id j h = (str_eq_iff id j).0 h

  -- A change of one order keeps soundness if the order is pending only when it is accepted.
  pub Keeps-IsSound :
      (id : String) (pb pb' : PaperBroker)
      → IsSound pb
      → Keeps id pb pb'
      → (mem id pb'.pending ≡ true
          → ((o : Order) × (lookup id pb'.orders ≡ some o) × (o.state ≡ acked))
            × (mem id pb'.seen_intents ≡ true))
      → IsSound pb'
  Keeps-IsSound id pb pb' sound keeps self = record {
    live = λ j h. elim (Bool-cases (str_eq id j)) [
      | inl same ↦
          subst (λ k. (o : Order) × (lookup k pb'.orders ≡ some o) × (o.state ≡ acked))
            (same_key id j same) (self (rw (same_key id j same) h)).0
      | inr other ↦
          let (o, at, state) = sound.live j (sym (keeps.pending j other) ∙ h) in
          (o, keeps.orders j other ∙ at, state)
    ];
    known = λ j h. elim (Bool-cases (str_eq id j)) [
      | inl same ↦
          subst (λ k. mem k pb'.seen_intents ≡ true) (same_key id j same)
            (self (rw (same_key id j same) h)).1
      | inr other ↦ keeps.seen j (sound.known j (sym (keeps.pending j other) ∙ h))
    ];
  }

  pub submit_order-seen :
      (print : ℕ → String) (x : Context) (intent : OrderIntent) (pb : PaperBroker)
      → mem intent.intent_id (submit_order print x intent pb).0.seen_intents ≡ true
  unfolding submit_order accept execute_market_fill transition new_order
  submit_order-seen print x intent pb =
      ground (arith, (str_eq_iff intent.intent_id intent.intent_id).1 refl)

  pub submit_order-duplicate :
      (print : ℕ → String) (x : Context) (intent : OrderIntent) (pb : PaperBroker)
      → mem intent.intent_id pb.seen_intents ≡ true
      → (submit_order print x intent pb).0 ≡ pb
  unfolding submit_order
  submit_order-duplicate print x intent pb h = ground (arith, h)

  -- The order that `SubmitOrder` accepts.
  abbrev pub accepted_order : String → ℕ → OrderIntent → Order
  accepted_order id now intent =
      (transition ack (ack_data id) now (transition submit no_data now (new_order now intent)).0).0

  submit_order-pending :
      (print : ℕ → String) (x : Context) (intent : OrderIntent) (pb : PaperBroker)
      → mem intent.intent_id pb.seen_intents ≡ false
      → mem intent.intent_id pb.pending ≡ false
      → mem intent.intent_id (submit_order print x intent pb).0.pending ≡ true
      → lookup intent.intent_id (submit_order print x intent pb).0.orders
        ≡ some (accepted_order (append "PAPER-" (print pb.next_order_id)) x.now intent)
  unfolding submit_order accept execute_market_fill transition new_order
  submit_order-pending print x intent pb fresh absent h = grind (arith, lookup-insert_self)

  pub accepted_order-acked :
      (id : String) (now : ℕ) (intent : OrderIntent) → (accepted_order id now intent).state ≡ acked
  unfolding transition new_order
  accepted_order-acked id now intent = refl

  pub not_pending :
      (id : String) (pb : PaperBroker)
      → IsSound pb
      → mem id pb.seen_intents ≡ false
      → mem id pb.pending ≡ false
  not_pending id pb sound fresh = elim (Bool-cases (mem id pb.pending)) [
    | inl h ↦ absurd (true≢false (sym (sound.known id h) ∙ fresh))
    | inr h ↦ h
  ]

  pub submit_order-IsSound :
      (print : ℕ → String) (x : Context) (intent : OrderIntent) (pb : PaperBroker)
      → IsSound pb
      → IsSound (submit_order print x intent pb).0
  submit_order-IsSound print x intent pb sound =
      elim (Bool-cases (mem intent.intent_id pb.seen_intents)) [
        | inl dup ↦ subst IsSound (sym (submit_order-duplicate print x intent pb dup)) sound
        | inr fresh ↦
            let o = accepted_order (append "PAPER-" (print pb.next_order_id)) x.now intent in
            Keeps-IsSound intent.intent_id pb (submit_order print x intent pb).0 sound
              (submit_order-Keeps print x intent pb)
              (λ h. (
                (
                  o,
                  submit_order-pending print x intent pb fresh
                      (not_pending intent.intent_id pb sound fresh) h,
                  accepted_order-acked (append "PAPER-" (print pb.next_order_id)) x.now intent,
                ),
                submit_order-seen print x intent pb,
              ))
      ]

  simulate_fill-removes :
      (x : Context) (id : String) (price : N.Decimal) (pb : PaperBroker)
      → ((simulate_fill x id price pb).0 ≡ pb)
        ⊎ (mem id (simulate_fill x id price pb).0.pending ≡ false)
  unfolding simulate_fill
  simulate_fill-removes x id price pb =
      ground (arith, mem-remove id id pb.pending, (str_eq_iff id id).1 refl)

  pub simulate_fill-IsSound :
      (x : Context) (id : String) (price : N.Decimal) (pb : PaperBroker)
      → IsSound pb
      → IsSound (simulate_fill x id price pb).0
  simulate_fill-IsSound x id price pb sound = elim (simulate_fill-removes x id price pb) [
    | inl same ↦ subst IsSound (sym same) sound
    | inr gone ↦
        Keeps-IsSound id pb (simulate_fill x id price pb).0 sound
          (simulate_fill-Keeps x id price pb) (λ h. absurd (true≢false (sym h ∙ gone)))
  ]
