-- ===== src/Paper/Live.antt =====
-- Cancelling in nexus/internal/execution/paper_broker.go, and the broker over any calls.
use mmh.Prelude.{
  mem, ◌≡◌, refl, ap, sym, subst, ◌∙◌, ◌⊎◌, inl, inr, ℕ, String, true, false, Option, none, some,
  List, [], ◌∷◌, arith, lookup, insert, lookup-insert_ne, Bool-cases, str_eq, str_eq_iff,
}
use mmh.Numbers.{Numbers}
use mathlib.Core.Bool.{true≢false}
use mmh.Order.{
  request_cancel, cancel_ack, no_data, acked, cancelled, Order, OrderIntent, transition,
}
use mmh.Paper.{
  PaperBroker, Context, Error, remove, submit_order, simulate_fill, cancel_found, cancel_among,
  cancel_order, new_paper_broker, order_not_found,
}
use mmh.Paper.Pending.{
  mem-remove, Keeps, IsSound, Keeps-IsSound, submit_order-IsSound, simulate_fill-IsSound,
}

module _ ⦃N : Numbers⦄ where
  -- An accepted order is cancelled without an error.
  cancel_found-acked :
      (now : ℕ) (id : String) (o : Order) (pb : PaperBroker)
      → o.state ≡ acked
      → (o' : Order) × (o'.state ≡ cancelled)
        × (cancel_found now id o pb
            ≡ (record pb { orders = insert id o' pb.orders; pending = remove id pb.pending }, none))
  unfolding cancel_found transition
  cancel_found-acked now id o pb live = (
    (transition cancel_ack no_data now (transition request_cancel no_data now o).0).0,
    ground (arith, live),
    ground (arith, live),
  )

  -- What `CancelOrder` does: it finds no such order, or it cancels the order that it finds.
  abbrev pub Cancels : ℕ → String → List String → PaperBroker → PaperBroker × Option Error → Type 0
  Cancels now order_id ids pb result =
      ((result ≡ (pb, some (order_not_found order_id)))
        × ((j : String) (o : Order)
            → mem j ids ≡ true
            → lookup j pb.orders ≡ some o
            → str_eq o.order_id order_id ≡ false))
      ⊎ ((id : String) × (mem id ids ≡ true)
          × (o' : Order) × (o'.state ≡ cancelled)
          × (result ≡ (
            record pb { orders = insert id o' pb.orders; pending = remove id pb.pending },
            none,
          )))

  cancel_among-Cancels :
      (now : ℕ) (order_id : String) (ids : List String) (pb : PaperBroker)
      → ((id : String)
          → mem id ids ≡ true
          → (o : Order) × (lookup id pb.orders ≡ some o) × (o.state ≡ acked))
      → Cancels now order_id ids pb (cancel_among now order_id ids pb)
  unfolding cancel_among
  cancel_among-Cancels now order_id [] pb live = inl (refl, λ j o h at. cc)
  cancel_among-Cancels now order_id (id ∷ ids) pb live =
      let (o, at, state) = live id (ground (arith, (str_eq_iff id id).1 refl)) in
      let rest = cancel_among-Cancels now order_id ids pb (λ j h. live j (ground (arith, h))) in
      elim (Bool-cases (str_eq o.order_id order_id)) [
        | inl found ↦
            let (o', done, result) = cancel_found-acked now id o pb state in
            inr (
              id,
              ground (arith, (str_eq_iff id id).1 refl),
              o',
              done,
              ground (arith, at, found, result),
            )
        | inr other ↦
            let skip : cancel_among now order_id (id ∷ ids) pb ≡ cancel_among now order_id ids pb =
              ground (arith, at, other) in
            elim rest [
              | inl (none_found, others) ↦ inl (
                skip ∙ none_found,
                λ j o2 h at2. ground (arith, others j o2, h, at2, at, other, str_eq_iff id j),
              )
              | inr (i, among, o', done, result) ↦
                  inr (i, ground (arith, among), o', done, skip ∙ result)
            ]
      ]

  pub cancel_order-Cancels :
      (now : ℕ) (order_id : String) (pb : PaperBroker)
      → IsSound pb
      → Cancels now order_id pb.pending pb (cancel_order now order_id pb)
  unfolding cancel_order
  cancel_order-Cancels now order_id pb sound =
      cancel_among-Cancels now order_id pb.pending pb sound.live

  pub cancelled-Keeps :
      (id : String) (o' : Order) (pb : PaperBroker)
      → Keeps id pb (record pb { orders = insert id o' pb.orders; pending = remove id pb.pending })
  cancelled-Keeps id o' pb = record {
    orders = λ j other. lookup-insert_ne id j o' pb.orders other;
    pending = λ j other. ground (arith, other, mem-remove j id pb.pending);
    seen = λ j h. h;
  }

  cancel_order-IsSound :
      (now : ℕ) (order_id : String) (pb : PaperBroker)
      → IsSound pb
      → IsSound (cancel_order now order_id pb).0
  cancel_order-IsSound now order_id pb sound = elim (cancel_order-Cancels now order_id pb sound) [
    | inl (result, others) ↦ subst (λ r. IsSound (r.0)) (sym result) sound
    | inr (id, among, o', done, result) ↦
        let pb' : PaperBroker = record pb {
          orders = insert id o' pb.orders;
          pending = remove id pb.pending;
        } in
        subst (λ r. IsSound (r.0)) (sym result)
          (Keeps-IsSound id pb pb' sound (cancelled-Keeps id o' pb) (λ h. absurd (
            true≢false
              (sym h ∙ ground (arith, mem-remove id id pb.pending, (str_eq_iff id id).1 refl)))))
  ]

  -- The calls that change the broker.
  pub data Call : Type 0 where
    submits : Context → OrderIntent → Call
    fills_at : Context → String → N.Decimal → Call
    cancels : ℕ → String → Call

  unfoldable pub step : (ℕ → String) → Call → PaperBroker → PaperBroker
  step print (submits x intent) pb = (submit_order print x intent pb).0
  step print (fills_at x id price) pb = (simulate_fill x id price pb).0
  step print (cancels now order_id) pb = (cancel_order now order_id pb).0

  unfoldable pub run : (ℕ → String) → List Call → PaperBroker → PaperBroker
  run print [] pb = pb
  run print (c ∷ cs) pb = run print cs (step print c pb)

  pub step-IsSound :
      (print : ℕ → String) (c : Call) (pb : PaperBroker) → IsSound pb → IsSound (step print c pb)
  unfolding step
  step-IsSound print (submits x intent) pb s = submit_order-IsSound print x intent pb s
  step-IsSound print (fills_at x id price) pb s = simulate_fill-IsSound x id price pb s
  step-IsSound print (cancels now order_id) pb s = cancel_order-IsSound now order_id pb s

  pub run-IsSound :
      (print : ℕ → String) (cs : List Call) (pb : PaperBroker)
      → IsSound pb
      → IsSound (run print cs pb)
  unfolding run
  run-IsSound print [] pb s = s
  run-IsSound print (c ∷ cs) pb s =
      run-IsSound print cs (step print c pb) (step-IsSound print c pb s)

  pub new_paper_broker-IsSound : (bps : N.Float) (delay : ℕ) → IsSound (new_paper_broker bps delay)
  unfolding new_paper_broker
  new_paper_broker-IsSound bps delay = record { live = λ id h. cc; known = λ id h. cc }

  -- After any calls of a new broker, an intent that is pending has been seen and has an order that
  -- is accepted, and to cancel by the id of that order reports no error.
  pub pending_can_be_cancelled :
      (print : ℕ → String) (bps : N.Float) (delay : ℕ) (cs : List Call) (id : String) (now : ℕ)
      → mem id (run print cs (new_paper_broker bps delay)).pending ≡ true
      → (mem id (run print cs (new_paper_broker bps delay)).seen_intents ≡ true)
        × ((o : Order) × (lookup id (run print cs (new_paper_broker bps delay)).orders ≡ some o)
            × (o.state ≡ acked)
            × ((cancel_order now o.order_id (run print cs (new_paper_broker bps delay))).1 ≡ none))
  pending_can_be_cancelled print bps delay cs id now h =
      let pb = run print cs (new_paper_broker bps delay) in
      let sound =
        run-IsSound print cs (new_paper_broker bps delay) (new_paper_broker-IsSound bps delay) in
      let (o, at, state) = sound.live id h in
      (
        sound.known id h,
        (
          o,
          at,
          state,
          elim (cancel_order-Cancels now o.order_id pb sound) [
            | inl (result, others) ↦
                absurd
                  (true≢false (sym ((str_eq_iff o.order_id o.order_id).1 refl) ∙ others id o h at))
            | inr (i, among, o', done, result) ↦ ap (λ r. r.1) result
          ],
        ),
      )
