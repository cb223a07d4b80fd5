-- ===== src/Paper/Stranded.antt =====
-- A market order of nexus/internal/execution/paper_broker.go whose context ends during the delay.
use Prim.Native.String.{◌++◌ as append}
use mathlib.Core.Bool.{true≢false}
use mmh.Prelude.{
  mem, ◌≡◌, refl, ap, sym, subst, ◌∙◌, inl, inr, ◌≢◌, ℕ, String, Bool, true, false, ◌&&◌, some,
  List, [], ◌∷◌, arith, ltb, lookup, lookup-insert_self, Bool-cases, str_eq, str_eq_iff,
}
use mmh.Numbers.{Numbers}
use mmh.Order.{acked, Order, OrderIntent, transition, new_order}
use mmh.Paper.{
  accept, PaperBroker, Context, submit_order, simulate_fill, cancel_order, new_paper_broker,
}
use mmh.Paper.Pending.{
  accepted_order, accepted_order-acked, Keeps, IsSound, submit_order-Keeps, simulate_fill-Keeps,
  submit_order-duplicate, submit_order-seen, submit_order-IsSound, not_pending,
}
use mmh.Paper.Live.{
  Call, submits, fills_at, cancels, step, run, step-IsSound, run-IsSound, new_paper_broker-IsSound,
  cancel_order-Cancels, cancelled-Keeps,
}

module _ ⦃N : Numbers⦄ where
  stranded :
      (print : ℕ → String) (x : Context) (intent : OrderIntent) (pb : PaperBroker)
      → mem intent.intent_id pb.seen_intents ≡ false
      → str_eq intent.order_type "market" ≡ true
      → (ltb 0 pb.fill_delay && x.done) ≡ true
      → (lookup intent.intent_id (submit_order print x intent pb).0.orders
          ≡ some (accepted_order (append "PAPER-" (print pb.next_order_id)) x.now intent))
        × ((submit_order print x intent pb).0.pending ≡ pb.pending)
  unfolding submit_order accept transition new_order
  stranded print x intent pb fresh market ends = (grind (arith, lookup-insert_self), ground arith)

  -- An order that is not pending, of an intent that has been seen.
  pub record IsStuck (id : String) (o : Order) (pb : PaperBroker) : Type 0 where
    pub sound : IsSound pb
    pub known : mem id pb.seen_intents ≡ true
    pub gone : mem id pb.pending ≡ false
    pub stays : lookup id pb.orders ≡ some o

  Keeps-IsStuck :
      (i id : String) (o : Order) (pb pb' : PaperBroker)
      → str_eq i id ≡ false
      → IsStuck id o pb
      → Keeps i pb pb'
      → IsSound pb'
      → IsStuck id o pb'
  Keeps-IsStuck i id o pb pb' other stuck keeps sound' = record {
    sound = sound';
    known = keeps.seen id stuck.known;
    gone = keeps.pending id other ∙ stuck.gone;
    stays = keeps.orders id other ∙ stuck.stays;
  }

  other_key :
      (i id : String) (f : String → Bool) (b c : Bool)
      → b ≢ c
      → f i ≡ b
      → f id ≡ c
      → str_eq i id ≡ false
  other_key i id f b c differ at_i at_id = elim (Bool-cases (str_eq i id)) [
    | inl same ↦ absurd (differ (sym at_i ∙ ap f ((str_eq_iff i id).0 same) ∙ at_id))
    | inr other ↦ other
  ]

  simulate_fill-gone :
      (x : Context) (id : String) (price : N.Decimal) (pb : PaperBroker)
      → mem id pb.pending ≡ false
      → (simulate_fill x id price pb).0 ≡ pb
  unfolding simulate_fill
  simulate_fill-gone x id price pb h = ground (arith, h)

  step-IsStuck :
      (print : ℕ → String) (c : Call) (id : String) (o : Order) (pb : PaperBroker)
      → IsStuck id o pb
      → IsStuck id o (step print c pb)
  unfolding step
  step-IsStuck print (submits x intent) id o pb stuck =
      elim (Bool-cases (mem intent.intent_id pb.seen_intents)) [
        | inl dup ↦ subst (IsStuck id o) (sym (submit_order-duplicate print x intent pb dup)) stuck
        | inr fresh ↦
            Keeps-IsStuck intent.intent_id id o pb (submit_order print x intent pb).0
              (other_key intent.intent_id id (λ k. mem k pb.seen_intents) false true
                (λ e. true≢false (sym e)) fresh stuck.known)
              stuck (submit_order-Keeps print x intent pb)
              (step-IsSound print (submits x intent) pb stuck.sound)
      ]
  step-IsStuck print (fills_at x i price) id o pb stuck = elim (Bool-cases (str_eq i id)) [
    | inl same ↦
        subst (IsStuck id o)
          (sym (
            simulate_fill-gone x i price pb
              (ap (λ k. mem k pb.pending) ((str_eq_iff i id).0 same) ∙ stuck.gone)))
          stuck
    | inr other ↦
        Keeps-IsStuck i id o pb (simulate_fill x i price pb).0 other stuck
          (simulate_fill-Keeps x i price pb)
          (step-IsSound print (fills_at x i price) pb stuck.sound)
  ]
  step-IsStuck print (cancels now order_id) id o pb stuck =
      let sound' = step-IsSound print (cancels now order_id) pb stuck.sound in
      elim (cancel_order-Cancels now order_id pb stuck.sound) [
        | inl (result, others) ↦ subst (λ r. IsStuck id o (r.0)) (sym result) stuck
        | inr (i, among, o', done, result) ↦
            Keeps-IsStuck i id o pb (cancel_order now order_id pb).0
              (other_key i id (λ k. mem k pb.pending) true false true≢false among stuck.gone) stuck
              (subst (λ r. Keeps i pb (r.0)) (sym result) (cancelled-Keeps i o' pb)) sound'
      ]

  run-IsStuck :
      (print : ℕ → String) (cs : List Call) (id : String) (o : Order) (pb : PaperBroker)
      → IsStuck id o pb
      → IsStuck id o (run print cs pb)
  unfolding run
  run-IsStuck print [] id o pb stuck = stuck
  run-IsStuck print (c ∷ cs) id o pb stuck =
      run-IsStuck print cs id o (step print c pb) (step-IsStuck print c id o pb stuck)

  -- The broker after an intent and any calls that follow it.
  abbrev pub afterwards :
      (ℕ → String) → List Call → Context → OrderIntent → PaperBroker → PaperBroker
  afterwards print later x intent pb = run print later (submit_order print x intent pb).0

  accepted_order-fills :
      (id : String) (now : ℕ) (intent : OrderIntent) → (accepted_order id now intent).fills ≡ []
  unfolding mmh.Order.transition mmh.Order.new_order
  accepted_order-fills id now intent = refl

  -- When the context of a new market intent ends during the delay, after any calls of a new broker:
  -- whatever calls follow, its order stays accepted with no fill, and it is not pending, so that
  -- neither a simulated fill nor a cancellation finds it.
  pub stranded_forever :
      (print : ℕ → String) (bps : N.Float) (delay : ℕ) (cs later : List Call) (x : Context)
      (intent : OrderIntent)
      → mem intent.intent_id (run print cs (new_paper_broker bps delay)).seen_intents ≡ false
      → str_eq intent.order_type "market" ≡ true
      → (ltb 0 (run print cs (new_paper_broker bps delay)).fill_delay && x.done) ≡ true
      → (mem intent.intent_id
            (afterwards print later x intent (run print cs (new_paper_broker bps delay))).pending
          ≡ false)
        × ((o : Order) × (lookup intent.intent_id
                (afterwards print later x intent (run print cs (new_paper_broker bps delay))).orders
              ≡ some o)
            × (o.state ≡ acked)
            × (o.fills ≡ []))
  stranded_forever print bps delay cs later x intent fresh market ends =
      let pb = run print cs (new_paper_broker bps delay) in
      let sound =
        run-IsSound print cs (new_paper_broker bps delay) (new_paper_broker-IsSound bps delay) in
      let id = append "PAPER-" (print pb.next_order_id) in
      let o = accepted_order id x.now intent in
      let (at, same) = stranded print x intent pb fresh market ends in
      let stuck =
        run-IsStuck print later intent.intent_id o (submit_order print x intent pb).0 (record {
          sound = submit_order-IsSound print x intent pb sound;
          known = submit_order-seen print x intent pb;
          gone = ap (mem intent.intent_id) same ∙ not_pending intent.intent_id pb sound fresh;
          stays = at;
        }) in
      (
        stuck.gone,
        (
          o,
          stuck.stays,
          accepted_order-acked id x.now intent,
          accepted_order-fills id x.now intent,
        ),
      )
