-- ===== src/Order/Fills.antt =====
-- What the fills recorded by nexus/internal/execution/order_sm.go add up to.
use mmh.Prelude.{
  ◌≡◌, refl, Bool, true, false, Option, some, ℕ, List, [], ◌∷◌, ◌++◌, foldl, arith, All,
}
use mmh.Numbers.{Numbers, positive}
use mmh.Order.{
  OrderState, created, submitted, acked, partial_filled, filled, rejected, cancel_pending,
  cancelled, cancel_rejected, OrderEvent, FillRecord, OrderIntent, Order, EventData, no_data,
  ack_data, fill_data, Input, new_order, transition, run,
}

abbrev pub is_cons {ℓ} : {A : Type ℓ} → List A → Bool
is_cons [] = false
is_cons (x ∷ xs) = true

-- What the state says of the list of fills, with the state before a cancellation where one is
-- pending.
abbrev pub Shows {ℓ} : {A : Type ℓ} → OrderState → Option OrderState → List A → Type 0
Shows created b l = is_cons l ≡ false
Shows submitted b l = is_cons l ≡ false
Shows acked b l = is_cons l ≡ false
Shows rejected b l = is_cons l ≡ false
Shows partial_filled b l = is_cons l ≡ true
Shows filled b l = is_cons l ≡ true
Shows cancel_pending (some acked) l = is_cons l ≡ false
Shows cancel_pending (some partial_filled) l = is_cons l ≡ true
Shows cancel_pending _ l = ⊥
Shows cancelled b l = Unit
Shows cancel_rejected b l = ⊥

module _ ⦃N : Numbers⦄ where
  abbrev add_fill : N.Decimal → FillRecord → N.Decimal
  add_fill sum fr = N.add sum fr.qty

  abbrev pub total : List FillRecord → N.Decimal
  total = foldl add_fill N.zero

  foldl-add_fill-append :
      (frs : List FillRecord) (sum : N.Decimal) (fr : FillRecord)
      → foldl add_fill sum (frs ++ (fr ∷ [])) ≡ N.add (foldl add_fill sum frs) fr.qty
  foldl-add_fill-append [] sum fr = refl
  foldl-add_fill-append (x ∷ frs) sum fr = foldl-add_fill-append frs (N.add sum x.qty) fr

  All-append_one :
      (frs : List FillRecord) (fr : FillRecord)
      → All (λ x. N.sign x.qty ≡ positive) frs
      → N.sign fr.qty ≡ positive
      → All (λ x. N.sign x.qty ≡ positive) (frs ++ (fr ∷ []))
  All-append_one [] fr h p = (p, tt)
  All-append_one (x ∷ frs) fr h p = (h.0, All-append_one frs fr h.1 p)

  is_cons-append : (frs : List FillRecord) (fr : FillRecord) → is_cons (frs ++ (fr ∷ [])) ≡ true
  is_cons-append [] fr = refl
  is_cons-append (x ∷ frs) fr = refl

  -- An order between two transitions: the filled quantity is the sum of the recorded fills, each of
  -- them positive; once there is a fill it does not exceed the order; and unless the order is
  -- cancelled, the state tells whether there is one, where a cancellation is pending with the state
  -- before it.
  pub record IsValid (o : Order) : Type 0 where
    pub filled_total : o.filled_qty ≡ total o.fills
    pub fills_positive : All (λ fr. N.sign fr.qty ≡ positive) o.fills
    pub within_order : is_cons o.fills ≡ true → N.greater_than o.filled_qty o.qty ≡ false
    pub state_shows : Shows o.state o.state_before_cancel o.fills

  pub new_order-IsValid : (now : ℕ) (intent : OrderIntent) → IsValid (new_order now intent)
  unfolding new_order
  new_order-IsValid now intent = ground arith

  pub transition-IsValid :
      (e : OrderEvent) (d : EventData) (now : ℕ) (o : Order)
      → IsValid o
      → IsValid (transition e d now o).0
  unfolding transition
  transition-IsValid e no_data now o v = ground arith
  transition-IsValid e (ack_data id) now o v = ground arith
  transition-IsValid e (fill_data fr) now o v = ground (
    arith,
    foldl-add_fill-append o.fills N.zero fr,
    All-append_one o.fills fr v.fills_positive,
    is_cons-append o.fills fr,
  )

  run_from-IsValid : (o : Order) (is : List Input) → IsValid o → IsValid (run o is)
  unfolding run
  run_from-IsValid o [] v = v
  run_from-IsValid o (i ∷ is) v =
      run_from-IsValid (transition i.event i.payload i.now o).0 is
        (transition-IsValid i.event i.payload i.now o v)

  -- After any calls of `Transition` on a new order, its filled quantity is the sum of its recorded
  -- fills, each positive; it is not filled beyond its quantity once it has a fill; and unless it is
  -- cancelled, its state tells whether it has one, where a cancellation is pending with the state
  -- before it.
  pub run-IsValid :
      (now : ℕ) (intent : OrderIntent) (is : List Input) → IsValid (run (new_order now intent) is)
  run-IsValid now intent is =
      run_from-IsValid (new_order now intent) is (new_order-IsValid now intent)
