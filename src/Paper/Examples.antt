-- ===== src/Paper/Examples.antt =====
-- Tests of the paper broker on whole numbers, and the theorems at concrete calls. The names of orders
-- are written for two numbers.
use mmh.Prelude.{
  mem, ◌≡◌, refl, ℕ, zero, suc, String, true, false, Option, none, some, List, [], ◌∷◌, ◌++◌,
  lookup, length,
}
use mmh.Prelude.Int.{pos, ◌+ℤ◌, ◌-ℤ◌, ◌*ℤ◌, ◌/ℤ◌}
use mmh.Numbers.Whole.{whole}
use mmh.Order.{acked, filled, cancelled, Order, OrderIntent}
use mmh.Order.Examples.{sample_intent}
use mmh.Paper.{
  PaperBroker, Context, fill_record, apply_slippage, new_paper_broker, submit_order, cancel_order,
}
use mmh.Paper.Live.{Call, submits, fills_at, cancels, run, pending_can_be_cancelled}
use mmh.Paper.Stranded.{afterwards, stranded_forever}

abbrev print : ℕ → String
print zero = "0"
print (suc zero) = "1"
print _ = "2"

abbrev context : Context
context = record { now = 5; fill_id = "f1"; event_id = "e1"; done = false }

abbrev ended : Context
ended = record context { done = true }

abbrev market_intent : OrderIntent
market_intent = record sample_intent { intent_id = "i2"; order_type = "market" }

abbrev broker : PaperBroker
broker = new_paper_broker (pos 0) 3

abbrev one_limit : List Call
one_limit = submits context sample_intent ∷ []

-- A limit order waits until it is filled.
limit_waits : (run print one_limit broker).pending ≡ "i1" ∷ []
unfolding run mmh.Paper.Live.step submit_order mmh.Paper.accept new_paper_broker
    mmh.Order.transition mmh.Order.new_order mmh.Prelude.insert
limit_waits = refl

filled_limit :
    length
      (run print (submits context sample_intent ∷ fills_at context "i1" (pos 6) ∷ []) broker).fills
    ≡ 1
unfolding run mmh.Paper.Live.step submit_order mmh.Paper.accept mmh.Paper.simulate_fill
    new_paper_broker mmh.Order.transition mmh.Order.new_order mmh.Order.remaining_qty lookup
    mmh.Prelude.insert ◌+ℤ◌ ◌-ℤ◌ ◌*ℤ◌ ◌/ℤ◌
filled_limit = refl

pending_can_be_cancelled_example :
    (mem "i1" (run print one_limit broker).seen_intents ≡ true)
    × ((o : Order) × (lookup "i1" (run print one_limit broker).orders ≡ some o)
        × (o.state ≡ acked)
        × ((cancel_order 6 o.order_id (run print one_limit broker)).1 ≡ none))
unfolding run mmh.Paper.Live.step submit_order mmh.Paper.accept new_paper_broker
    mmh.Order.transition mmh.Order.new_order mmh.Prelude.insert
pending_can_be_cancelled_example = pending_can_be_cancelled print (pos 0) 3 one_limit "i1" 6 refl

stranded_forever_example :
    (mem "i2"
        (afterwards print
          (cancels 7 "PAPER-2" ∷ [])
          ended
          market_intent
          (run print one_limit broker)).pending
      ≡ false)
    × ((o : Order) × (lookup "i2"
            (afterwards print
              (cancels 7 "PAPER-2" ∷ [])
              ended
              market_intent
              (run print one_limit broker)).orders
          ≡ some o)
        × (o.state ≡ acked)
        × (o.fills ≡ []))
unfolding run mmh.Paper.Live.step submit_order mmh.Paper.accept new_paper_broker
    mmh.Order.transition mmh.Order.new_order
stranded_forever_example =
    stranded_forever print (pos 0) 3 one_limit (cancels 7 "PAPER-2" ∷ []) ended market_intent refl
      refl refl

abbrev filled_book : PaperBroker
filled_book = run print (submits context market_intent ∷ one_limit) broker

abbrev market_order : Order
market_order = elim (lookup "i2" filled_book.orders) [
  | none ↦ mmh.Order.new_order 5 market_intent
  | some o ↦ o
]

market_filled : (market_order.state ≡ filled) × (market_order.filled_qty ≡ pos 10)
unfolding run mmh.Paper.Live.step submit_order mmh.Paper.accept new_paper_broker
    mmh.Order.transition mmh.Order.new_order mmh.Prelude.insert lookup mmh.Paper.execute_market_fill
    ◌+ℤ◌ ◌-ℤ◌ ◌*ℤ◌ ◌/ℤ◌
market_filled = (refl, refl)
