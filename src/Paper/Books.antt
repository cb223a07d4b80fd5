-- ===== src/Paper/Books.antt =====
-- The orders of nexus/internal/execution/paper_broker.go, in whatever state they are.
use mmh.Prelude.{arith}
use mmh.Numbers.{Numbers}
use mmh.Order.{Order}
use mmh.Execution.Invariant.{new_order-IsSound, transition-IsSound, put-AllSound, found-IsSound}

module _ ⦃N : Numbers⦄ where
  ruleset sound = (arith, new_order-IsSound, transition-IsSound, put-AllSound, found-IsSound)
