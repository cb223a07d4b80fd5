-- ===== src/Risk/Policies.antt =====
-- When nexus/internal/risk/engine.go lets an order through.
use mmh.Prelude.{◌≡◌, ◌↔◌, ℕ, ◌+◌, true, false, [], arith}
use mmh.Numbers.{Numbers}
use mmh.Order.{OrderIntent}
use mmh.Risk.{Engine, loses_too_much, exceeds_exposure, exceeds_order, exceeds_position, check}

module _ ⦃N : Numbers⦄ where
  -- An order is allowed exactly when the engine is neither killed nor frozen and none of the four
  -- tests of the policies holds.
  pub check-allowed_iff :
      (intent : OrderIntent) (now : ℕ) (e : Engine)
      → ((check intent now e).1.allowed ≡ true) ↔ (
          (e.killed ≡ false)
          × (e.frozen ≡ false)
          × (loses_too_much e ≡ false)
          × (exceeds_exposure e intent ≡ false)
          × (exceeds_order e intent ≡ false)
          × (exceeds_position e intent ≡ false))
  unfolding check
  check-allowed_iff intent now e = (λ h. ground arith, λ h. ground arith)

  -- A decision carries reasons exactly when it denies, and names the intent; the check changes
  -- nothing but one of two counters, and no counter while the engine is killed or frozen.
  pub check_effect :
      (intent : OrderIntent) (now : ℕ) (e : Engine)
      → let (e', d) = check intent now e in
        ((d.allowed ≡ true) ↔ (d.reason_codes ≡ []))
        × (d.intent_id ≡ intent.intent_id)
        × (e' ≡ record e { allowed = e'.allowed; denied = e'.denied })
        × (e.killed ≡ false → e.frozen ≡ false → e'.allowed + e'.denied ≡ e.allowed + e.denied + 1)
        × (d.allowed ≡ true → e'.allowed ≡ e.allowed + 1)
  unfolding check
  check_effect intent now e = (
    (λ h. ground arith, λ h. ground arith),
    ground arith,
    ground arith,
    ground arith,
    ground arith,
  )
