-- ===== src/Numbers.antt =====
-- The numbers of the Go code that are not Go code of this repository: `decimal.Decimal` of
-- github.com/shopspring/decimal and the machine's `float64`. Both are parameters: a `Numbers` has
-- the two types and the operations that the modelled code calls, with no laws. Elements of `Decimal`
-- stand for values, so that `decimal.Equal` is equality. What a theorem relies on is one of the
-- records of Numbers/Laws; Numbers/Whole has an instance that runs.
pub mod Laws
pub mod Whole
use mmh.Prelude.{ℕ, Bool}

-- The result of `Decimal.Sign`: -1, 0 or 1.
pub data Sign : Type 0 where
  negative nought positive : Sign

pub record Numbers : Type 1 where
  pub Decimal : Type 0
  pub zero : Decimal
  pub add : Decimal → Decimal → Decimal
  pub sub : Decimal → Decimal → Decimal
  pub mul : Decimal → Decimal → Decimal
  pub div : Decimal → Decimal → Decimal
  pub neg : Decimal → Decimal
  pub abs : Decimal → Decimal
  pub sign : Decimal → Sign
  pub greater_than : Decimal → Decimal → Bool
  pub less_than : Decimal → Decimal → Bool
  pub greater_than_or_equal : Decimal → Decimal → Bool
  pub less_than_or_equal : Decimal → Decimal → Bool
  pub new_from_int : ℕ → Decimal
  pub Float : Type 0
  -- `NewFromFloat` and `InexactFloat64`
  pub new_from_float : Float → Decimal
  pub inexact_float64 : Decimal → Float
  -- The `n / d` of a literal or a conversion `float64(n)`.
  pub literal : ℕ → ℕ → Float
  pub fadd : Float → Float → Float
  pub fsub : Float → Float → Float
  pub fmul : Float → Float → Float
  pub fdiv : Float → Float → Float
  pub fneg : Float → Float
  pub flt : Float → Float → Bool
  pub fle : Float → Float → Bool

-- `IsZero`, `IsNegative` and `IsPositive`, by the sign.
module _ ⦃N : Numbers⦄ where
  abbrev pub is_zero : N.Decimal → Bool
  is_zero d = elim (N.sign d) [ nought ↦ Bool.true | _ ↦ Bool.false ]

  abbrev pub is_negative : N.Decimal → Bool
  is_negative d = elim (N.sign d) [ negative ↦ Bool.true | _ ↦ Bool.false ]

  abbrev pub is_positive : N.Decimal → Bool
  is_positive d = elim (N.sign d) [ positive ↦ Bool.true | _ ↦ Bool.false ]
