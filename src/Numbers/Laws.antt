-- ===== src/Numbers/Laws.antt =====
-- What is relied on of `decimal.Decimal`: its additions and comparisons are exact.
use mmh.Prelude.{◌≡◌, true, false}
use mmh.Numbers.{Numbers, is_negative, negative}

-- Addition and subtraction are those of a commutative group.
pub record IsGroup ⦃N : Numbers⦄ : Type 0 where
  pub add_assoc : (a b c : N.Decimal) → N.add (N.add a b) c ≡ N.add a (N.add b c)
  pub add_comm : (a b : N.Decimal) → N.add a b ≡ N.add b a
  pub zero-add : (a : N.Decimal) → N.add N.zero a ≡ a
  pub add-sub : (a b : N.Decimal) → N.add a (N.sub b a) ≡ b

-- The comparisons are those of a total order that addition keeps.
pub record IsOrdered ⦃N : Numbers⦄ : Type 0 where
  pub ge-sub :
      (a b c : N.Decimal)
      → N.greater_than_or_equal a (N.sub b c) ≡ N.greater_than_or_equal (N.add c a) b
  pub ge_antisymm :
      (a b : N.Decimal) → N.greater_than_or_equal a b ≡ true → N.greater_than a b ≡ false → a ≡ b
  pub lt_of_not_ge :
      (a b : N.Decimal) → N.greater_than_or_equal a b ≡ false → N.less_than a b ≡ true

-- `Abs` of a number below zero is its opposite.
pub record HasAbs ⦃N : Numbers⦄ : Type 0 where
  pub neg-abs : (a : N.Decimal) → N.sign a ≡ negative → N.neg (N.abs a) ≡ a

-- To take away what is not below zero keeps a number within a limit.
pub record CanRefund ⦃N : Numbers⦄ : Type 0 where
  pub sub_within :
      (a b limit : N.Decimal)
      → is_negative b ≡ false
      → N.greater_than a limit ≡ false
      → N.greater_than (N.sub a b) limit ≡ false
