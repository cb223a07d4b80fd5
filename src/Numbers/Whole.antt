-- ===== src/Numbers/Whole.antt =====
-- An instance of the numbers that runs: whole numbers for both types. It shows that the laws can be
-- met, and the tests of the other modules use it.
use mmh.Prelude.{◌/◌, arith, ltb, if◌then◌else◌}
use mmh.Prelude.Int.{ℤ, pos, negsuc, ◌+ℤ◌, ◌-ℤ◌, ◌*ℤ◌, ◌/ℤ◌, -ℤ◌, abs_ℕ, ltb_ℤ, leb_ℤ, int_laws}
use mmh.Numbers.{Numbers, Sign, negative, nought, positive}
use mmh.Numbers.Laws.{IsGroup, IsOrdered, HasAbs, CanRefund}

abbrev pub sign_ℤ : ℤ → Sign
sign_ℤ (pos n) = if ltb 0 n then positive else nought
sign_ℤ (negsuc n) = negative

instance abbrev pub whole : Numbers
whole = record {
  Decimal = ℤ;
  zero = pos 0;
  add = ◌+ℤ◌;
  sub = ◌-ℤ◌;
  mul = ◌*ℤ◌;
  div = ◌/ℤ◌;
  neg = -ℤ◌;
  abs = λ a. pos (abs_ℕ a);
  sign = sign_ℤ;
  greater_than = λ a b. ltb_ℤ b a;
  less_than = ltb_ℤ;
  greater_than_or_equal = λ a b. leb_ℤ b a;
  less_than_or_equal = leb_ℤ;
  new_from_int = pos;
  Float = ℤ;
  new_from_float = λ x. x;
  inexact_float64 = λ x. x;
  literal = λ n d. pos (n / d);
  fadd = ◌+ℤ◌;
  fsub = ◌-ℤ◌;
  fmul = ◌*ℤ◌;
  fdiv = ◌/ℤ◌;
  fneg = -ℤ◌;
  flt = ltb_ℤ;
  fle = leb_ℤ;
}

pub whole-IsGroup : IsGroup
whole-IsGroup = record {
  add_assoc = λ a b c. omega int_laws;
  add_comm = λ a b. omega int_laws;
  zero-add = λ a. omega int_laws;
  add-sub = λ a b. omega int_laws;
}

pub whole-IsOrdered : IsOrdered
unfolding ◌+ℤ◌ ◌-ℤ◌
whole-IsOrdered = record {
  ge-sub = λ a b c. ground arith;
  ge_antisymm = λ a b. ground arith;
  lt_of_not_ge = λ a b. ground arith;
}

pub whole-HasAbs : HasAbs
whole-HasAbs = record { neg-abs = λ a h. ground arith }

pub whole-CanRefund : CanRefund
unfolding ◌-ℤ◌
whole-CanRefund = record { sub_within = λ a b limit p q. ground arith }
