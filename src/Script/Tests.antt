-- ===== src/Script/Tests.antt =====
-- The arithmetic of the scripts: runs, and the theorems at concrete inputs.
use vweb.Common.{
  ℕ, ◌+◌, ◌%◌, ◌<◌, ◌≡◌, refl, true, false, ltb, leb, some, none, arith, codes, returns, panics,
}
use vweb.Script.Words.{
  int, int8, uint8, modulus, plus, over, percent, shl, caret, compute_int, compute_uint, extend,
  truncate,
}
use vweb.Script.Numbers.{
  Floats, whole, text, add, sub, quo, neg, inc, dec, direct_add, direct_sub, compute, compute_whole,
}
use vweb.Script.Comparisons.{Comparisons, lt, ge}
use vweb.Script.Comparisons.Order.{texts, IsOrdered, Alike-IsOrdered}
use vweb.Script.Inverse.{dec-inc, neg-neg}
use vweb.Script.Wrap.{by_int, sub-add}

-- Numbers in place of the machine's floating-point numbers.
abbrev floats : Floats
floats = record {
  Float = ℕ;
  fadd = λ x y. x;
  fsub = λ x y. x;
  fmul = λ x y. x;
  fquo = λ x y. x;
  fneg = λ x. x;
  one = 1;
  to_single = λ x. x;
  of_int = λ x. x;
  Complex = ℕ;
  cadd = λ x y. x;
  csub = λ x y. x;
  cmul = λ x y. x;
  cquo = λ x y. x;
  to_single_pair = λ x. x;
}

-- Bits: 255 of int8 is -1, 18446744073709551615 of int is -1.
arithmetic_tests :
    (add floats (whole uint8 250) (whole int 10) ≡ returns (whole uint8 4))
    × (sub floats (whole int8 0) (whole int8 1) ≡ returns (whole int8 255))
    × (compute floats (whole int8 249) over (whole int8 2) ≡ some (whole int8 253))
    × (compute floats (whole int8 249) percent (whole int8 2) ≡ some (whole int8 255))
    × (compute floats (whole uint8 200) shl (whole uint8 1) ≡ some (whole uint8 144))
    × (compute floats (whole uint8 6) caret (whole uint8 5) ≡ some (whole uint8 3))
    × (compute floats (whole int 1) plus (whole int8 1) ≡ none)
    × (quo floats (whole int 1) (whole int 0) ≡ panics (codes "integer divide by zero"))
    × (neg floats (whole int8 128) ≡ returns (whole int8 128))
unfolding add sub quo neg direct_add direct_sub compute compute_whole compute_int compute_uint
    extend truncate
arithmetic_tests = (refl, refl, refl, refl, refl, refl, refl, refl, refl)

sub-add_example :
    (z : ℕ) × (add floats (whole uint8 250) (whole int 10) ≡ returns (whole uint8 z))
    × (z < modulus uint8)
    × (sub floats (whole uint8 z) (whole int 10) ≡ returns (whole uint8 250))
sub-add_example = sub-add floats uint8 int 250 10 (by_int uint8 refl) (omega arith) (omega arith)

abbrev comparisons : Comparisons (floats.Float)
comparisons = record { flt = λ x y. ltb x y; fle = λ x y. leb x y }

comparison_tests :
    (lt floats comparisons (whole int 18446744073709551615) (whole int 1) ≡ returns true)
    × (lt floats comparisons (text (codes "ab")) (text (codes "b")) ≡ returns true)
    × (lt floats comparisons (text (codes "ab")) (text (codes "a")) ≡ returns false)
    × (ge floats comparisons (whole int 3) (whole int 3) ≡ returns true)
    × (lt floats comparisons (whole int 3) (text (codes "3")) ≡ panics (codes "unsupported"))
unfolding lt ge
comparison_tests = (refl, refl, refl, refl, refl)

Alike-IsOrdered_example : IsOrdered floats comparisons (text (codes "ab")) (text (codes "b"))
Alike-IsOrdered_example =
    Alike-IsOrdered floats comparisons (text (codes "ab")) (text (codes "b"))
      (texts (codes "ab") (codes "b"))

dec-inc_example :
    (y : ℕ) × (inc floats (whole uint8 255) ≡ returns (whole uint8 y))
    × (dec floats (whole uint8 y) ≡ returns (whole uint8 255))
dec-inc_example = dec-inc floats uint8 255 refl (omega arith)

neg-neg_example :
    (y : ℕ) × (neg floats (whole int8 128) ≡ returns (whole int8 y))
    × (y < modulus int8)
    × ((128 + y) % modulus int8 ≡ 0)
    × (neg floats (whole int8 y) ≡ returns (whole int8 128))
neg-neg_example = neg-neg floats int8 128 refl (omega arith)
