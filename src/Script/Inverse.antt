-- ===== src/Script/Inverse.antt =====
-- The operators of one operand undo each other on integers.
use vweb.Common.{ℕ, ◌+◌, ◌-◌, ◌%◌, ◌<◌, ◌≡◌, refl, ap, ◌∙◌, true, arith, returns}
use vweb.Script.Words.{
  Kind, int, int8, int16, int32, int64, uint, uint8, uint16, uint32, uint64, uintptr, is_signed,
  modulus, takes_int, add_kind, sub_kind,
}
use vweb.Script.Numbers.{Floats, whole, inc, dec, neg}

sub_kind-add_kind_one : (k : Kind) (x : ℕ) → x < modulus k → sub_kind k (add_kind k x 1) 1 ≡ x
sub_kind-add_kind_one int x h = omega arith
sub_kind-add_kind_one int8 x h = omega arith
sub_kind-add_kind_one int16 x h = omega arith
sub_kind-add_kind_one int32 x h = omega arith
sub_kind-add_kind_one int64 x h = omega arith
sub_kind-add_kind_one uint x h = omega arith
sub_kind-add_kind_one uint8 x h = omega arith
sub_kind-add_kind_one uint16 x h = omega arith
sub_kind-add_kind_one uint32 x h = omega arith
sub_kind-add_kind_one uint64 x h = omega arith
sub_kind-add_kind_one uintptr x h = omega arith

negated_twice :
    (k : Kind) (x : ℕ) → x < modulus k → (modulus k - (modulus k - x) % modulus k) % modulus k ≡ x
negated_twice int x h = omega arith
negated_twice int8 x h = omega arith
negated_twice int16 x h = omega arith
negated_twice int32 x h = omega arith
negated_twice int64 x h = omega arith
negated_twice uint x h = omega arith
negated_twice uint8 x h = omega arith
negated_twice uint16 x h = omega arith
negated_twice uint32 x h = omega arith
negated_twice uint64 x h = omega arith
negated_twice uintptr x h = omega arith

-- The sum of an integer and its opposite wraps around to 0.
sum_negated :
    (k : Kind) (x : ℕ)
    → x < modulus k
    → ((modulus k - x) % modulus k < modulus k)
      × ((x + (modulus k - x) % modulus k) % modulus k ≡ 0)
sum_negated int x h = (omega arith, omega arith)
sum_negated int8 x h = (omega arith, omega arith)
sum_negated int16 x h = (omega arith, omega arith)
sum_negated int32 x h = (omega arith, omega arith)
sum_negated int64 x h = (omega arith, omega arith)
sum_negated uint x h = (omega arith, omega arith)
sum_negated uint8 x h = (omega arith, omega arith)
sum_negated uint16 x h = (omega arith, omega arith)
sum_negated uint32 x h = (omega arith, omega arith)
sum_negated uint64 x h = (omega arith, omega arith)
sum_negated uintptr x h = (omega arith, omega arith)

module _ (fp : Floats) where
  inc-whole :
      (k : Kind) (x : ℕ)
      → takes_int k ≡ true
      → inc fp (whole k x) ≡ returns (whole k (add_kind k x 1))
  unfolding inc
  inc-whole int x t = refl
  inc-whole int8 x t = refl
  inc-whole int16 x t = refl
  inc-whole int32 x t = refl
  inc-whole int64 x t = refl
  inc-whole uint x t = refl
  inc-whole uint8 x t = refl
  inc-whole uint16 x t = refl
  inc-whole uint32 x t = refl
  inc-whole uint64 x t = refl
  inc-whole uintptr x t = absurd (cc)

  dec-whole :
      (k : Kind) (x : ℕ)
      → takes_int k ≡ true
      → dec fp (whole k x) ≡ returns (whole k (sub_kind k x 1))
  unfolding dec
  dec-whole int x t = refl
  dec-whole int8 x t = refl
  dec-whole int16 x t = refl
  dec-whole int32 x t = refl
  dec-whole int64 x t = refl
  dec-whole uint x t = refl
  dec-whole uint8 x t = refl
  dec-whole uint16 x t = refl
  dec-whole uint32 x t = refl
  dec-whole uint64 x t = refl
  dec-whole uintptr x t = absurd (cc)

  -- For an integer within its kind, which is not uintptr: Inc returns an integer of this kind, and Dec
  -- of that returns the first again.
  pub dec-inc :
      (k : Kind) (x : ℕ)
      → takes_int k ≡ true
      → x < modulus k
      → (y : ℕ) × (inc fp (whole k x) ≡ returns (whole k y))
        × (dec fp (whole k y) ≡ returns (whole k x))
  dec-inc k x t h = (
    add_kind k x 1,
    inc-whole k x t,
    dec-whole k (add_kind k x 1) t ∙ ap (λ n. returns (whole k n)) (sub_kind-add_kind_one k x h),
  )

  -- For an integer of a signed kind, within it: Neg returns an integer of this kind, which is within
  -- it and gives 0 when it is added to the first, with the wrap-around of the kind; and Neg of that
  -- returns the first again, also at the least integer.
  pub neg-neg :
      (k : Kind) (x : ℕ)
      → is_signed k ≡ true
      → x < modulus k
      → (y : ℕ) × (neg fp (whole k x) ≡ returns (whole k y))
        × (y < modulus k)
        × ((x + y) % modulus k ≡ 0)
        × (neg fp (whole k y) ≡ returns (whole k x))
  unfolding neg
  neg-neg k x s h = (
    (modulus k - x) % modulus k,
    rw s,
    (sum_negated k x h).0,
    (sum_negated k x h).1,
    rw s (ap (λ n. returns (whole k n)) (negated_twice k x h)),
  )
