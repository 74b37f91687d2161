-- ===== src/Script/Wrap.antt =====
-- Addition and subtraction of integers wrap around in the kind of the left operand.
use mathlib.Core.Option
use vweb.Common.{
  codes, ℕ, ◌<◌, ◌≡◌, refl, sym, ap, ◌∙◌, true, Option, none, some, Checked, returns, panics,
}
use vweb.Script.Words.{
  Kind, int, int8, int16, int32, int64, uint, uint8, uint16, uint32, uint64, uintptr, modulus,
  truncate, plus, minus, compute_int, compute_uint, takes_int, add_kind, sub_kind,
}
use vweb.Script.Words.Remainders.{
  truncate-add64, truncate-sub64, truncate-of_lt, sub_kind-add_kind, add_kind_lt,
}
use vweb.Script.Numbers.{
  Floats, Value, whole, add, sub, direct_add, direct_sub, compute, compute_whole,
}

-- The operands that Add and Sub take: of one kind, or an int on the right.
pub data Fits : Kind → Kind → Type 0 where
  same_kind : (k : Kind) → Fits k k
  by_int : (k : Kind) → takes_int k ≡ true → Fits k int

module _ (fp : Floats) where
  -- What Compute gives for a sum and a difference of one kind.
  computed_sum :
      (k : Kind) (x y : ℕ)
      → x < modulus k
      → y < modulus k
      → compute_whole fp k x plus y ≡ some (add_kind k x (truncate k y))
  unfolding compute_whole compute_int compute_uint
  computed_sum int x y h i =
      ap (λ z. some z)
        (truncate-add64 int x y h i ∙ ap (add_kind int x) (sym (truncate-of_lt int y i)))
  computed_sum int8 x y h i =
      ap (λ z. some z)
        (truncate-add64 int8 x y h i ∙ ap (add_kind int8 x) (sym (truncate-of_lt int8 y i)))
  computed_sum int16 x y h i =
      ap (λ z. some z)
        (truncate-add64 int16 x y h i ∙ ap (add_kind int16 x) (sym (truncate-of_lt int16 y i)))
  computed_sum int32 x y h i =
      ap (λ z. some z)
        (truncate-add64 int32 x y h i ∙ ap (add_kind int32 x) (sym (truncate-of_lt int32 y i)))
  computed_sum int64 x y h i =
      ap (λ z. some z)
        (truncate-add64 int64 x y h i ∙ ap (add_kind int64 x) (sym (truncate-of_lt int64 y i)))
  computed_sum uint x y h i =
      ap (λ z. some z)
        (truncate-add64 uint x y h i ∙ ap (add_kind uint x) (sym (truncate-of_lt uint y i)))
  computed_sum uint8 x y h i =
      ap (λ z. some z)
        (truncate-add64 uint8 x y h i ∙ ap (add_kind uint8 x) (sym (truncate-of_lt uint8 y i)))
  computed_sum uint16 x y h i =
      ap (λ z. some z)
        (truncate-add64 uint16 x y h i ∙ ap (add_kind uint16 x) (sym (truncate-of_lt uint16 y i)))
  computed_sum uint32 x y h i =
      ap (λ z. some z)
        (truncate-add64 uint32 x y h i ∙ ap (add_kind uint32 x) (sym (truncate-of_lt uint32 y i)))
  computed_sum uint64 x y h i =
      ap (λ z. some z)
        (truncate-add64 uint64 x y h i ∙ ap (add_kind uint64 x) (sym (truncate-of_lt uint64 y i)))
  computed_sum uintptr x y h i =
      ap (λ z. some z)
        (truncate-add64 uintptr x y h i
          ∙ ap (add_kind uintptr x) (sym (truncate-of_lt uintptr y i)))

  computed_difference :
      (k : Kind) (x y : ℕ)
      → x < modulus k
      → y < modulus k
      → compute_whole fp k x minus y ≡ some (sub_kind k x (truncate k y))
  unfolding compute_whole compute_int compute_uint
  computed_difference int x y h i =
      ap (λ z. some z)
        (truncate-sub64 int x y h i ∙ ap (sub_kind int x) (sym (truncate-of_lt int y i)))
  computed_difference int8 x y h i =
      ap (λ z. some z)
        (truncate-sub64 int8 x y h i ∙ ap (sub_kind int8 x) (sym (truncate-of_lt int8 y i)))
  computed_difference int16 x y h i =
      ap (λ z. some z)
        (truncate-sub64 int16 x y h i ∙ ap (sub_kind int16 x) (sym (truncate-of_lt int16 y i)))
  computed_difference int32 x y h i =
      ap (λ z. some z)
        (truncate-sub64 int32 x y h i ∙ ap (sub_kind int32 x) (sym (truncate-of_lt int32 y i)))
  computed_difference int64 x y h i =
      ap (λ z. some z)
        (truncate-sub64 int64 x y h i ∙ ap (sub_kind int64 x) (sym (truncate-of_lt int64 y i)))
  computed_difference uint x y h i =
      ap (λ z. some z)
        (truncate-sub64 uint x y h i ∙ ap (sub_kind uint x) (sym (truncate-of_lt uint y i)))
  computed_difference uint8 x y h i =
      ap (λ z. some z)
        (truncate-sub64 uint8 x y h i ∙ ap (sub_kind uint8 x) (sym (truncate-of_lt uint8 y i)))
  computed_difference uint16 x y h i =
      ap (λ z. some z)
        (truncate-sub64 uint16 x y h i ∙ ap (sub_kind uint16 x) (sym (truncate-of_lt uint16 y i)))
  computed_difference uint32 x y h i =
      ap (λ z. some z)
        (truncate-sub64 uint32 x y h i ∙ ap (sub_kind uint32 x) (sym (truncate-of_lt uint32 y i)))
  computed_difference uint64 x y h i =
      ap (λ z. some z)
        (truncate-sub64 uint64 x y h i ∙ ap (sub_kind uint64 x) (sym (truncate-of_lt uint64 y i)))
  computed_difference uintptr x y h i =
      ap (λ z. some z)
        (truncate-sub64 uintptr x y h i
          ∙ ap (sub_kind uintptr x) (sym (truncate-of_lt uintptr y i)))

  abbrev of_computed : Kind → Option ℕ → Checked (Value fp)
  of_computed k r = elim (Option.map (λ n. whole k n) r) [
    | some v ↦ returns v
    | none ↦ panics (codes "unsupported")
  ]

  add-same_kind :
      (k : Kind) (x y : ℕ)
      → x < modulus k
      → y < modulus k
      → add fp (whole k x) (whole k y) ≡ returns (whole k (add_kind k x (truncate k y)))
  unfolding add direct_add compute
  add-same_kind int x y h i = refl
  add-same_kind int8 x y h i = ap (of_computed int8) (computed_sum int8 x y h i)
  add-same_kind int16 x y h i = ap (of_computed int16) (computed_sum int16 x y h i)
  add-same_kind int32 x y h i = ap (of_computed int32) (computed_sum int32 x y h i)
  add-same_kind int64 x y h i = ap (of_computed int64) (computed_sum int64 x y h i)
  add-same_kind uint x y h i = ap (of_computed uint) (computed_sum uint x y h i)
  add-same_kind uint8 x y h i = ap (of_computed uint8) (computed_sum uint8 x y h i)
  add-same_kind uint16 x y h i = ap (of_computed uint16) (computed_sum uint16 x y h i)
  add-same_kind uint32 x y h i = ap (of_computed uint32) (computed_sum uint32 x y h i)
  add-same_kind uint64 x y h i = ap (of_computed uint64) (computed_sum uint64 x y h i)
  add-same_kind uintptr x y h i = ap (of_computed uintptr) (computed_sum uintptr x y h i)

  add-int :
      (k : Kind) (x y : ℕ)
      → takes_int k ≡ true
      → add fp (whole k x) (whole int y) ≡ returns (whole k (add_kind k x (truncate k y)))
  unfolding add direct_add
  add-int k x y t = rw t

  add-whole :
      {j k : Kind} (x y : ℕ)
      → Fits j k
      → x < modulus j
      → y < modulus k
      → add fp (whole j x) (whole k y) ≡ returns (whole j (add_kind j x (truncate j y)))
  add-whole x y (same_kind k) h i = add-same_kind k x y h i
  add-whole x y (by_int k t) h i = add-int k x y t

  sub-same_kind :
      (k : Kind) (x y : ℕ)
      → x < modulus k
      → y < modulus k
      → sub fp (whole k x) (whole k y) ≡ returns (whole k (sub_kind k x (truncate k y)))
  unfolding sub direct_sub compute
  sub-same_kind int x y h i = refl
  sub-same_kind int8 x y h i = ap (of_computed int8) (computed_difference int8 x y h i)
  sub-same_kind int16 x y h i = ap (of_computed int16) (computed_difference int16 x y h i)
  sub-same_kind int32 x y h i = ap (of_computed int32) (computed_difference int32 x y h i)
  sub-same_kind int64 x y h i = ap (of_computed int64) (computed_difference int64 x y h i)
  sub-same_kind uint x y h i = ap (of_computed uint) (computed_difference uint x y h i)
  sub-same_kind uint8 x y h i = ap (of_computed uint8) (computed_difference uint8 x y h i)
  sub-same_kind uint16 x y h i = ap (of_computed uint16) (computed_difference uint16 x y h i)
  sub-same_kind uint32 x y h i = ap (of_computed uint32) (computed_difference uint32 x y h i)
  sub-same_kind uint64 x y h i = ap (of_computed uint64) (computed_difference uint64 x y h i)
  sub-same_kind uintptr x y h i = ap (of_computed uintptr) (computed_difference uintptr x y h i)

  sub-int :
      (k : Kind) (x y : ℕ)
      → takes_int k ≡ true
      → sub fp (whole k x) (whole int y) ≡ returns (whole k (sub_kind k x (truncate k y)))
  unfolding sub direct_sub
  sub-int k x y t = rw t

  sub-whole :
      {j k : Kind} (x y : ℕ)
      → Fits j k
      → x < modulus j
      → y < modulus k
      → sub fp (whole j x) (whole k y) ≡ returns (whole j (sub_kind j x (truncate j y)))
  sub-whole x y (same_kind k) h i = sub-same_kind k x y h i
  sub-whole x y (by_int k t) h i = sub-int k x y t

-- For integers of one kind, or of any kind but uintptr with an int on the right, each within its
-- kind: Add returns an integer of the kind of the left one, within it, and Sub of this and the right
-- one returns the left one again, whether the sum wrapped around or not.
pub sub-add :
    (fp : Floats) (j k : Kind) (x y : ℕ)
    → Fits j k
    → x < modulus j
    → y < modulus k
    → (z : ℕ) × (add fp (whole j x) (whole k y) ≡ returns (whole j z))
      × (z < modulus j)
      × (sub fp (whole j z) (whole k y) ≡ returns (whole j x))
sub-add fp j k x y f h i =
    let z = add_kind j x (truncate j y) in
    (
      z,
      add-whole fp x y f h i,
      add_kind_lt j x (truncate j y),
      sub-whole fp z y f (add_kind_lt j x (truncate j y)) i
          ∙ ap (λ w. returns (whole j w)) (sub_kind-add_kind j x y h),
    )
