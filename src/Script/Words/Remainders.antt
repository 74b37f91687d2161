-- ===== src/Script/Words/Remainders.antt =====
-- The integers of a kind are the remainders by its modulus, on which 64-bit operations agree.
use vweb.Common.{ℕ, ◌<◌, ◌≡◌, arith}
use vweb.Script.Words.{
  Kind, int, int8, int16, int32, int64, uint, uint8, uint16, uint32, uint64, uintptr, modulus,
  extend, truncate, add64, sub64, add_kind, sub_kind,
}

-- The 64 bits of the operation do not show in the result.
pub truncate-add64 :
    (k : Kind) (x y : ℕ)
    → x < modulus k
    → y < modulus k
    → truncate k (add64 (extend k x) (extend k y)) ≡ add_kind k x y
unfolding extend truncate add64
truncate-add64 int8 x y h i = ground arith
truncate-add64 int16 x y h i = ground arith
truncate-add64 int32 x y h i = ground arith
truncate-add64 int x y h i = ground arith
truncate-add64 int64 x y h i = ground arith
truncate-add64 uint8 x y h i = omega arith
truncate-add64 uint16 x y h i = omega arith
truncate-add64 uint32 x y h i = omega arith
truncate-add64 uint x y h i = omega arith
truncate-add64 uint64 x y h i = omega arith
truncate-add64 uintptr x y h i = omega arith

pub truncate-sub64 :
    (k : Kind) (x y : ℕ)
    → x < modulus k
    → y < modulus k
    → truncate k (sub64 (extend k x) (extend k y)) ≡ sub_kind k x y
unfolding extend truncate sub64
truncate-sub64 int8 x y h i = ground arith
truncate-sub64 int16 x y h i = ground arith
truncate-sub64 int32 x y h i = ground arith
truncate-sub64 int x y h i = ground arith
truncate-sub64 int64 x y h i = ground arith
truncate-sub64 uint8 x y h i = omega arith
truncate-sub64 uint16 x y h i = omega arith
truncate-sub64 uint32 x y h i = omega arith
truncate-sub64 uint x y h i = omega arith
truncate-sub64 uint64 x y h i = omega arith
truncate-sub64 uintptr x y h i = omega arith

pub truncate-of_lt : (k : Kind) (x : ℕ) → x < modulus k → truncate k x ≡ x
unfolding truncate
truncate-of_lt int x h = omega arith
truncate-of_lt int8 x h = omega arith
truncate-of_lt int16 x h = omega arith
truncate-of_lt int32 x h = omega arith
truncate-of_lt int64 x h = omega arith
truncate-of_lt uint x h = omega arith
truncate-of_lt uint8 x h = omega arith
truncate-of_lt uint16 x h = omega arith
truncate-of_lt uint32 x h = omega arith
truncate-of_lt uint64 x h = omega arith
truncate-of_lt uintptr x h = omega arith

-- Subtraction undoes addition in the words of a kind.
pub sub_kind-add_kind :
    (k : Kind) (x y : ℕ)
    → x < modulus k
    → sub_kind k (add_kind k x (truncate k y)) (truncate k y) ≡ x
unfolding truncate
sub_kind-add_kind int x y h = omega arith
sub_kind-add_kind int8 x y h = omega arith
sub_kind-add_kind int16 x y h = omega arith
sub_kind-add_kind int32 x y h = omega arith
sub_kind-add_kind int64 x y h = omega arith
sub_kind-add_kind uint x y h = omega arith
sub_kind-add_kind uint8 x y h = omega arith
sub_kind-add_kind uint16 x y h = omega arith
sub_kind-add_kind uint32 x y h = omega arith
sub_kind-add_kind uint64 x y h = omega arith
sub_kind-add_kind uintptr x y h = omega arith

pub add_kind_lt : (k : Kind) (x y : ℕ) → add_kind k x y < modulus k
add_kind_lt int x y = omega arith
add_kind_lt int8 x y = omega arith
add_kind_lt int16 x y = omega arith
add_kind_lt int32 x y = omega arith
add_kind_lt int64 x y = omega arith
add_kind_lt uint x y = omega arith
add_kind_lt uint8 x y = omega arith
add_kind_lt uint16 x y = omega arith
add_kind_lt uint32 x y = omega arith
add_kind_lt uint64 x y = omega arith
add_kind_lt uintptr x y = omega arith
