-- ===== src/Script/Words.antt =====
-- builtin/number.go, computeInt and computeUint: integers as their bits, in two's complement. An
-- operation is done on 64 bits (`extend` is Value.Int or Value.Uint) and the result converted to the
-- kind of the left operand (`truncate` is Convert).
pub mod Remainders
use vweb.Common.{
  ℕ, zero, suc, ◌+◌, ◌-◌, ◌*◌, ◌/◌, ◌%◌, ◌^◌, Bool, true, false, not, ◌&&◌, ◌||◌, xor, Option, none,
  some, Bytes, leb, ◌==◌, if◌then◌else◌,
}

pub data Kind : Type 0 where
  int int8 int16 int32 int64 : Kind
  uint uint8 uint16 uint32 uint64 uintptr : Kind

abbrev pub is_signed : Kind → Bool
is_signed int = true
is_signed int8 = true
is_signed int16 = true
is_signed int32 = true
is_signed int64 = true
is_signed _ = false

-- 2 ^ w for the kind's number w of bits; int, uint and uintptr have 64.
abbrev pub modulus : Kind → ℕ
modulus int8 = 256
modulus uint8 = 256
modulus int16 = 65536
modulus uint16 = 65536
modulus int32 = 4294967296
modulus uint32 = 4294967296
modulus _ = 18446744073709551616

abbrev pub modulus64 : ℕ
modulus64 = 18446744073709551616

abbrev pub half64 : ℕ
half64 = 9223372036854775808

unfoldable pub extend : Kind → ℕ → ℕ
extend k x = if is_signed k && leb (modulus k) (x + x) then x + (modulus64 - modulus k) else x

unfoldable pub truncate : Kind → ℕ → ℕ
truncate k x = x % modulus k

-- The operators; `unknown` is any other text.
pub data Symbol : Type 0 where
  plus minus times over percent : Symbol
  amp bar caret amp_caret shl shr : Symbol
  unknown : Bytes → Symbol

unfoldable pub add64 : ℕ → ℕ → ℕ
add64 x y = (x + y) % modulus64

unfoldable pub sub64 : ℕ → ℕ → ℕ
sub64 x y = (x + (modulus64 - y)) % modulus64

abbrev pub is_negative : ℕ → Bool
is_negative x = leb half64 x

abbrev pub magnitude : ℕ → ℕ
magnitude x = if is_negative x then modulus64 - x else x

abbrev pub with_sign : Bool → ℕ → ℕ
with_sign negative x = if negative then (modulus64 - x) % modulus64 else x % modulus64

-- Bit by bit, on so many bits.
abbrev pub bitwise : (Bool → Bool → Bool) → ℕ → ℕ → ℕ → ℕ
bitwise f zero x y = 0
bitwise f (suc n) x y =
    (if f (x % 2 == 1) (y % 2 == 1) then 1 else 0) + 2 * bitwise f n (x / 2) (y / 2)

abbrev pub shift_left : ℕ → ℕ → ℕ
shift_left x y = if leb 64 y then 0 else x * 2 ^ y % modulus64

abbrev pub shift_right : ℕ → ℕ → ℕ
shift_right x y = if leb 64 y then 0 else x / 2 ^ y

-- The sign is shifted in.
abbrev pub shift_signed : ℕ → ℕ → ℕ
shift_signed x y =
    if is_negative x then modulus64 - 1 - shift_right (modulus64 - 1 - x) y else shift_right x y

-- The switch over the operators on two int64; `none` is an error.
unfoldable pub compute_int : ℕ → Symbol → ℕ → Option ℕ
unfolding add64 sub64 xor
compute_int x plus y = some (add64 x y)
compute_int x minus y = some (sub64 x y)
compute_int x times y = some (x * y % modulus64)
compute_int x over y =
    if y == 0
    then none
    else some (with_sign (xor (is_negative x) (is_negative y)) (magnitude x / magnitude y))
compute_int x percent y =
    if y == 0 then none else some (with_sign (is_negative x) (magnitude x % magnitude y))
compute_int x amp y = some (bitwise (λ a b. a && b) 64 x y)
compute_int x bar y = some (bitwise (λ a b. a || b) 64 x y)
compute_int x caret y = some (bitwise xor 64 x y)
compute_int x amp_caret y = some (bitwise (λ a b. a && not b) 64 x y)
compute_int x shl y = if is_negative y then none else some (shift_left x y)
compute_int x shr y = if is_negative y then none else some (shift_signed x y)
compute_int x (unknown s) y = none

-- The switch over the operators on two uint64.
unfoldable pub compute_uint : ℕ → Symbol → ℕ → Option ℕ
unfolding add64 sub64 xor
compute_uint x plus y = some (add64 x y)
compute_uint x minus y = some (sub64 x y)
compute_uint x times y = some (x * y % modulus64)
compute_uint x over y = if y == 0 then none else some (x / y)
compute_uint x percent y = if y == 0 then none else some (x % y)
compute_uint x amp y = some (bitwise (λ a b. a && b) 64 x y)
compute_uint x bar y = some (bitwise (λ a b. a || b) 64 x y)
compute_uint x caret y = some (bitwise xor 64 x y)
compute_uint x amp_caret y = some (bitwise (λ a b. a && not b) 64 x y)
compute_uint x shl y = some (shift_left x y)
compute_uint x shr y = some (shift_right x y)
compute_uint x (unknown s) y = none

-- a + b and a - b of one kind
abbrev pub add_kind : Kind → ℕ → ℕ → ℕ
add_kind k x y = (x + y) % modulus k

abbrev pub sub_kind : Kind → ℕ → ℕ → ℕ
sub_kind k x y = (x + (modulus k - y)) % modulus k

-- The kinds to which Add and Sub convert an int on the right.
abbrev pub takes_int : Kind → Bool
takes_int uintptr = false
takes_int _ = true
