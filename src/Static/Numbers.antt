-- ===== src/Static/Numbers.antt =====
-- strconv.ParseInt(s, 10, 64), which the Range header goes through; `none` is an error.
use vweb.Common.{
  ℕ, zero, suc, ◌+◌, ◌-◌, ◌*◌, ◌^◌, ◌/◌, ◌%◌, ◌++◌, Option, none, some, [], ◌∷◌, Bytes, ◌==◌, ltb,
  ◌||◌, is_empty, if◌then◌else◌,
}
use vweb.Common.Int.{ℤ, pos, negsuc}

-- The digits behind a number that is read already.
unfoldable pub parse_digits : Bytes → ℕ → Option ℕ
parse_digits [] n = some n
parse_digits (c ∷ s) n =
    let rest = parse_digits s (n * 10 + (c - b'0')) in
    if ltb c b'0' || ltb b'9' c then none else rest

unfoldable pub parse_natural : Bytes → Option ℕ
unfolding parse_digits
parse_natural s = if is_empty s then none else parse_digits s 0

-- Numbers below -2^63 and from 2^63 on are errors.
abbrev pub positive : Option ℕ → Option ℤ
positive none = none
positive (some n) = if ltb n (2 ^ 63) then some (pos n) else none

abbrev pub negative : Option ℕ → Option ℤ
negative none = none
negative (some zero) = some (pos 0)
negative (some (suc n)) = if ltb n (2 ^ 63) then some (negsuc n) else none

unfoldable pub parse_int : Bytes → Option ℤ
unfolding parse_natural
parse_int [] = none
parse_int (c ∷ s) =
    if c == b'+'
    then positive (parse_natural s)
    else if c == b'-'
    then negative (parse_natural s)
    else positive (parse_natural (c ∷ s))

-- The digit of a number below 16, in lower case.
abbrev pub digit : ℕ → ℕ
digit n = if ltb n 10 then b'0' + n else b'a' + (n - 10)

-- The digits of n, for a fuel above n.
unfoldable pub print_loop : ℕ → ℕ → ℕ → Bytes
print_loop zero base n = []
print_loop (suc fuel) base n =
    let front = print_loop fuel base (n / base) in
    if ltb n base then digit n ∷ [] else front ++ digit (n % base) ∷ []

-- The verbs %d and %x of package fmt, and strconv.FormatInt(n, 10), for numbers that are not negative
unfoldable pub decimal : ℕ → Bytes
unfolding print_loop
decimal n = print_loop (suc n) 10 n

unfoldable pub hexadecimal : ℕ → Bytes
unfolding print_loop
hexadecimal n = print_loop (suc n) 16 n
