-- ===== src/Cookies.antt =====
-- Cookie.go: the cookies of a request, as readCookies takes them out of the Cookie headers.
pub mod Parts
pub mod Loop
pub mod Written
pub mod Filter
pub mod Print
mod Tests
use vweb.Common.{
  ℕ, zero, suc, ◌+◌, ◌-◌, Bool, true, false, not, ◌&&◌, ◌||◌, Option, none, some, List, [], ◌∷◌,
  ◌++◌, Bytes, codes, ◌==◌, ltb, leb, same, is_empty, index, take, drop, length, get_elem?,
  if◌then◌else◌,
}

-- Package httpguts: whether a byte is a token; the bytes of a rune that is not ASCII are not.
pub record Httpguts : Type 0 where
  pub is_token_rune : ℕ → Bool

-- A name and a value; the other fields of http.Cookie stay empty.
pub record Cookie : Type 0 where
  pub name : Bytes
  pub value : Bytes

-- textproto.TrimString
abbrev pub is_ascii_space : ℕ → Bool
is_ascii_space c = c == 32 || (c == 9 || (c == 10 || c == 13))

unfoldable pub trim_start : Bytes → Bytes
trim_start [] = []
trim_start (c ∷ s) = let rest = trim_start s in if is_ascii_space c then rest else c ∷ s

abbrev pub trim_byte : ℕ → Bytes → Bytes
trim_byte c [] = if is_ascii_space c then [] else c ∷ []
trim_byte c (d ∷ s) = c ∷ d ∷ s

unfoldable pub trim_end : Bytes → Bytes
trim_end [] = []
trim_end (c ∷ s) = trim_byte c (trim_end s)

unfoldable pub trim_string : Bytes → Bytes
unfolding trim_start trim_end
trim_string s = trim_end (trim_start s)

unfoldable pub valid_cookie_value_byte : ℕ → Bool
valid_cookie_value_byte b =
    leb 32 b && (ltb b 127 && (not (b == b'"') && (not (b == b';') && not (b == b'\\'))))

unfoldable pub all_bytes : (ℕ → Bool) → Bytes → Bool
all_bytes p [] = true
all_bytes p (b ∷ s) = p b && all_bytes p s

abbrev pub has_at : Bytes → ℕ → ℕ → Bool
has_at s i b = elim (get_elem? s i) [ none ↦ false | some c ↦ c == b ]

abbrev pub is_quoted : Bytes → Bool
is_quoted raw = ltb 1 (length raw) && (has_at raw 0 b'"' && has_at raw (length raw - 1) b'"')

unfoldable pub parse_cookie_value : Bytes → Bool → Option Bytes
unfolding valid_cookie_value_byte all_bytes
parse_cookie_value raw allow_double_quote =
    let text =
      if allow_double_quote && is_quoted raw then take (length raw - 2) (drop 1 raw) else raw in
    if all_bytes valid_cookie_value_byte text then some text else none

module _ (lib : Httpguts) where
  unfoldable pub is_cookie_name_valid : Bytes → Bool
  unfolding all_bytes
  is_cookie_name_valid raw = not (is_empty raw) && all_bytes (lib.is_token_rune) raw

  -- The text before and behind the first "=".
  unfoldable pub name_value : Bytes → Bytes × Bytes
  name_value part = elim (index part (codes "=")) [
    | none ↦ (part, [])
    | some j ↦ (take j part, drop (suc j) part)
  ]

  -- The cookie of a name and a value, if they are valid and the filter asks for the name.
  unfoldable pub cookie_of : Bytes → Bytes × Bytes → Option Cookie
  unfolding is_cookie_name_valid parse_cookie_value
  cookie_of filter (name, val) =
      if not (is_cookie_name_valid name)
      then none
      else if not (is_empty filter) && not (same filter name)
      then none
      else elim (parse_cookie_value val true) [
        | none ↦ none
        | some value ↦ some (record { name = name; value = value })
      ]

  -- The rest of a round of the loop; `none` is a part without a cookie that is asked for.
  unfoldable pub part_cookie : Bytes → Bytes → Option Cookie
  unfolding trim_string name_value cookie_of
  part_cookie filter raw =
      let part = trim_string raw in
      if is_empty part then none else cookie_of filter (name_value part)

  -- The next part of the line, and the line behind it: a ";" at the start does not end a part.
  unfoldable pub next_part : Bytes → Bytes × Bytes
  next_part line = elim (index line (codes ";")) [
    | none ↦ (line, [])
    | some zero ↦ (line, [])
    | some (suc i) ↦ (take (suc i) line, drop (suc (suc i)) line)
  ]

  abbrev pub keep : Option Cookie → Option (List Cookie) → Option (List Cookie)
  keep c none = none
  keep none (some cookies) = some cookies
  keep (some c) (some cookies) = some (c ∷ cookies)

  -- The loop over the parts of a line, on fuel; `none` is that the fuel does not last.
  unfoldable pub read_line : ℕ → Bytes → Bytes → Option (List Cookie)
  unfolding next_part part_cookie
  read_line zero filter line = if is_empty line then some [] else none
  read_line (suc n) filter line =
      let (part, rest) = next_part line in
      let more = read_line n filter rest in
      if is_empty line then some [] else keep (part_cookie filter part) more

  abbrev pub append_line : Option (List Cookie) → Option (List Cookie) → Option (List Cookie)
  append_line none more = none
  append_line (some cookies) none = none
  append_line (some cookies) (some more) = some (cookies ++ more)

  -- readCookies, with the values of the header "Cookie"; the bytes of a line are enough fuel for it.
  unfoldable pub read_cookies : List Bytes → Bytes → Option (List Cookie)
  unfolding trim_string read_line
  read_cookies [] filter = some []
  read_cookies (line ∷ lines) filter =
      append_line (read_line (length (trim_string line)) filter (trim_string line))
        (read_cookies lines filter)
