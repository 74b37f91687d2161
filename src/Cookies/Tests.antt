-- ===== src/Cookies/Tests.antt =====
-- Cookies: runs, and the theorems at concrete inputs.
use mathlib.Core.Option
use vweb.Common.{
  ◌≡◌, refl, ◌&&◌, some, List, [], ◌∷◌, arith, codes, ltb, leb, same, index, is_empty, has_prefix,
  All,
}
use vweb.Cookies.{
  Httpguts, Cookie, all_bytes, trim_start, trim_end, trim_string, valid_cookie_value_byte,
  is_cookie_name_valid, name_value, parse_cookie_value, cookie_of, part_cookie, next_part,
  read_line, read_cookies,
}
use vweb.Cookies.Loop.{cookies_of_lines, read_cookies-cookies_of_lines}
use vweb.Cookies.Filter.{named, read_cookies-named}
use vweb.Cookies.Print.{IsTokens, IsWritable, read_cookies-line_of}

-- Lower-case letters are tokens.
abbrev letters : Httpguts
letters = record { is_token_rune = λ c. leb 97 c && ltb c 123 }

letters-IsTokens : IsTokens letters
letters-IsTokens = record { semicolon = refl; equals = refl; space = λ c h. ground arith }

abbrev two : List Cookie
two =
    record { name = codes "a"; value = codes "1" }
    ∷ record { name = codes "b"; value = codes "x y" }
    ∷ []

-- A quoted value loses its quotes, a filter drops other names, and an empty part ends the line.
read_test :
    (read_cookies letters (codes " a=\"1\"; b=x y" ∷ []) [] ≡ some two)
    × (read_cookies letters (codes "a=1; b=2" ∷ []) (codes "b")
        ≡ some (record { name = codes "b"; value = codes "2" } ∷ []))
    × (read_cookies letters (codes "a=1;;b=2" ∷ []) []
        ≡ some (record { name = codes "a"; value = codes "1" } ∷ []))
unfolding read_cookies trim_string trim_start trim_end read_line next_part part_cookie index
    has_prefix is_empty name_value cookie_of is_cookie_name_valid all_bytes parse_cookie_value
    valid_cookie_value_byte same
read_test = (refl, refl, refl)

read_cookies-cookies_of_lines_example :
    read_cookies letters (codes "a=1; b=2" ∷ []) []
    ≡ some (cookies_of_lines letters [] (codes "a=1; b=2" ∷ []))
read_cookies-cookies_of_lines_example =
    read_cookies-cookies_of_lines letters (codes "a=1; b=2" ∷ []) [] refl

two-IsWritable : All (IsWritable letters letters-IsTokens) two
unfolding is_cookie_name_valid all_bytes valid_cookie_value_byte trim_end is_empty
two-IsWritable = (
  record { named = refl; valid = refl; trimmed = refl },
  (record { named = refl; valid = refl; trimmed = refl }, tt),
)

read_cookies-line_of_example : read_cookies letters (codes "a=1; b=x y" ∷ []) [] ≡ some two
read_cookies-line_of_example = read_cookies-line_of letters letters-IsTokens two two-IsWritable

read_cookies-named_example :
    read_cookies letters (codes "a=1; b=2" ∷ []) (codes "b")
    ≡ Option.map (named (codes "b")) (read_cookies letters (codes "a=1; b=2" ∷ []) [])
unfolding is_empty
read_cookies-named_example =
    read_cookies-named letters (codes "a=1; b=2" ∷ []) (codes "b") refl refl
