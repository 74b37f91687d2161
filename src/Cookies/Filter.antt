-- ===== src/Cookies/Filter.antt =====
-- A filter picks from the cookies that are read without it.
use vweb.Common.{
  ◌≡◌, refl, sym, ap, ◌∙◌, Bool, true, false, not, ◌&&◌, Option, none, some, List, [], ◌∷◌, ◌++◌,
  Bytes, is_empty, same, split, if◌then◌else◌,
}
use mathlib.Core.Option
use vweb.Cookies.{
  Httpguts, Cookie, parse_cookie_value, is_cookie_name_valid, name_value, cookie_of, part_cookie,
  trim_string, read_cookies,
}
use vweb.Cookies.Loop.{keep_one, cookies_of, cookies_of_lines, read_cookies-cookies_of_lines}

-- The cookies with the name, in order.
abbrev pub named : Bytes → List Cookie → List Cookie
named name [] = []
named name (c ∷ cs) = let rest = named name cs in if same name c.name then c ∷ rest else rest

abbrev named_one : Bytes → Option Cookie → Option Cookie
named_one name none = none
named_one name (some c) = if same name c.name then some c else none

named-append :
    (name : Bytes) (xs ys : List Cookie) → named name (xs ++ ys) ≡ named name xs ++ named name ys
named-append name [] ys = refl
named-append name (c ∷ xs) ys =
    ap (λ t. if same name c.name then c ∷ t else t) (named-append name xs ys)
    ∙ front (same name c.name) (named name xs)
  where
    front :
        (b : Bool) (t : List Cookie)
        → (if b then c ∷ (t ++ named name ys) else t ++ named name ys)
          ≡ (if b then c ∷ t else t) ++ named name ys
    front true t = refl
    front false t = refl

module _ (lib : Httpguts) where
  named-keep_one :
      (name : Bytes) (o : Option Cookie) (cs : List Cookie)
      → named name (keep_one lib o cs) ≡ keep_one lib (named_one name o) (named name cs)
  named-keep_one name none cs = refl
  named-keep_one name (some c) cs = by_name (same name c.name)
    where
      by_name :
          (b : Bool)
          → (if b then c ∷ named name cs else named name cs)
            ≡ keep_one lib (if b then some c else none) (named name cs)
      by_name true = refl
      by_name false = refl

  -- The filter of one part.
  named_one-cookie_of :
      (filter : Bytes) (nv : Bytes × Bytes)
      → is_empty filter ≡ false
      → cookie_of lib filter nv ≡ named_one filter (cookie_of lib [] nv)
  unfolding cookie_of is_empty
  named_one-cookie_of filter (name, val) e =
      by_case (is_cookie_name_valid lib name) (is_empty filter) (same filter name)
        (parse_cookie_value val true) e refl
    where
      by_case :
          (v b s : Bool) (o : Option Bytes)
          → b ≡ false
          → s ≡ same filter name
          → (if not v then none else if not b && not s then none else elim o [
            | none ↦ none
            | some value ↦ some (record { name = name; value = value })
          ])
            ≡ named_one filter (
                if not v then none else elim o [
                  | none ↦ none
                  | some value ↦ some (record { name = name; value = value })
                ])
      by_case false b s o e q = refl
      by_case true true s o e q = absurd (cc e)
      by_case true false true none e q = refl
      by_case true false true (some value) e q = rw (sym q)
      by_case true false false none e q = refl
      by_case true false false (some value) e q = rw (sym q)

  named_one-part_cookie :
      (filter part : Bytes)
      → is_empty filter ≡ false
      → part_cookie lib filter part ≡ named_one filter (part_cookie lib [] part)
  unfolding part_cookie
  named_one-part_cookie filter part e =
      by_empty (is_empty (trim_string part)) (cookie_of lib [] (name_value lib (trim_string part)))
        (named_one-cookie_of filter (name_value lib (trim_string part)) e)
    where
      by_empty :
          (b : Bool) {x : Option Cookie} (y : Option Cookie)
          → x ≡ named_one filter y
          → (if b then none else x) ≡ named_one filter (if b then none else y)
      by_empty true y q = refl
      by_empty false y q = q

  named-cookies_of :
      (filter : Bytes) (parts : List Bytes)
      → is_empty filter ≡ false
      → cookies_of lib filter parts ≡ named filter (cookies_of lib [] parts)
  named-cookies_of filter [] e = refl
  named-cookies_of filter (part ∷ parts) e =
      by_empty (is_empty part) (keep_one lib (part_cookie lib [] part) (cookies_of lib [] parts)) (
        ap (λ cs. keep_one lib (part_cookie lib filter part) cs) (named-cookies_of filter parts e)
        ∙ ap (λ o. keep_one lib o (named filter (cookies_of lib [] parts)))
            (named_one-part_cookie filter part e)
        ∙ sym (named-keep_one filter (part_cookie lib [] part) (cookies_of lib [] parts)))
    where
      by_empty :
          (b : Bool) {x : List Cookie} (y : List Cookie)
          → x ≡ named filter y
          → (if b then [] else x) ≡ named filter (if b then [] else y)
      by_empty true y q = refl
      by_empty false y q = q

  named-cookies_of_lines :
      (filter : Bytes) (lines : List Bytes)
      → is_empty filter ≡ false
      → cookies_of_lines lib filter lines ≡ named filter (cookies_of_lines lib [] lines)
  named-cookies_of_lines filter [] e = refl
  named-cookies_of_lines filter (line ∷ lines) e =
      let parts = split (trim_string line) b';' in
      ap (λ cs. cs ++ cookies_of_lines lib filter lines) (named-cookies_of filter parts e)
      ∙ ap (λ cs. named filter (cookies_of lib [] parts) ++ cs)
          (named-cookies_of_lines filter lines e)
      ∙ sym (named-append filter (cookies_of lib [] parts) (cookies_of_lines lib [] lines))

  -- With a filter.
  pub read_cookies-named :
      (lines : List Bytes) (filter : Bytes)
      → lib.is_token_rune b';' ≡ false
      → is_empty filter ≡ false
      → read_cookies lib lines filter ≡ Option.map (named filter) (read_cookies lib lines [])
  read_cookies-named lines filter t e =
      read_cookies-cookies_of_lines lib lines filter t
      ∙ ap some (named-cookies_of_lines filter lines e)
      ∙ ap (Option.map (named filter)) (sym (read_cookies-cookies_of_lines lib lines [] t))
