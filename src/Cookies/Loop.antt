-- ===== src/Cookies/Loop.antt =====
-- The loop over a line ends, and it reads the parts between the ";" up to the first empty one.
use vweb.Common.{
  index-later, ℕ, zero, suc, ◌≤◌, ◌≡◌, refl, sym, ap, ◌∙◌, subst, false, inl, inr, Option, none,
  some, List, [], ◌∷◌, ◌++◌, arith, Bytes, codes, ◌==◌, ==_iff, index, split, take, drop, length,
  length-drop, is_empty, if◌then◌else◌, Bool-cases, Option-cases, some_inj,
}
use mathlib.Core.Option
use vweb.Cookies.{
  Httpguts, Cookie, cookie_of, all_bytes, trim_start, trim_end, trim_string, trim_byte,
  is_cookie_name_valid, name_value, part_cookie, next_part, keep, read_line, read_cookies,
}
use vweb.Cookies.Parts.{split-index-none, split-index-some}

module _ (lib : Httpguts) where
  abbrev pub keep_one : Option Cookie → List Cookie → List Cookie
  keep_one none cookies = cookies
  keep_one (some c) cookies = c ∷ cookies

  -- The cookies of the parts before the first empty one, in order.
  abbrev pub cookies_of : Bytes → List Bytes → List Cookie
  cookies_of filter [] = []
  cookies_of filter (part ∷ parts) =
      let rest = cookies_of filter parts in
      if is_empty part then [] else keep_one (part_cookie lib filter part) rest

  abbrev pub cookies_of_lines : Bytes → List Bytes → List Cookie
  cookies_of_lines filter [] = []
  cookies_of_lines filter (line ∷ lines) =
      cookies_of filter (split (trim_string line) b';') ++ cookies_of_lines filter lines

  keep-some : (c : Option Cookie) (cs : List Cookie) → keep lib c (some cs) ≡ some (keep_one c cs)
  keep-some none cs = refl
  keep-some (some c) cs = refl

  trim_semicolon : (s : Bytes) → (u : Bytes) × (trim_string (b';' ∷ s) ≡ b';' ∷ u)
  unfolding trim_string trim_start trim_end
  trim_semicolon s = by_end (trim_end s)
    where
      by_end : (r : Bytes) → (u : Bytes) × (trim_byte b';' r ≡ b';' ∷ u)
      by_end [] = ([], refl)
      by_end (d ∷ r) = (d ∷ r, refl)

  name_semicolon : (s : Bytes) → (u : Bytes) × ((name_value lib (b';' ∷ s)).0 ≡ b';' ∷ u)
  unfolding name_value
  name_semicolon s =
      by_index (index s (codes "=")) (index (b';' ∷ s) (codes "=")) (index-later b';' s b'=' refl)
    where
      chosen : Option ℕ → Bytes × Bytes
      chosen none = (b';' ∷ s, [])
      chosen (some j) = (take j (b';' ∷ s), drop (suc j) (b';' ∷ s))

      by_index : (o i : Option ℕ) → i ≡ Option.map suc o → (u : Bytes) × ((chosen i).0 ≡ b';' ∷ u)
      by_index none none e = (s, refl)
      by_index none (some i) e = absurd (cc e)
      by_index (some j) none e = absurd (cc e)
      by_index (some j) (some i) e = (take j s, ap (λ k. take k (b';' ∷ s)) (some_inj e))

  cookie_of_semicolon :
      (filter : Bytes) (nv : Bytes × Bytes) (u : Bytes)
      → lib.is_token_rune b';' ≡ false
      → nv.0 ≡ b';' ∷ u
      → cookie_of lib filter nv ≡ none
  unfolding cookie_of is_cookie_name_valid all_bytes is_empty
  cookie_of_semicolon filter (name, val) u t e = rw (e, cookie_of, t)

  -- A part that starts with ";" has no valid name.
  part_cookie_semicolon :
      (filter s : Bytes) → lib.is_token_rune b';' ≡ false → part_cookie lib filter (b';' ∷ s) ≡ none
  unfolding part_cookie is_empty
  part_cookie_semicolon filter s t =
      let (u, trimmed) = trim_semicolon s in
      let (v, named) = name_semicolon u in
      ap (λ part. if is_empty part then none else cookie_of lib filter (name_value lib part))
        trimmed
      ∙ cookie_of_semicolon filter (name_value lib (b';' ∷ u)) v t named

  -- What the next part is, by the place of the ";".
  next_part-none : (line : Bytes) → index line (codes ";") ≡ none → next_part lib line ≡ (line, [])
  unfolding next_part
  next_part-none line e = rw (e, next_part)

  next_part-zero :
      (line : Bytes) → index line (codes ";") ≡ some 0 → next_part lib line ≡ (line, [])
  unfolding next_part
  next_part-zero line e = rw (e, next_part)

  next_part-suc :
      (line : Bytes) (i : ℕ)
      → index line (codes ";") ≡ some (suc i)
      → next_part lib line ≡ (take (suc i) line, drop (suc (suc i)) line)
  unfolding next_part
  next_part-suc line i e = rw (e, next_part)

  read_line_step :
      (n : ℕ) (filter : Bytes) (c : ℕ) (s : Bytes)
      → read_line lib (suc n) filter (c ∷ s)
        ≡ keep lib
            (part_cookie lib filter (next_part lib (c ∷ s)).0)
            (read_line lib n filter (next_part lib (c ∷ s)).1)
  unfolding read_line is_empty
  read_line_step n filter c s = refl

  read_line_empty : (n : ℕ) (filter : Bytes) → read_line lib n filter [] ≡ some []
  unfolding read_line is_empty
  read_line_empty zero filter = refl
  read_line_empty (suc n) filter = refl

  -- One round, for a part and the rest of the line.
  read_line-next_part :
      (n : ℕ) (filter : Bytes) (c : ℕ) (s part rest : Bytes) (cs : List Cookie)
      → next_part lib (c ∷ s) ≡ (part, rest)
      → read_line lib n filter rest ≡ some cs
      → read_line lib (suc n) filter (c ∷ s) ≡ some (keep_one (part_cookie lib filter part) cs)
  read_line-next_part n filter c s part rest cs p more =
      read_line_step n filter c s
      ∙ ap (λ pr. keep lib (part_cookie lib filter pr.0) (read_line lib n filter pr.1)) p
      ∙ ap (keep lib (part_cookie lib filter part)) more
      ∙ keep-some (part_cookie lib filter part) cs

  starts_semicolon : (c : ℕ) (s : Bytes) → index (c ∷ s) (codes ";") ≡ some 0 → c ≡ b';'
  starts_semicolon c s e = elim (Bool-cases (c == b';')) [
    | inl y ↦ (==_iff c b';').0 y
    | inr n ↦ absurd (not_zero (index s (codes ";")) (sym (index-later c s b';' n) ∙ e))
  ]
    where
      not_zero : (o : Option ℕ) → ¬ (Option.map suc o ≡ some 0)
      not_zero none h = cc h
      not_zero (some k) h = let q = some_inj h in omega (arith, q)

  pub read_line-cookies_of :
      (n : ℕ) (filter line : Bytes)
      → lib.is_token_rune b';' ≡ false
      → length line ≤ n
      → read_line lib n filter line ≡ some (cookies_of filter (split line b';'))
  unfolding is_empty
  read_line-cookies_of n filter [] t h = read_line_empty n filter ∙ unfold split in refl
  read_line-cookies_of zero filter (c ∷ s) t h = absurd (omega arith)
  read_line-cookies_of (suc n) filter (c ∷ s) t h =
      elim (Option-cases (index (c ∷ s) (codes ";"))) [
        | inl e ↦
            read_line-next_part n filter c s (c ∷ s) [] [] (next_part-none (c ∷ s) e)
              (read_line_empty n filter)
            ∙ ap (λ ps. some (cookies_of filter ps)) (sym (split-index-none (c ∷ s) b';' e))
        | inr (i, e) ↦ by_place i e (read_line-cookies_of n filter (drop i s) t (shorter i))
      ]
    where
      shorter : (i : ℕ) → length (drop i s) ≤ n
      shorter i = let d = length-drop i s in omega arith

      by_place :
          (i : ℕ)
          → index (c ∷ s) (codes ";") ≡ some i
          → read_line lib n filter (drop i s) ≡ some (cookies_of filter (split (drop i s) b';'))
          → read_line lib (suc n) filter (c ∷ s) ≡ some (cookies_of filter (split (c ∷ s) b';'))
      by_place zero e ih =
          read_line-next_part n filter c s (c ∷ s) [] [] (next_part-zero (c ∷ s) e)
            (read_line_empty n filter)
          ∙ ap (λ o. some (keep_one o []))
              (subst (λ x. part_cookie lib filter (x ∷ s) ≡ none) (sym (starts_semicolon c s e))
                (part_cookie_semicolon filter s t))
          ∙ ap (λ ps. some (cookies_of filter ps)) (sym (split-index-some (c ∷ s) b';' 0 e))
      by_place (suc i) e ih =
          read_line-next_part n filter c s (c ∷ take i s) (drop (suc i) s) _
            (next_part-suc (c ∷ s) i e) ih
          ∙ ap (λ ps. some (cookies_of filter ps)) (sym (split-index-some (c ∷ s) b';' (suc i) e))

  -- The whole of the headers.
  pub read_cookies-cookies_of_lines :
      (lines : List Bytes) (filter : Bytes)
      → lib.is_token_rune b';' ≡ false
      → read_cookies lib lines filter ≡ some (cookies_of_lines filter lines)
  unfolding read_cookies
  read_cookies-cookies_of_lines [] filter t = refl
  read_cookies-cookies_of_lines (line ∷ lines) filter t = rw (
    read_line-cookies_of (length (trim_string line)) filter (trim_string line) t (omega arith),
    read_cookies-cookies_of_lines lines filter t,
  )
