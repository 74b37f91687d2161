-- ===== src/Cookies/Print.antt =====
-- Cookies that are written into a header are read from it again.
use vweb.Common.{
  index-append, ℕ, suc, ◌≡◌, ◌≢◌, refl, sym, ap, ◌∙◌, subst, Bool, true, false, not, inl, inr, none,
  some, List, [], ◌∷◌, ◌++◌, arith, Bytes, split, drop, length, All, All-append, Lacks, is_empty,
  take-append_length, append-nil, append_assoc, if◌then◌else◌, Bool-cases,
}
use vweb.Cookies.{
  Httpguts, Cookie, all_bytes, trim_start, trim_end, trim_string, valid_cookie_value_byte,
  is_cookie_name_valid, name_value, cookie_of, part_cookie, read_cookies, is_ascii_space,
}
use vweb.Cookies.Parts.{split-Lacks, split-append}
use vweb.Cookies.Loop.{cookies_of, read_cookies-cookies_of_lines}
use vweb.Cookies.Written.{
  trim_end-append, trim_end_equals, and_left, and_right, all_bytes-Lacks, drop_behind,
  not_semicolon, parse_cookie_value_valid,
}

-- What the program relies on: a separator is not a token.
pub record IsTokens (lib : Httpguts) : Type 0 where
  pub semicolon : lib.is_token_rune b';' ≡ false
  pub equals : lib.is_token_rune b'=' ≡ false
  pub space : (c : ℕ) → is_ascii_space c ≡ true → lib.is_token_rune c ≡ false

abbrev pub pair : Cookie → Bytes
pair c = c.name ++ b'=' ∷ c.value

-- The cookies with "; " between them.
abbrev pub line_of : List Cookie → Bytes
line_of [] = []
line_of (c ∷ []) = pair c
line_of (c ∷ d ∷ cs) = pair c ++ b';' ∷ b' ' ∷ line_of (d ∷ cs)

module _ (lib : Httpguts) (laws : IsTokens lib) where
  -- A cookie that a header can hold.
  pub record IsWritable (c : Cookie) : Type 0 where
    pub named : is_cookie_name_valid lib c.name ≡ true
    pub valid : all_bytes valid_cookie_value_byte c.value ≡ true
    pub trimmed : trim_end c.value ≡ c.value

  trim_start_token :
      (s t : Bytes) → is_cookie_name_valid lib s ≡ true → trim_start (s ++ t) ≡ s ++ t
  unfolding trim_start is_cookie_name_valid is_empty all_bytes
  trim_start_token [] t e = absurd (cc e)
  trim_start_token (c ∷ s) t e = elim (Bool-cases (is_ascii_space c)) [
    | inl sp ↦ absurd (
        let h = and_left (lib.is_token_rune c) (all_bytes (lib.is_token_rune) s) e in
        cc (h, laws.space c sp))
    | inr ns ↦ rw ns
  ]

  trim_pair : (c : Cookie) → IsWritable c → trim_string (pair c) ≡ pair c
  unfolding trim_string
  trim_pair c w =
      ap trim_end (trim_start_token c.name (b'=' ∷ c.value) w.named)
      ∙ trim_end-append c.name (b'=' ∷ c.value) (λ e. cc e) (trim_end_equals c.value w.trimmed)

  name_tokens : (c : Cookie) → IsWritable c → all_bytes (lib.is_token_rune) c.name ≡ true
  unfolding is_cookie_name_valid
  name_tokens c w = and_right (not (is_empty c.name)) (all_bytes (lib.is_token_rune) c.name) w.named

  not_empty : (s : Bytes) (b : ℕ) (t : Bytes) → is_empty (s ++ b ∷ t) ≡ false
  unfolding is_empty
  not_empty [] b t = refl
  not_empty (c ∷ s) b t = refl

  name_value-pair : (c : Cookie) → IsWritable c → name_value lib (pair c) ≡ (c.name, c.value)
  unfolding name_value
  name_value-pair c w =
      let found =
        index-append c.name b'=' c.value
          (all_bytes-Lacks (lib.is_token_rune) b'=' c.name laws.equals (name_tokens c w)) in
      let first = take-append_length c.name (b'=' ∷ c.value) in
      let behind = drop_behind c.name b'=' c.value in
      rw (found, name_value)
        (ap (λ n. (n, drop (suc (length c.name)) (pair c))) first ∙ ap (λ v. (c.name, v)) behind)

  cookie_of_valid : (c : Cookie) → IsWritable c → cookie_of lib [] (c.name, c.value) ≡ some c
  unfolding cookie_of is_empty
  cookie_of_valid c w = rw (w.named, cookie_of, parse_cookie_value_valid c.value w.valid)

  cookie_of-pair : (c : Cookie) → IsWritable c → part_cookie lib [] (pair c) ≡ some c
  unfolding part_cookie
  cookie_of-pair c w =
      ap (λ part. if is_empty part then none else cookie_of lib [] (name_value lib part))
        (trim_pair c w)
      ∙ ap (λ b. if b then none else cookie_of lib [] (name_value lib (pair c)))
          (not_empty c.name b'=' c.value)
      ∙ ap (cookie_of lib []) (name_value-pair c w)
      ∙ cookie_of_valid c w

  part_cookie_space : (s : Bytes) → part_cookie lib [] (b' ' ∷ s) ≡ part_cookie lib [] s
  unfolding part_cookie trim_string trim_start
  part_cookie_space s = refl

  pair-Lacks : (c : Cookie) → IsWritable c → Lacks b';' (pair c)
  pair-Lacks c w =
      All-append (λ b. b ≢ b';') c.name (b'=' ∷ c.value)
        (all_bytes-Lacks (lib.is_token_rune) b';' c.name laws.semicolon (name_tokens c w))
        (
          λ q. absurd (omega (arith, q)),
          all_bytes-Lacks valid_cookie_value_byte b';' c.value not_semicolon w.valid,
        )

  is_empty-split :
      (s : Bytes) (rest : List Bytes) (c : Cookie)
      → part_cookie lib [] s ≡ some c
      → cookies_of lib [] (s ∷ rest) ≡ c ∷ cookies_of lib [] rest
  unfolding is_empty part_cookie trim_string trim_start trim_end
  is_empty-split [] rest c e = absurd (cc e)
  is_empty-split (b ∷ s) rest c e = rw e

  abbrev spaced : Bool → Bytes → Bytes
  spaced true s = b' ' ∷ s
  spaced false s = s

  spaced-append : (b : Bool) (s t : Bytes) → spaced b (s ++ t) ≡ spaced b s ++ t
  spaced-append true s t = refl
  spaced-append false s t = refl

  part_cookie-spaced :
      (b : Bool) (c : Cookie) → IsWritable c → part_cookie lib [] (spaced b (pair c)) ≡ some c
  part_cookie-spaced true c w = part_cookie_space (pair c) ∙ cookie_of-pair c w
  part_cookie-spaced false c w = cookie_of-pair c w

  spaced-Lacks : (b : Bool) (c : Cookie) → IsWritable c → Lacks b';' (spaced b (pair c))
  spaced-Lacks true c w = (λ q. absurd (omega (arith, q)), pair-Lacks c w)
  spaced-Lacks false c w = pair-Lacks c w

  -- The parts of a line of such cookies are read as these cookies.
  cookies_of-line_of :
      (b : Bool) (c : Cookie) (cs : List Cookie)
      → IsWritable c
      → All IsWritable cs
      → cookies_of lib [] (split (spaced b (line_of (c ∷ cs))) b';') ≡ c ∷ cs
  cookies_of-line_of b c [] w ws =
      ap (cookies_of lib []) (split-Lacks (spaced b (pair c)) b';' (spaced-Lacks b c w))
      ∙ is_empty-split (spaced b (pair c)) [] c (part_cookie-spaced b c w)
  cookies_of-line_of b c (d ∷ cs) w (v, ws) =
      let rest = b' ' ∷ line_of (d ∷ cs) in
      ap (λ s. cookies_of lib [] (split s b';')) (spaced-append b (pair c) (b';' ∷ rest))
      ∙ ap (cookies_of lib []) (split-append (spaced b (pair c)) b';' rest (spaced-Lacks b c w))
      ∙ is_empty-split (spaced b (pair c)) (split rest b';') c (part_cookie-spaced b c w)
      ∙ ap (λ x. c ∷ x) (cookies_of-line_of true d cs v ws)

  line_of-ne-nil : (c : Cookie) (cs : List Cookie) → line_of (c ∷ cs) ≢ []
  line_of-ne-nil c [] e = not_nil c.name e
    where
      not_nil : (s : Bytes) → s ++ b'=' ∷ c.value ≢ []
      not_nil [] h = absurd (cc h)
      not_nil (x ∷ s) h = absurd (cc h)
  line_of-ne-nil c (d ∷ cs) e = not_nil (pair c) e
    where
      not_nil : (s : Bytes) → s ++ b';' ∷ b' ' ∷ line_of (d ∷ cs) ≢ []
      not_nil [] h = absurd (cc h)
      not_nil (x ∷ s) h = absurd (cc h)

  trim_end-line_of :
      (c : Cookie) (cs : List Cookie)
      → IsWritable c
      → All IsWritable cs
      → trim_end (line_of (c ∷ cs)) ≡ line_of (c ∷ cs)
  trim_end-line_of c [] w ws =
      trim_end-append c.name (b'=' ∷ c.value) (λ e. cc e) (trim_end_equals c.value w.trimmed)
  trim_end-line_of c (d ∷ cs) w (v, ws) =
      let rest = line_of (d ∷ cs) in
      trim_end-append (pair c) (b';' ∷ b' ' ∷ rest) (λ e. cc e)
        (trim_end-append (b';' ∷ b' ' ∷ []) rest (line_of-ne-nil d cs) (trim_end-line_of d cs v ws))

  trim_start-line_of :
      (c : Cookie) (cs : List Cookie)
      → IsWritable c
      → trim_start (line_of (c ∷ cs)) ≡ line_of (c ∷ cs)
  trim_start-line_of c [] w = trim_start_token c.name (b'=' ∷ c.value) w.named
  trim_start-line_of c (d ∷ cs) w =
      let rest = b';' ∷ b' ' ∷ line_of (d ∷ cs) in
      subst (λ s. trim_start s ≡ s) (sym (append_assoc c.name (b'=' ∷ c.value) rest))
        (trim_start_token c.name ((b'=' ∷ c.value) ++ rest) w.named)

  -- Reading a header that was written.
  pub read_cookies-line_of :
      (cs : List Cookie) → All IsWritable cs → read_cookies lib (line_of cs ∷ []) [] ≡ some cs
  unfolding trim_string trim_start trim_end split is_empty
  read_cookies-line_of [] h = read_cookies-cookies_of_lines lib ([] ∷ []) [] laws.semicolon
  read_cookies-line_of (c ∷ cs) (w, ws) =
      let trimmed : trim_string (line_of (c ∷ cs)) ≡ line_of (c ∷ cs) =
        ap trim_end (trim_start-line_of c cs w) ∙ trim_end-line_of c cs w ws in
      read_cookies-cookies_of_lines lib (line_of (c ∷ cs) ∷ []) [] laws.semicolon
      ∙ ap (λ s. some (cookies_of lib [] (split s b';') ++ [])) trimmed
      ∙ ap (λ x. some (x ++ [])) (cookies_of-line_of false c cs w ws)
      ∙ ap some (append-nil (c ∷ cs))
