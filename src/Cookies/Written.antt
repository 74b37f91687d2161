-- ===== src/Cookies/Written.antt =====
-- Texts that trimming and the parsing of a value leave as they are.
use vweb.Common.{
  ℕ, suc, ◌-◌, ◌≡◌, ◌≢◌, refl, ap, ◌∙◌, Bool, true, false, ◌&&◌, none, some, [], ◌∷◌, ◌++◌, arith,
  Bytes, ◌==◌, take, drop, length, ltb, Lacks, and_false, if◌then◌else◌,
}
use vweb.Cookies.{
  all_bytes, trim_end, trim_byte, valid_cookie_value_byte, is_quoted, parse_cookie_value,
}

pub trim_end-append : (p q : Bytes) → q ≢ [] → trim_end q ≡ q → trim_end (p ++ q) ≡ p ++ q
unfolding trim_end
trim_end-append [] q n e = e
trim_end-append (c ∷ p) q n e =
    ap (trim_byte c) (trim_end-append p q n e) ∙ not_last (p ++ q) (more p)
  where
    more : (p : Bytes) → p ++ q ≢ []
    more [] h = n h
    more (d ∷ r) h = absurd (cc h)

    not_last : (s : Bytes) → s ≢ [] → trim_byte c s ≡ c ∷ s
    not_last [] h = absurd (h refl)
    not_last (d ∷ r) h = refl

pub trim_end_equals : (v : Bytes) → trim_end v ≡ v → trim_end (b'=' ∷ v) ≡ b'=' ∷ v
unfolding trim_end
trim_end_equals [] e = refl
trim_end_equals (d ∷ v) e = ap (trim_byte b'=') e

pub and_left : (a b : Bool) → a && b ≡ true → a ≡ true
and_left true b e = refl
and_left false b e = e

pub and_right : (a b : Bool) → a && b ≡ true → b ≡ true
and_right true b e = e
and_right false b e = absurd (cc e)

-- A text of such bytes has no other byte.
pub all_bytes-Lacks :
    (p : ℕ → Bool) (b : ℕ) (s : Bytes) → p b ≡ false → all_bytes p s ≡ true → Lacks b s
unfolding all_bytes
all_bytes-Lacks p b [] f e = tt
all_bytes-Lacks p b (c ∷ s) f e = (
  λ q. absurd (let h = and_left (p c) (all_bytes p s) e in cc (f, h, ap p q)),
  all_bytes-Lacks p b s f (and_right (p c) (all_bytes p s) e),
)

pub drop_behind : (p : Bytes) (c : ℕ) (s : Bytes) → drop (suc (length p)) (p ++ c ∷ s) ≡ s
drop_behind [] c s = refl
drop_behind (d ∷ p) c s = drop_behind p c s

pub not_quote : (b : ℕ) → valid_cookie_value_byte b ≡ true → (b == b'"') ≡ false
unfolding valid_cookie_value_byte
not_quote b e = ground arith

pub not_semicolon : valid_cookie_value_byte b';' ≡ false
unfolding valid_cookie_value_byte
not_semicolon = refl

pub is_quoted_valid : (v : Bytes) → all_bytes valid_cookie_value_byte v ≡ true → is_quoted v ≡ false
unfolding all_bytes
is_quoted_valid [] e = refl
is_quoted_valid (b ∷ v) e =
    let valid = and_left (valid_cookie_value_byte b) (all_bytes valid_cookie_value_byte v) e in
    rw (not_quote b valid) (and_false (ltb 1 (length (b ∷ v))))

pub parse_cookie_value_valid :
    (v : Bytes) → all_bytes valid_cookie_value_byte v ≡ true → parse_cookie_value v true ≡ some v
unfolding parse_cookie_value
parse_cookie_value_valid v e =
    ap
      (λ b.
        let t = if b then take (length v - 2) (drop 1 v) else v in
        if all_bytes valid_cookie_value_byte t then some t else none)
      (is_quoted_valid v e)
    ∙ rw e
