-- ===== src/Route/Table/Entries.antt =====
-- What the URL of a route fixes of its entry in the table.
use vweb.Common.{
  is_empty, is_empty_iff, ◌⊎◌, ◌≡◌, refl, Bool, true, false, Option, none, some, List, [], Bytes,
  codes, has_prefix, has_suffix, contains_any, split, not, ◌&&◌, ◌||◌, Bool-cases, Option-cases,
  inl, inr, Checked, returns, panics, subst_returns,
}
use vweb.Regexps.{Regexps}
use vweb.Route.Segment.{SegmentPart}
use vweb.Route.Table.Parts.{PartsOf, PartsOf-parse_segments}
use vweb.Route.Table.{RoutePathPlaceholder, plain_entry, parse_segments, is_regex, new_entry}

-- A URL that is a regular expression, has a wildcard, has a brace.
abbrev pub is_regexp_url : Bytes → Bool
is_regexp_url url = has_prefix url (codes "^") || has_suffix url (codes "$")

abbrev pub is_wild_url : Bytes → Bool
is_wild_url url = not (is_regexp_url url) && contains_any url (codes "[]*?\\")

abbrev pub is_braced_url : Bytes → Bool
is_braced_url url =
    not (is_regexp_url url)
    && not (contains_any url (codes "[]*?\\"))
    && contains_any url (codes "{}")

abbrev pub is_literal_url : Bytes → Bool
is_literal_url url =
    not (is_regexp_url url)
    && not (contains_any url (codes "[]*?\\"))
    && not (contains_any url (codes "{}"))

abbrev pub is_literal : {X H : Type 0} → RoutePathPlaceholder X H → Bool
is_literal e = not e.is_regexp && not e.is_symbol && not e.is_placeholder

-- A URL that is a regular expression gives the expression that it compiles to, in its leftmost-longest
-- form, which is more than a literal text; another gives none.
abbrev pub CompiledFrom :
    (lib : Regexps) (url : Bytes) (is_regexp : Bool) → Option (lib.Regex) → Type 0
CompiledFrom lib url false o = o ≡ none
CompiledFrom lib url true o =
    (re : lib.Regex) × (lib.compile url ≡ some re)
    × (((lib.literal_prefix re).1 ≡ false) ⊎ ((lib.literal_prefix re).0 ≡ []))
    × (o ≡ some (lib.longest re))

is_regex_sound :
    (lib : Regexps) (re : lib.Regex)
    → is_regex lib re ≡ true
    → ((lib.literal_prefix re).1 ≡ false) ⊎ ((lib.literal_prefix re).0 ≡ [])
unfolding is_regex
is_regex_sound lib re h = by_parts (lib.literal_prefix re).0 (lib.literal_prefix re).1 h
  where
    by_parts : (p : Bytes) (b : Bool) → not b || is_empty p ≡ true → (b ≡ false) ⊎ (p ≡ [])
    by_parts p false e = inl refl
    by_parts p true e = inr ((is_empty_iff p).0 e)

-- What a URL fixes of its entry.
pub record IsOf (lib : Regexps) {H : Type 0} (url : Bytes) (handle : H)
    (e : RoutePathPlaceholder lib.Regex H) : Type 0 where
  pub url_same : e.url ≡ url
  pub handle_same : e.handle ≡ handle
  pub kind : is_literal e ≡ is_literal_url url
  pub segments : e.path_segments ≡ split url b'/'
  pub parsed : e.is_placeholder ≡ true → parse_segments (split url b'/') ≡ returns e.parsed_parts
  pub parts : e.is_placeholder ≡ true → PartsOf (split url b'/') e.parsed_parts
  pub dir : e.is_dir ≡ has_suffix url (codes "/")
  pub regexp : e.is_regexp ≡ is_regexp_url url
  pub symbol : e.is_symbol ≡ is_wild_url url
  pub placeholder : e.is_placeholder ≡ is_braced_url url
  pub compiled : CompiledFrom lib url (is_regexp_url url) e.path_regex
  pub unparsed : is_braced_url url ≡ false → e.parsed_parts ≡ []

module _ (lib : Regexps) {H : Type 0} where
  pub new_entry-IsOf :
      (url : Bytes) (handle : H) (e : RoutePathPlaceholder lib.Regex H)
      → new_entry lib url handle ≡ returns e
      → IsOf lib url handle e
  unfolding new_entry plain_entry
  new_entry-IsOf url handle e h = elim (Bool-cases (is_regexp_url url)) [
    | inl regexp ↦ elim (Option-cases (lib.compile url)) [
      | inl wrong ↦ absurd (cc (rw (regexp, wrong, new_entry) at h))
      | inr (re, compiled) ↦ elim (Bool-cases (is_regex lib re)) [
        | inr literal ↦ absurd (cc (rw (regexp, compiled, literal, new_entry) at h))
        | inl real ↦
            subst_returns (IsOf lib url handle) (rw (regexp, compiled, real, new_entry) at h)
              (record {
                url_same = refl;
                handle_same = refl;
                kind = rw regexp refl;
                segments = refl;
                parsed = λ x. absurd (cc x);
                parts = λ x. absurd (cc x);
                dir = refl;
                regexp = rw regexp refl;
                symbol = rw regexp refl;
                placeholder = rw regexp refl;
                compiled = rw regexp (re, compiled, is_regex_sound lib re real, refl);
                unparsed = λ x. refl;
              })
      ]
    ]
    | inr plain ↦ elim (Bool-cases (contains_any url (codes "[]*?\\"))) [
      | inl wild ↦ subst_returns (IsOf lib url handle) (rw (plain, wild, new_entry) at h) (record {
        url_same = refl;
        handle_same = refl;
        kind = rw (plain, wild) refl;
        segments = refl;
        parsed = λ x. absurd (cc x);
        parts = λ x. absurd (cc x);
        dir = refl;
        regexp = rw plain refl;
        symbol = rw (plain, wild) refl;
        placeholder = rw (plain, wild) refl;
        compiled = rw plain refl;
        unparsed = λ x. refl;
      })
      | inr tame ↦ elim (Bool-cases (contains_any url (codes "{}"))) [
        | inr bare ↦
            subst_returns (IsOf lib url handle) (rw (plain, tame, bare, new_entry) at h) (record {
              url_same = refl;
              handle_same = refl;
              kind = rw (plain, tame, bare) refl;
              segments = refl;
              parsed = λ x. absurd (cc x);
              parts = λ x. absurd (cc x);
              dir = refl;
              regexp = rw plain refl;
              symbol = rw (plain, tame) refl;
              placeholder = rw (plain, tame, bare) refl;
              compiled = rw plain refl;
              unparsed = λ x. refl;
            })
        | inl braced ↦ parsed_cases (parse_segments (split url b'/')) refl plain tame braced
      ]
    ]
  ]
    where
      parsed_cases :
          (r : Checked (List (Option (List SegmentPart))))
          → parse_segments (split url b'/') ≡ r
          → is_regexp_url url ≡ false
          → contains_any url (codes "[]*?\\") ≡ false
          → contains_any url (codes "{}") ≡ true
          → IsOf lib url handle e
      parsed_cases (panics msg) failed plain tame braced =
          absurd (cc (rw (plain, tame, braced, failed, new_entry) at h))
      parsed_cases (returns parts) done plain tame braced =
          subst_returns (IsOf lib url handle) (rw (plain, tame, braced, done, new_entry) at h)
            (record {
              url_same = refl;
              handle_same = refl;
              kind = rw (plain, tame, braced) refl;
              segments = refl;
              parsed = λ x. done;
              parts = λ x. PartsOf-parse_segments (split url b'/') parts done;
              dir = refl;
              regexp = rw plain refl;
              symbol = rw (plain, tame) refl;
              placeholder = rw (plain, tame, braced) refl;
              compiled = rw plain refl;
              unparsed = λ x. absurd (cc (rw (plain, tame, braced) at x));
            })
