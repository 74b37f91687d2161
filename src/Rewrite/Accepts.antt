-- ===== src/Rewrite/Accepts.antt =====
-- When a path is rewritten, in terms of the patterns that the Forward lists.
use vweb.Common.{
  or_assoc, or_rotate, and_false, and_true, or_false, ◌≡◌, refl, sym, ap, ◌∙◌, subst, subst_some,
  Bool, true, false, Option, none, some, List, [], ◌∷◌, ◌++◌, Bytes, ◌&&◌, ◌||◌, not, same, lookup,
  insert, lookup-insert, if◌then◌else◌, Bool-cases, Option-cases, inl, inr,
}
use vweb.Regexps.{Regexps}
use vweb.Rewrite.{
  Forward, ForwardRewriter, Exact, has_exact, compile_loop, compile, first_match, rewrite_path,
  rewrite,
}

module _ (lib : Regexps) (upath : Bytes) where
  -- A pattern accepts a path: a literal one accepts itself alone, another what it matches anywhere.
  abbrev pub accepts : Bytes → Bool
  accepts p = elim (lib.compile p) [
    | none ↦ false
    | some re ↦
        if (lib.literal_prefix re).1
        then same (lib.literal_prefix re).0 upath
        else lib.match_string re upath
  ]

  abbrev pub accepts_any : List Bytes → Bool
  accepts_any [] = false
  accepts_any (p ∷ ps) = accepts p || accepts_any ps

  abbrev some_match : List lib.Regex → Bool
  some_match regexes = elim (first_match lib regexes upath) [ none ↦ false | some re ↦ true ]

  -- What the compiled lists accept.
  abbrev hits : Exact → List lib.Regex → Bool
  hits exact regexes = has_exact upath exact || some_match regexes

  has_exact-insert :
      (k : Bytes) (exact : Exact)
      → has_exact upath (insert k tt exact) ≡ same k upath || has_exact upath exact
  has_exact-insert k exact = elim (Bool-cases (same k upath)) [
    | inl e ↦ rw (has_exact, lookup-insert k upath tt exact, e)
    | inr e ↦ rw (has_exact, lookup-insert k upath tt exact, e)
  ]

  some_match-cons :
      (r : lib.Regex) (regexes : List lib.Regex)
      → some_match (r ∷ regexes) ≡ lib.match_string r upath || some_match regexes
  unfolding first_match
  some_match-cons r regexes = elim (Bool-cases (lib.match_string r upath)) [
    | inl e ↦ rw (some_match, first_match, e)
    | inr e ↦ rw (some_match, first_match, e)
  ]

  some_match-append :
      (re : lib.Regex) (regexes : List lib.Regex)
      → some_match (regexes ++ re ∷ []) ≡ some_match regexes || lib.match_string re upath
  unfolding first_match
  some_match-append re [] = some_match-cons re [] ∙ sym (or_false (lib.match_string re upath))
  some_match-append re (r ∷ regexes) =
      some_match-cons r (regexes ++ re ∷ [])
      ∙ ap (λ b. lib.match_string r upath || b) (some_match-append re regexes)
      ∙ sym (or_assoc (lib.match_string r upath) (some_match regexes) (lib.match_string re upath))
      ∙ ap (λ b. b || lib.match_string re upath) (sym (some_match-cons r regexes))

  accepts-literal :
      (p : Bytes) (re : lib.Regex)
      → lib.compile p ≡ some re
      → (lib.literal_prefix re).1 ≡ true
      → accepts p ≡ same (lib.literal_prefix re).0 upath
  accepts-literal p re e literal = rw (accepts, e, literal)

  accepts-regular :
      (p : Bytes) (re : lib.Regex)
      → lib.compile p ≡ some re
      → (lib.literal_prefix re).1 ≡ false
      → accepts p ≡ lib.match_string re upath
  accepts-regular p re e regular = rw (accepts, e, regular)

  abbrev Compiles : Exact → List lib.Regex → List Bytes → Option (Exact × List lib.Regex) → Type 0
  Compiles exact regexes ps none = Unit
  Compiles exact regexes ps (some (exact', regexes')) =
      hits exact' regexes' ≡ hits exact regexes || accepts_any ps

  Compiles-step :
      (p : Bytes) (ps : List Bytes) (exact exact' : Exact) (regexes regexes' : List lib.Regex)
      (result : Option (Exact × List lib.Regex))
      → hits exact' regexes' ≡ hits exact regexes || accepts p
      → Compiles exact' regexes' ps result
      → Compiles exact regexes (p ∷ ps) result
  Compiles-step p ps exact exact' regexes regexes' none e h = tt
  Compiles-step p ps exact exact' regexes regexes' (some (x, r)) e h =
      h
      ∙ ap (λ b. b || accepts_any ps) e
      ∙ or_assoc (hits exact regexes) (accepts p) (accepts_any ps)

  compile_loop-Compiles :
      (ps : List Bytes) (exact : Exact) (regexes : List lib.Regex)
      → Compiles exact regexes ps (compile_loop lib ps exact regexes)
  unfolding compile_loop
  compile_loop-Compiles [] exact regexes = or_false (hits exact regexes)
  compile_loop-Compiles (p ∷ ps) exact regexes = elim (Option-cases (lib.compile p)) [
    | inl e ↦ rw (e, compile_loop) tt
    | inr (re, e) ↦ elim (Bool-cases (lib.literal_prefix re).1) [
      | inl literal ↦
          rw (compile_loop, e, literal)
            (Compiles-step p ps exact (insert (lib.literal_prefix re).0 tt exact) regexes regexes _
              (ap (λ b. b || some_match regexes) (has_exact-insert (lib.literal_prefix re).0 exact)
                ∙ or_rotate (same (lib.literal_prefix re).0 upath) (has_exact upath exact)
                    (some_match regexes)
                ∙ ap (λ b. hits exact regexes || b) (sym (accepts-literal p re e literal)))
              (compile_loop-Compiles ps (insert (lib.literal_prefix re).0 tt exact) regexes))
      | inr regular ↦
          rw (compile_loop, e, regular)
            (Compiles-step p ps exact exact regexes (regexes ++ re ∷ []) _
              (ap (λ b. has_exact upath exact || b) (some_match-append re regexes)
                ∙ sym (
                    or_assoc (has_exact upath exact) (some_match regexes)
                      (lib.match_string re upath))
                ∙ ap (λ b. hits exact regexes || b) (sym (accepts-regular p re e regular)))
              (compile_loop-Compiles ps exact (regexes ++ re ∷ [])))
    ]
  ]

abbrev pub Compiled : (lib : Regexps) → Forward → ForwardRewriter lib.Regex → Type 0
Compiled lib f t =
    (compile_loop lib f.exclude_path [] [] ≡ some (t.exclude_exact, t.exclude_regex))
    × (compile_loop lib f.path [] [] ≡ some (t.path_exact, t.path_regex))
    × (t.re_path ≡ f.re_path)

Compiled-of_compile :
    (lib : Regexps) (f : Forward) (t : ForwardRewriter lib.Regex)
    → compile lib (some f) ≡ some t
    → Compiled lib f t
unfolding compile
Compiled-of_compile lib f t e =
    by_cases (compile_loop lib f.exclude_path [] []) (compile_loop lib f.path [] []) refl refl
  where
    unfolded :
        (x y : Exact × List lib.Regex)
        → compile_loop lib f.exclude_path [] [] ≡ some x
        → compile_loop lib f.path [] [] ≡ some y
        → compile lib (some f)
          ≡ some (record {
            path_exact = y.0;
            path_regex = y.1;
            exclude_exact = x.0;
            exclude_regex = x.1;
            re_path = f.re_path;
          })
    unfolded x y i j = rw (compile, i, j)

    by_cases :
        (x y : Option (Exact × List lib.Regex))
        → compile_loop lib f.exclude_path [] [] ≡ x
        → compile_loop lib f.path [] [] ≡ y
        → Compiled lib f t
    by_cases none y i j = absurd (cc)
    by_cases (some x) none i j = absurd (cc)
    by_cases (some x) (some y) i j =
        subst_some (λ s. Compiled lib f s) (sym (unfolded x y i j) ∙ e) (i, j, refl)

module _ (lib : Regexps) (upath : Bytes) where
  accepts_any-loop :
      (ps : List Bytes) (exact : Exact) (regexes : List lib.Regex)
      → compile_loop lib ps [] [] ≡ some (exact, regexes)
      → hits lib upath exact regexes ≡ accepts_any lib upath ps
  unfolding lookup first_match
  accepts_any-loop ps exact regexes e =
      subst (Compiles lib upath [] [] ps) e (compile_loop-Compiles lib upath ps [] [])

  rewrite_path-hits :
      (t : ForwardRewriter lib.Regex)
      → (rewrite_path lib t upath).1 ≡ hits lib upath t.path_exact t.path_regex
  unfolding rewrite_path
  rewrite_path-hits t = elim (Bool-cases (has_exact upath t.path_exact)) [
    | inl e ↦ rw (rewrite_path, hits, e)
    | inr e ↦ elim (Option-cases (first_match lib t.path_regex upath)) [
      | inl m ↦ rw (rewrite_path, hits, some_match, e, m)
      | inr (re, m) ↦ rw (rewrite_path, hits, some_match, e, m)
    ]
  ]

  rewrite-hits :
      (t : ForwardRewriter lib.Regex)
      → (rewrite lib (some t) upath).1
        ≡ hits lib upath t.path_exact t.path_regex
          && not (hits lib upath t.exclude_exact t.exclude_regex)
  unfolding rewrite
  rewrite-hits t = elim (Bool-cases (has_exact upath t.exclude_exact)) [
    | inl e ↦ rw (rewrite, e) (sym (and_false (hits lib upath t.path_exact t.path_regex)))
    | inr e ↦ elim (Option-cases (first_match lib t.exclude_regex upath)) [
      | inl m ↦
          rw (rewrite, some_match, e, m)
            (rewrite_path-hits t ∙ sym (and_true (hits lib upath t.path_exact t.path_regex)))
      | inr (re, m) ↦
          rw (rewrite, some_match, e, m)
            (sym (and_false (hits lib upath t.path_exact t.path_regex)))
    ]
  ]

-- For a Forward that Compile takes: a path is rewritten exactly if one of the patterns of Path accepts
-- it and none of those of ExcludePath does, where a literal pattern accepts its own text alone and any
-- other what its regular expression matches.
pub rewrite-compile :
    (lib : Regexps) (f : Forward) (t : ForwardRewriter lib.Regex) (upath : Bytes)
    → compile lib (some f) ≡ some t
    → (rewrite lib (some t) upath).1
      ≡ accepts_any lib upath f.path && not (accepts_any lib upath f.exclude_path)
rewrite-compile lib f t upath e =
    let (excluded, paths, _) = Compiled-of_compile lib f t e in
    rewrite-hits lib upath t
    ∙ ap (λ b. b && not (hits lib upath t.exclude_exact t.exclude_regex))
        (accepts_any-loop lib upath f.path t.path_exact t.path_regex paths)
    ∙ ap (λ b. accepts_any lib upath f.path && not b)
        (accepts_any-loop lib upath f.exclude_path t.exclude_exact t.exclude_regex excluded)
