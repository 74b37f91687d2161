-- ===== src/Rewrite.antt =====
-- rewrite.go: the compilation of a Forward into exact paths and regular expressions, and the rewriting
-- of a path.
pub mod Accepts
mod Tests
use vweb.Common.{
  ℕ, Bool, true, false, Option, none, some, List, [], ◌∷◌, ◌++◌, ◌&&◌, Bytes, ◌==◌, lookup, insert,
  if◌then◌else◌,
}
use vweb.Regexps.{Regexps}

pub record Forward : Type 0 where
  pub path : List Bytes
  pub exclude_path : List Bytes
  pub re_path : Bytes

-- A map to struct{} is a map to Unit.
abbrev pub Exact : Type 0
Exact = List (Bytes × Unit)

pub record ForwardRewriter (R : Type 0) : Type 0 where
  pub path_exact : Exact
  pub path_regex : List R
  pub exclude_exact : Exact
  pub exclude_regex : List R
  pub re_path : Bytes

abbrev pub has_exact : Bytes → Exact → Bool
has_exact upath exact = elim (lookup upath exact) [ none ↦ false | some _ ↦ true ]

-- strings.ReplaceAll(s, "$0", new)
unfoldable pub replace_whole : Bytes → Bytes → Bytes
replace_whole [] new = []
replace_whole (c ∷ []) new = c ∷ []
replace_whole (c ∷ d ∷ s) new =
    let next = replace_whole (d ∷ s) new in
    let behind = replace_whole s new in
    if (c == b'$') && (d == b'0') then new ++ behind else c ∷ next

module _ (lib : Regexps) where
  -- The loop of Compile over one of the two lists; `none` is an error.
  unfoldable pub compile_loop :
      List Bytes → Exact → List lib.Regex → Option (Exact × List lib.Regex)
  compile_loop [] exact regexes = some (exact, regexes)
  compile_loop (p ∷ ps) exact regexes = elim (lib.compile p) [
    | none ↦ none
    | some re ↦
        let literal = compile_loop ps (insert (lib.literal_prefix re).0 tt exact) regexes in
        let regular = compile_loop ps exact (regexes ++ re ∷ []) in
        if (lib.literal_prefix re).1 then literal else regular
  ]

  -- Compile; `none` as an argument is a nil receiver.
  unfoldable pub compile : Option Forward → Option (ForwardRewriter lib.Regex)
  unfolding compile_loop
  compile none = none
  compile (some f) = elim (compile_loop f.exclude_path [] []) [
    | none ↦ none
    | some (exclude_exact, exclude_regex) ↦ elim (compile_loop f.path [] []) [
      | none ↦ none
      | some (path_exact, path_regex) ↦ some (record {
        path_exact = path_exact;
        path_regex = path_regex;
        exclude_exact = exclude_exact;
        exclude_regex = exclude_regex;
        re_path = f.re_path;
      })
    ]
  ]

  -- The first regular expression that matches.
  unfoldable pub first_match : List lib.Regex → Bytes → Option lib.Regex
  first_match [] upath = none
  first_match (re ∷ regexes) upath =
      let rest = first_match regexes upath in if lib.match_string re upath then some re else rest

  -- The part of Rewrite behind the excluded paths.
  unfoldable pub rewrite_path : ForwardRewriter lib.Regex → Bytes → Bytes × Bool
  unfolding first_match replace_whole
  rewrite_path t upath =
      if has_exact upath t.path_exact
      then (replace_whole t.re_path upath, true)
      else elim (first_match t.path_regex upath) [
        | none ↦ (upath, false)
        | some re ↦ (lib.replace_all_string re upath t.re_path, true)
      ]

  -- Rewrite; `none` is a nil receiver.
  unfoldable pub rewrite : Option (ForwardRewriter lib.Regex) → Bytes → Bytes × Bool
  unfolding first_match rewrite_path
  rewrite none upath = (upath, false)
  rewrite (some t) upath =
      if has_exact upath t.exclude_exact
      then (upath, false)
      else elim (first_match t.exclude_regex upath) [
        | some re ↦ (upath, false)
        | none ↦ rewrite_path t upath
      ]
