-- ===== src/Rewrite/Tests.antt =====
-- Forward rewriting: runs, and the theorem at a concrete input.
use vweb.Common.{
  ◌≡◌, refl, true, false, not, ◌&&◌, none, some, [], ◌∷◌, Bytes, codes, same, has_prefix, is_empty,
  drop, lookup, insert, if◌then◌else◌,
}
use vweb.Regexps.{Regexps}
use vweb.Rewrite.{Forward, ForwardRewriter, compile, rewrite, replace_whole}
use vweb.Rewrite.Accepts.{accepts_any, rewrite-compile}

-- Regular expressions that are a text, or "^" and the beginning of what they match.
abbrev prefixes : Regexps
prefixes = record {
  Regex = Bytes;
  compile = λ s. if is_empty s then none else some s;
  literal_prefix = λ s. if has_prefix s (codes "^") then ([], false) else (s, true);
  longest = λ s. s;
  match_string = λ re s. has_prefix s (drop 1 re);
  replace_all_string = λ re s t. t;
  path_match = λ pattern name. same pattern name;
}

abbrev forward : Forward
forward = record {
  path = codes "/a" ∷ codes "^/b" ∷ [];
  exclude_path = codes "/bc" ∷ [];
  re_path = codes "/x$0";
}

abbrev rewriter : ForwardRewriter Bytes
rewriter = record {
  path_exact = (codes "/a", tt) ∷ [];
  path_regex = codes "^/b" ∷ [];
  exclude_exact = (codes "/bc", tt) ∷ [];
  exclude_regex = [];
  re_path = codes "/x$0";
}

compile_test : compile prefixes (some forward) ≡ some rewriter
unfolding compile has_prefix is_empty insert
compile_test = refl

rewrite_tests :
    (rewrite prefixes (some rewriter) (codes "/a") ≡ (codes "/x/a", true))
    × (rewrite prefixes (some rewriter) (codes "/bd") ≡ (codes "/x$0", true))
    × (rewrite prefixes (some rewriter) (codes "/bc") ≡ (codes "/bc", false))
    × (rewrite prefixes (some rewriter) (codes "/c") ≡ (codes "/c", false))
unfolding rewrite lookup same has_prefix replace_whole
rewrite_tests = (refl, refl, refl, refl)

rewrite-compile_example :
    (rewrite prefixes (some rewriter) (codes "/bd")).1
    ≡ accepts_any prefixes (codes "/bd") forward.path
      && not (accepts_any prefixes (codes "/bd") forward.exclude_path)
rewrite-compile_example = rewrite-compile prefixes forward rewriter (codes "/bd") compile_test
