-- ===== src/Server/Requests/Tests.antt =====
-- Requests: runs, and the theorems at concrete inputs.
use vweb.Common.{
  ℕ, ◌≡◌, refl, Bool, true, false, none, some, List, [], ◌∷◌, ◌++◌, Bytes, codes, same, split, join,
  index, lookup, is_empty, has_suffix, has_prefix, insert, if◌then◌else◌,
}
use vweb.Regexps.{Regexps}
use vweb.Domain
use vweb.Domain.{split_port, visit}
use vweb.Rewrite.{compile_loop, compile, rewrite, rewrite_path, first_match, replace_whole}
use vweb.Server.Plugins.{str_slice_contains}
use vweb.Server.Requests.{
  Os, SiteForward, SiteConf, no_site, not_found, served, redirects, goes, site_header_type,
  split_host_port, derogatory_domain, find_index, page_path, http_type_by_extension, find_static,
  serve_page, follow_one, follow_forwards, forwards_of, serve_forwarded, serve_site, serve_http,
}
use vweb.Server.Requests.Files.{IsOfFile, serve_http-IsOfFile}
use vweb.Server.Requests.Forwards.{active, follow_forwards-active}

-- Every pattern is a literal.
abbrev literals : Regexps
literals = record {
  Regex = Bytes;
  compile = λ p. if is_empty p then none else some p;
  literal_prefix = λ re. (re, true);
  longest = λ re. re;
  match_string = λ re s. same re s;
  replace_all_string = λ re s t. t;
  path_match = λ p s. same p s;
}

abbrev concat : List Bytes → Bytes
concat [] = []
concat (p ∷ ps) = p ++ concat ps

-- The disk has the file "/w/a", and paths are put together with no separator.
abbrev disk : Os
disk = record {
  stat =
      λ p. if same p (codes "/w/a") then some (record { is_dir = false; mod_time = 0 }) else none;
  clean = λ p. p;
  join = concat;
  is_abs = λ p. false;
  ext = λ p. [];
  type_by_extension = λ e. [];
  split_address = λ h. none;
  is_address = λ h. false;
}

abbrev rule : Bool → Bytes → Bytes → ℕ → SiteForward
rule on from to code = record {
  status = on;
  forward = record { path = from ∷ []; exclude_path = []; re_path = to };
  redirect_code = code;
  end = false;
}

-- "/x" goes to "/a"; a rule that is off, and one that is refused, stand before it.
abbrev rules : List SiteForward
rules =
    rule false (codes "/x") (codes "/b") 0
    ∷ rule true [] (codes "/c") 0
    ∷ rule true (codes "/x") (codes "/a") 0
    ∷ rule true (codes "/old") (codes "/new") 301
    ∷ []

abbrev conf : SiteConf
conf = record {
  root_dir = λ p. codes "/w";
  index_file = [];
  forward = (codes "h", rules) ∷ [];
  dynamic_ext = [];
  cache = false;
  cache_static_file_dir = [];
  cache_static_timeout = 0;
  header_static = [];
  header_dynamic = [];
  mime = [];
}

follow_test :
    (follow_forwards disk literals rules (codes "/x") ≡ goes (codes "/a"))
    × (follow_forwards disk literals rules (codes "/old") ≡ redirects (codes "/new") 301)
unfolding follow_forwards follow_one compile compile_loop rewrite rewrite_path first_match
    replace_whole insert lookup same is_empty
follow_test = (refl, refl)

serve_test :
    (serve_http disk literals ((codes "h", some conf) ∷ []) (codes "n") (codes "/x") 0 ≡ no_site)
    × (serve_http disk literals ((codes "h", some conf) ∷ []) (codes "h") (codes "/x") 0
        ≡ served (record {
          root_path = codes "/w";
          page_path = codes "/a";
          is_dynamic = false;
          content_type = codes "application/octet-stream";
          header = [];
          page_expired = 0;
        }))
    × (serve_http disk literals ((codes "h", some conf) ∷ []) (codes "h") (codes "/y") 0
        ≡ not_found (codes "/w"))
unfolding serve_http Domain.get Domain.get_derogatory Domain.derogatory_domain split_port visit
    split join index lookup same has_prefix has_suffix is_empty serve_site find_static forwards_of
    derogatory_domain split_host_port follow_forwards follow_one compile compile_loop rewrite
    rewrite_path first_match replace_whole insert serve_forwarded page_path find_index serve_page
    http_type_by_extension site_header_type str_slice_contains
serve_test = (refl, refl, refl)

serve_http-IsOfFile_example :
    IsOfFile disk
      (serve_http disk literals ((codes "h", some conf) ∷ []) (codes "h") (codes "/x") 0)
serve_http-IsOfFile_example =
    serve_http-IsOfFile disk literals ((codes "h", some conf) ∷ []) (codes "h") (codes "/x") 0

follow_forwards-active_example :
    follow_forwards disk literals (active disk literals rules) (codes "/x")
    ≡ follow_forwards disk literals rules (codes "/x")
follow_forwards-active_example = follow_forwards-active disk literals rules (codes "/x")
