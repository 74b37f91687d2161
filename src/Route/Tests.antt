-- ===== src/Route/Tests.antt =====
-- The router on small tables: tests, and the theorems at concrete inputs.
use vweb.Common.{
  ℕ, ◌≡◌, ◌≢◌, ◌↔◌, refl, true, false, Option, none, some, List, [], ◌∷◌, Bytes, codes, same, split,
  Checked, returns, panics, is_empty, if◌then◌else◌, arith, has_prefix, has_suffix, contains,
  contains_any, index, lookup, insert, erase, xor,
}
use vweb.Regexps.{Regexps}
use vweb.Route.Extract.{
  extract_params_from_segment_preparsed, extract_params_from_segment, parse_path_params_preparsed,
}
use vweb.Route.Extract.Filling.{Fills, extract_params_from_segment_preparsed_iff}
use vweb.Route.Extract.Render.{render, render-extract}
use vweb.Route.Segment.{SegmentPart, literal, placeholder, parse_placeholder_segment}
use vweb.Route.Segment.Grammar.{print, parse_placeholder_segment_iff}
use vweb.Route.Segment.Shape.{IsParsed}
use vweb.Route.Serve.{continue, runs, find, not_found, closed, serve_http, hijacked}
use vweb.Route.Serve.Literals.{patterns, find-patterns}
use vweb.Route.Serve.Register.{find-add_handle}
use vweb.Route.Serve.Removal.{find-remove_handle}
use vweb.Route.Table.{RoutePathPlaceholder, RouteState, add_handle, handle_func}
use vweb.Route.Table.Consistent.{find_url, IsConsistent}
use vweb.Route.Table.History.{new_route, register, register_invariant}
use vweb.Route.Table.Preparsed.{parse_path_params-preparsed}

parse_tests :
    (parse_placeholder_segment (codes "b{id}b")
      ≡ some (literal (codes "b") ∷ placeholder (codes "id") ∷ literal (codes "b") ∷ []))
    × (parse_placeholder_segment (codes "{a}{b}") ≡ none)
    × (parse_placeholder_segment (codes "{}") ≡ none)
    × (parse_placeholder_segment (codes "a}") ≡ none)
    × (parse_placeholder_segment (codes "{{a}") ≡ none)
    × (parse_placeholder_segment (codes "{a") ≡ none)
unfolding parse_placeholder_segment
parse_tests = (refl, refl, refl, refl, refl, refl)

abbrev user_id : List SegmentPart
user_id = literal (codes "u") ∷ placeholder (codes "id") ∷ literal (codes "-x") ∷ []

parse_placeholder_segment_iff_example :
    (parse_placeholder_segment (codes "u{id}-x") ≡ some user_id)
    ↔ ((print user_id ≡ codes "u{id}-x") × IsParsed user_id)
parse_placeholder_segment_iff_example = parse_placeholder_segment_iff (codes "u{id}-x") user_id

extract_tests :
    (extract_params_from_segment (codes "u{id}-x") (codes "u10-x")
      ≡ some ((codes "id", codes "10") ∷ []))
    × (extract_params_from_segment (codes "u{id}-x") (codes "u1-x-x") ≡ none)
    × (extract_params_from_segment (codes "{id}-{id}") (codes "a-b")
        ≡ some ((codes "id", codes "b") ∷ []))
unfolding extract_params_from_segment parse_placeholder_segment index same insert
extract_tests = (refl, refl, refl)

extract_params_from_segment_preparsed_iff_example :
    (extract_params_from_segment_preparsed user_id (codes "u10-x")
      ≡ some ((codes "id", codes "10") ∷ []))
    ↔ Fills ((codes "id", codes "10") ∷ []) user_id (codes "u10-x") []
extract_params_from_segment_preparsed_iff_example =
    extract_params_from_segment_preparsed_iff user_id (codes "u10-x")
      ((codes "id", codes "10") ∷ [])

render-extract_example : render user_id ((codes "id", codes "10") ∷ []) ≡ codes "u10-x"
unfolding extract_params_from_segment_preparsed index same insert
render-extract_example =
    render-extract user_id (codes "u10-x") ((codes "id", codes "10") ∷ []) (ground arith) refl

-- Regular expressions that match only their own text, and no wildcard.
abbrev sample : Regexps
sample = record {
  Regex = Bytes;
  compile = λ s. if is_empty s then none else some s;
  literal_prefix = λ s. ([], false);
  longest = λ s. s;
  match_string = λ re s. same re s;
  replace_all_string = λ re s t. t;
  path_match = λ pattern name. same pattern name;
}

abbrev fresh : RouteState (sample.Regex) ℕ ℕ ℕ
fresh = new_route sample none none

-- A literal route and a route with a placeholder.
abbrev calls : List (Bytes × Option ℕ)
calls =
    (codes "/u/{id}", some 1)
    ∷ (codes "/u/me", some 2)
    ∷ (codes "/x", some 3)
    ∷ (codes "/x", none)
    ∷ []

running : Unit {0}
unfolding find handle_func parse_placeholder_segment split has_prefix has_suffix contains
    contains_any index same insert erase lookup is_empty register parse_path_params_preparsed xor
running = tt

abbrev table_of : Checked (RouteState (sample.Regex) ℕ ℕ ℕ) → RouteState (sample.Regex) ℕ ℕ ℕ
table_of (returns route) = route
table_of (panics msg) = fresh

abbrev table : RouteState (sample.Regex) ℕ ℕ ℕ
table = table_of (register sample fresh calls)

table_registered : register sample fresh calls ≡ returns table
unfolding running
table_registered = refl

register_invariant_example : IsConsistent sample table
register_invariant_example = register_invariant sample none none calls table table_registered

find_tests :
    (find sample table (codes "/u/7") ≡ runs 1 (some ((codes "id", codes "7") ∷ [])))
    × (find sample table (codes "/u/me") ≡ runs 2 none)
    × (find sample table (codes "/x") ≡ continue)
unfolding running
find_tests = (refl, refl, refl)

find-patterns_example :
    find sample table (codes "/u/7")
    ≡ find sample (record table { list = patterns sample table.list }) (codes "/u/7")
find-patterns_example = find-patterns sample table (codes "/u/7") register_invariant_example

-- The table with the literal route "/u/7" on top.
abbrev longer : RouteState (sample.Regex) ℕ ℕ ℕ
longer = table_of (add_handle sample table (codes "/u/7") 9)

longer_added : add_handle sample table (codes "/u/7") 9 ≡ returns longer
unfolding running
longer_added = refl

find-add_handle_example :
    find sample longer (codes "/u/7")
    ≡ (if same (codes "/u/7") (codes "/u/7") then runs 9 none else find sample table (codes "/u/7"))
unfolding running
find-add_handle_example =
    find-add_handle sample table longer (codes "/u/7") 9 (codes "/u/7") register_invariant_example
      refl longer_added

find-remove_handle_example :
    (e : RoutePathPlaceholder (sample.Regex) ℕ) × (find_url e.url table.list ≡ some e)
    × (e.url ≢ codes "/u/me")
    × (e.handle ≡ 1)
unfolding running
find-remove_handle_example =
    find-remove_handle sample table (codes "/u/me") (codes "/u/me") {handle = 1}
      {params = some ((codes "id", codes "me") ∷ [])} register_invariant_example refl

-- The entry of "/u/{id}".
abbrev user_entry : RoutePathPlaceholder (sample.Regex) ℕ
user_entry = record {
  path_segments = [] ∷ codes "u" ∷ codes "{id}" ∷ [];
  is_dir = false;
  is_regexp = false;
  path_regex = none;
  is_symbol = false;
  is_placeholder = true;
  handle = 1;
  parsed_parts = none ∷ none ∷ some (placeholder (codes "id") ∷ []) ∷ [];
  url = codes "/u/{id}";
}

parse_path_params-preparsed_example :
    parse_path_params_preparsed
      ([] ∷ codes "u" ∷ codes "7" ∷ [])
      user_entry.path_segments
      user_entry.parsed_parts
    ≡ parse_path_params_preparsed
        ([] ∷ codes "u" ∷ codes "7" ∷ [])
        (split (codes "/u/{id}") b'/')
        []
unfolding running
parse_path_params-preparsed_example =
    parse_path_params-preparsed sample (codes "/u/{id}") 1 user_entry
      ([] ∷ codes "u" ∷ codes "7" ∷ []) refl refl

abbrev routes_of : Option (List (Bytes × ℕ)) → RouteState (sample.Regex) ℕ ℕ (List (Bytes × ℕ))
routes_of site_man = new_route sample none site_man

served_tests :
    (serve_http sample (routes_of none) hijacked (record { host = []; path = codes "/" })
      ≡ not_found (codes "/"))
    × (serve_http sample
          (routes_of (some []))
          hijacked
          (record { host = codes "h"; path = codes "/" })
        ≡ closed)
unfolding running serve_http
served_tests = (refl, refl)
