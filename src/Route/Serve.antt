-- ===== src/Route/Serve.antt =====
-- route.go, `ServeHTTP`: the choice of the handler for a request. What the chosen handler writes is
-- its own; the outcome says which handler runs and with which site and parameters.
pub mod Literals
pub mod Register
pub mod Removal
use vweb.Common.{
  Bool, true, false, Option, none, some, List, [], ◌∷◌, Bytes, codes, same, has_suffix, split,
  lookup, not, ◌&&◌, xor, if◌then◌else◌,
}
use vweb.Domain
use vweb.Regexps.{Regexps}
use vweb.Route.Extract.{Params, parse_path_params_preparsed}
use vweb.Route.Table.{RoutePathPlaceholder, RouteState}
use vweb.Route.Table.Entries.{is_literal}

-- What the response writer does when it is asked for the connection.
pub data Hijack : Type 0 where
  not_supported : Hijack
  refused : Bytes → Hijack
  hijacked : Hijack

pub record Request : Type 0 where
  pub host : Bytes
  pub path : Bytes

-- `params` is the value of "url-params" in the context, `site` that of SiteContextKey.
pub data Served (H E S : Type 0) : Type 0 where
  internal_error : (message : Bytes) → Served H E S
  closed : Served H E S
  handled : (handle : H) → (site : Option S) → (params : Option Params) → Served H E S
  error_handler : (handle : E) → (site : Option S) → Served H E S
  not_found : (path : Bytes) → Served H E S

-- What the loop does with one entry: go on, or run its handler.
pub data Found (H : Type 0) : Type 0 where
  continue : Found H
  runs : H → Option Params → Found H

-- `pathRegex.MatchString(userPath)`; a nil regular expression does not occur in a regexp entry.
unfoldable pub matches_regex : (lib : Regexps) → Option lib.Regex → Bytes → Bool
matches_regex lib none path = false
matches_regex lib (some re) path = lib.match_string re path

module _ (lib : Regexps) {H : Type 0} where
  -- The body of the loop over the list, behind the test on directories.
  unfoldable pub try_kinds : RoutePathPlaceholder lib.Regex H → Bytes → List Bytes → Found H
  unfolding matches_regex
  try_kinds e path segments =
      if e.is_regexp
      then if matches_regex lib e.path_regex path then runs e.handle none else continue
      else if e.is_symbol
      then if lib.path_match e.url path then runs e.handle none else continue
      else if e.is_placeholder
      then elim (parse_path_params_preparsed segments e.path_segments e.parsed_parts) [
        | none ↦ continue
        | some params ↦ runs e.handle (some params)
      ]
      else if same e.url path
      then runs e.handle none
      else continue

  -- The body of the loop over the list.
  unfoldable pub try_entry : RoutePathPlaceholder lib.Regex H → Bytes → List Bytes → Bool → Found H
  unfolding try_kinds
  try_entry e path segments is_dir =
      if xor e.is_dir is_dir then continue else try_kinds e path segments

  unfoldable pub try_list :
      List (RoutePathPlaceholder lib.Regex H) → Bytes → List Bytes → Bool → Found H
  unfolding try_entry
  try_list [] path segments is_dir = continue
  try_list (e ∷ list) path segments is_dir = elim (try_entry e path segments is_dir) [
    | runs handle params ↦ runs handle params
    | continue ↦ try_list list path segments is_dir
  ]

  -- The pattern matching, behind the exact match.
  unfoldable pub find_pattern : List (RoutePathPlaceholder lib.Regex H) → Bytes → Found H
  unfolding try_list
  find_pattern list path = try_list list path (split path b'/') (has_suffix path (codes "/"))

  unfoldable pub find : {E S : Type 0} → RouteState lib.Regex H E S → Bytes → Found H
  unfolding find_pattern
  find route path = elim (lookup path route.rt) [
    | none ↦ find_pattern route.list path
    | some e ↦ if is_literal e then runs e.handle none else find_pattern route.list path
  ]

  -- What follows the choice of the site.
  unfoldable pub serve_path :
      {E S : Type 0} → RouteState lib.Regex H E (List (Bytes × S)) → Bytes → Option S → Served H E S
  unfolding find
  serve_path route path site = elim (find route path) [
    | runs handle params ↦ handled handle site params
    | continue ↦ elim route.handler_error [ none ↦ not_found path | some e ↦ error_handler e site ]
  ]

  -- The response to a host without a site.
  abbrev pub refuse : {E S : Type 0} → Hijack → Served H E S
  refuse not_supported = internal_error (codes "Not supported Hijacker")
  refuse (refused err) = internal_error err
  refuse hijacked = closed

  unfoldable pub serve_http :
      {E S : Type 0} → RouteState lib.Regex H E (List (Bytes × S)) → Hijack → Request → Served H E S
  unfolding serve_path Domain.get
  serve_http route writer request = elim route.site_man [
    | none ↦ serve_path route request.path none
    | some sites ↦ elim (Domain.get sites request.host) [
      | none ↦ refuse writer
      | some site ↦ serve_path route request.path (some site)
    ]
  ]
