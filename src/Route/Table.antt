-- ===== src/Route/Table.antt =====
-- route.go, `routePathPlaceholder`, `addHandle` and `removeHandle`: the table of routes. `rt` is the
-- sync.Map from the URL and `list` the slice in the order of registration; both hold the same
-- entries, of which none is nil. An operation is one step: the methods take the lock `mu`.
pub mod Parts
pub mod Entries
pub mod History
pub mod Preparsed
pub mod Consistent
use vweb.Common.{
  Bool, true, false, Option, none, some, List, [], ◌∷◌, Bytes, codes, same, has_prefix, has_suffix,
  contains_any, split, is_empty, lookup, insert, erase, not, ◌||◌, if◌then◌else◌, Checked, returns,
  panics, ◌++◌,
}
use vweb.Regexps.{Regexps}
use vweb.Route.Segment.{SegmentPart, parse_placeholder_segment}
use vweb.Route.Extract.{has_brace}

-- X is the type of regular expressions, H that of http.Handler.
pub record RoutePathPlaceholder (X H : Type 0) : Type 0 where
  pub path_segments : List Bytes
  pub is_dir : Bool
  pub is_regexp : Bool
  pub path_regex : Option X
  pub is_symbol : Bool
  pub is_placeholder : Bool
  pub handle : H
  pub parsed_parts : List (Option (List SegmentPart))
  pub url : Bytes

-- The loop that parses the placeholders of a URL; a segment without braces keeps its nil.
unfoldable pub parse_segments : List Bytes → Checked (List (Option (List SegmentPart)))
unfolding has_brace
parse_segments [] = returns []
parse_segments (seg ∷ segs) = elim (has_brace seg) [
  | false ↦ elim (parse_segments segs) [
    | returns parsed ↦ returns (none ∷ parsed)
    | panics msg ↦ panics msg
  ]
  | true ↦ elim (parse_placeholder_segment seg) [
    | none ↦ panics (codes "invalid placeholder segment: " ++ seg)
    | some parts ↦ elim (parse_segments segs) [
      | returns parsed ↦ returns (some parts ∷ parsed)
      | panics msg ↦ panics msg
    ]
  ]
]

-- The entry that the first lines of `addHandle` make.
unfoldable pub plain_entry : {X H : Type 0} → Bytes → H → RoutePathPlaceholder X H
plain_entry url handle = record {
  path_segments = split url b'/';
  is_dir = has_suffix url (codes "/");
  is_regexp = false;
  path_regex = none;
  is_symbol = false;
  is_placeholder = false;
  handle = handle;
  parsed_parts = [];
  url = url;
}

-- isRegex of func.go
unfoldable pub is_regex : (lib : Regexps) → lib.Regex → Bool
is_regex lib re = let (prefix, complete) = lib.literal_prefix re in not complete || is_empty prefix

-- The entry of a URL, or the panic on a wrong one.
unfoldable pub new_entry :
    (lib : Regexps) {H : Type 0} → Bytes → H → Checked (RoutePathPlaceholder lib.Regex H)
unfolding plain_entry parse_segments is_regex
new_entry lib url handle =
    let invalid = codes "invalid regular expression: " ++ url in
    let entry = plain_entry url handle in
    if has_prefix url (codes "^") || has_suffix url (codes "$")
    then elim (lib.compile url) [
      | none ↦ panics invalid
      | some re ↦
          if is_regex lib re
          then returns (record entry { is_regexp = true; path_regex = some (lib.longest re) })
          else panics invalid
    ]
    else if contains_any url (codes "[]*?\\")
    then returns (record entry { is_symbol = true })
    else if contains_any url (codes "{}")
    then elim (parse_segments (split url b'/')) [
      | panics msg ↦ panics msg
      | returns parsed ↦ returns (record entry { is_placeholder = true; parsed_parts = parsed })
    ]
    else returns entry

-- The state of a Route; E is the type of its HandlerError, S that of its site manager.
pub record RouteState (X H E S : Type 0) : Type 0 where
  pub handler_error : Option E
  pub rt : List (Bytes × RoutePathPlaceholder X H)
  pub list : List (RoutePathPlaceholder X H)
  pub site_man : Option S

module _ {X H : Type 0} where
  -- The loop of `removeHandle`: the first entry of the URL is cut out.
  unfoldable pub remove_first :
      Bytes → List (RoutePathPlaceholder X H) → List (RoutePathPlaceholder X H)
  remove_first url [] = []
  remove_first url (p ∷ list) = if same p.url url then list else p ∷ remove_first url list

  -- The loop of `addHandle` and the append behind it.
  unfoldable pub put_entry :
      RoutePathPlaceholder X H → List (RoutePathPlaceholder X H) → List (RoutePathPlaceholder X H)
  put_entry e [] = e ∷ []
  put_entry e (p ∷ list) = if same p.url e.url then e ∷ list else p ∷ put_entry e list

module _ (lib : Regexps) {H E S : Type 0} where
  unfoldable pub remove_handle : RouteState lib.Regex H E S → Bytes → RouteState lib.Regex H E S
  unfolding remove_first
  remove_handle route url = record route {
    rt = erase url route.rt;
    list = remove_first url route.list;
  }

  unfoldable pub add_handle :
      RouteState lib.Regex H E S → Bytes → H → Checked (RouteState lib.Regex H E S)
  unfolding new_entry put_entry
  add_handle route url handle = elim (new_entry lib url handle) [
    | panics msg ↦ panics msg
    | returns e ↦
        returns (record route { rt = insert url e route.rt; list = put_entry e route.list })
  ]

  -- HandleFunc; `none` is a nil handler.
  unfoldable pub handle_func :
      RouteState lib.Regex H E S → Bytes → Option H → Checked (RouteState lib.Regex H E S)
  unfolding remove_handle add_handle
  handle_func route url none = returns (remove_handle route url)
  handle_func route url (some handler) = add_handle route url handler

  -- HandleFuncDot: D is func(Doter), and `wrap` is the conversion to http.Handler by HandleFunc.
  unfoldable pub handle_func_dot :
      {D : Type 0}
      → (List D → H)
      → RouteState lib.Regex H E S
      → Bytes
      → Option (List D)
      → Checked (RouteState lib.Regex H E S)
  unfolding remove_handle add_handle
  handle_func_dot wrap route url none = returns (remove_handle route url)
  handle_func_dot wrap route url (some handlers) = add_handle route url (wrap handlers)

  unfoldable pub set_site_man : RouteState lib.Regex H E S → Option S → RouteState lib.Regex H E S
  set_site_man route site_man = record route { site_man = site_man }
