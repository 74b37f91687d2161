-- ===== src/Static/Tests.antt =====
-- Static files: runs, and the theorems at concrete inputs.
use vweb.Common.{
  ◌≡◌, ◌↔◌, ◌⊎◌, refl, true, false, none, some, [], ◌∷◌, arith, codes, split, drop, has_prefix,
  is_empty, trim_space, trim_prefix, lookup, insert, erase, same, length,
}
use vweb.Static.Numbers.{decimal, parse_int}
use vweb.Static.Ranges.{parse_range, ranges}
use vweb.Static.Ranges.Merging.{Covers}
use vweb.Static.Ranges.Bounds.{IsServable, ranges-IsServable}
use vweb.Static.Ranges.Asked.{HasByte}
use vweb.Static.Ranges.Requested.{AsksFor, HasByte-parse_range, Asks, Covers-ranges}
use vweb.Static.Etag.{etag_match, Lists, etag_match_iff}
use vweb.Static.Headers.{
  Platform, get, Request, FileInfo, Response, set_header, set_ranges, use_blocks, whole,
  not_satisfiable, is_not_modified,
}
use vweb.Static.Serve.{one, nothing, regular, serve_file, write_body}
use vweb.Static.Serve.Heads.{as_head, as_get, serve_file-head}
use vweb.Static.Serve.Answers.{serve_file-content_length}

ranges_tests :
    (ranges 10 (codes "bytes=4-5, 0-1,2-2")
      ≡ (record { start = 0; length = 3 } ∷ record { start = 4; length = 2 } ∷ [], 5))
    × (ranges 10 (codes "bytes=-3") ≡ (record { start = 7; length = 3 } ∷ [], 3))
    × (ranges 10 (codes "bytes=8-20") ≡ (record { start = 8; length = 2 } ∷ [], 2))
    × (ranges 10 (codes "lines=1-2") ≡ ([], 0))
unfolding ranges parse_int
ranges_tests = (refl, refl, refl, refl)

ranges-IsServable_example :
    IsServable 10 (ranges 10 (codes "bytes=4-5,0-1")).0 (ranges 10 (codes "bytes=4-5,0-1")).1
ranges-IsServable_example = ranges-IsServable 10 (codes "bytes=4-5,0-1")

HasByte-parse_range_example :
    HasByte 7 (parse_range 10 (codes " 4-20")) ↔ AsksFor 7 10 (trim_space (codes " 4-20"))
HasByte-parse_range_example = HasByte-parse_range 7 10 (codes " 4-20") (omega arith)

Covers-ranges_example :
    Covers 5 (ranges 10 (codes "bytes=4-5,0-1")).0
    ↔ Asks 5 10 (split (drop 6 (codes "bytes=4-5,0-1")) b',')
unfolding has_prefix
Covers-ranges_example = Covers-ranges 5 10 (codes "bytes=4-5,0-1") (omega arith) refl

etag_match_tests :
    (etag_match (codes "\"a\", W/\"b\"") (codes "W/\"b\"") ≡ true)
    × (etag_match (codes "\"a\"") (codes "\"b\"") ≡ false)
    × (etag_match (codes " * ") (codes "\"b\"") ≡ true)
unfolding etag_match same split trim_space trim_prefix has_prefix
etag_match_tests = (refl, refl, refl)

etag_match_iff_example : (etag_match (codes "\"a\", W/\"b\"") (codes "\"b\"") ≡ true) ↔ (
    (trim_space (codes "\"a\", W/\"b\"") ≡ codes "*")
    ⊎ Lists (codes "\"b\"") (split (trim_space (codes "\"a\", W/\"b\"")) b','))
etag_match_iff_example = etag_match_iff (codes "\"a\", W/\"b\"") (codes "\"b\"")

abbrev platform : Platform
platform = record {
  parse_time = λ _. none;
  format_time = λ _. codes "then";
  mime_type = λ _. [];
  now = 0;
  boundary = codes "b";
}

abbrev request : Request
request = record {
  method = get;
  if_none_match = [];
  if_modified_since = [];
  range = codes "bytes=1-2";
  if_range = [];
}

abbrev hello_info : FileInfo
hello_info = record { size = 5; mod_time = 7 }

abbrev start : Response
start = record { headers = []; status = none }

serve_file_tests :
    (serve_file platform 0 request
      (regular hello_info (some (codes "hello")))
      (codes "f")
      start).body
    ≡ one (codes "el")
unfolding serve_file set_header set_ranges use_blocks whole not_satisfiable ranges parse_int
    is_empty has_prefix write_body same lookup insert erase is_not_modified
serve_file_tests = refl

serve_file-head_example :
    ((serve_file platform 0
        (as_head request)
        (regular hello_info (some (codes "hello")))
        (codes "f")
        start).response
      ≡ (serve_file platform 0
          (as_get request)
          (regular hello_info (some (codes "hello")))
          (codes "f")
          start).response)
    × ((serve_file platform 0
          (as_head request)
          (regular hello_info (some (codes "hello")))
          (codes "f")
          start).body
        ≡ nothing)
serve_file-head_example =
    serve_file-head platform 0 request hello_info (codes "hello") (codes "f") start

serve_file-content_length_example :
    lookup
      (codes "Content-Length")
      (serve_file platform 0
        (as_get request)
        (regular hello_info (some (codes "hello")))
        (codes "f")
        start).response.headers
    ≡ some (decimal (length (codes "el")))
serve_file-content_length_example =
    serve_file-content_length platform 0 request hello_info (codes "hello") (codes "f") (codes "el")
      start refl serve_file_tests
