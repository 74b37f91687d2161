-- ===== src/Static/Headers.antt =====
-- serverHandlerStatic.go, `setHeader`: the headers and the status of a response for a regular file.
-- A header that the request does not have is empty, as Header.Get gives it. Times are nanoseconds
-- since 1970.
use vweb.Common.{
  ℕ, ◌+◌, ◌-◌, ◌*◌, ◌/◌, ◌%◌, ◌^◌, Bool, true, false, Option, none, some, List, [], ◌∷◌, ◌++◌,
  Bytes, codes, same, ◌==◌, leb, ltb, not, ◌&&◌, ◌||◌, is_empty, has_prefix, insert, erase, String,
  if◌then◌else◌,
}
use vweb.Static.Etag.{etag, etag_match}
use vweb.Static.Numbers.{decimal}
use vweb.Static.Ranges.{BlockRange, stop, ranges}

-- The packages that the handler asks: http.ParseTime (seconds since 1970), the format of a date,
-- mime.TypeByExtension for the extension of a path in lower case, the clock, and the boundary that a
-- multipart writer draws.
pub record Platform : Type 0 where
  pub parse_time : Bytes → Option ℕ
  pub format_time : ℕ → Bytes
  pub mime_type : Bytes → Bytes
  pub now : ℕ
  pub boundary : Bytes

pub data Method : Type 0 where
  get head : Method
  other : Bytes → Method

pub record Request : Type 0 where
  pub method : Method
  pub if_none_match : Bytes
  pub if_modified_since : Bytes
  pub range : Bytes
  pub if_range : Bytes

pub record FileInfo : Type 0 where
  pub size : ℕ
  pub mod_time : ℕ

-- What has been set of a response; the status is that of WriteHeader.
pub record Response : Type 0 where
  pub headers : List (Bytes × Bytes)
  pub status : Option ℕ

abbrev pub set : String → Bytes → Response → Response
set key v r = record r { headers = insert (codes key) v r.headers }

abbrev pub del : String → Response → Response
del key r = record r { headers = erase (codes key) r.headers }

-- WriteHeader
abbrev pub write_header : ℕ → Response → Response
write_header code r = record r { status = some code }

abbrev pub is_head : Method → Bool
is_head head = true
is_head _ = false

-- "bytes %d-%d/%d"
unfoldable pub content_range : BlockRange → ℕ → Bytes
unfolding decimal
content_range b size =
    codes "bytes "
    ++ (decimal b.start ++ (codes "-" ++ (decimal (stop b - 1) ++ (codes "/" ++ decimal size))))

module _ (p : Platform) where
  unfoldable pub set_content_type : Bytes → Response → Response
  set_content_type file_path = set "Content-Type" (
      if is_empty (p.mime_type file_path)
      then codes "application/octet-stream"
      else p.mime_type file_path)

  -- time.Now().Add(time.Duration(seconds) * time.Second): the product is an int64 and wraps around. A
  -- time before 1970, to which a negative one can lead, is no time here and stops at 0.
  abbrev pub expires_at : ℕ → ℕ
  expires_at seconds =
      let duration = seconds * 10 ^ 9 % 2 ^ 64 in
      if ltb duration (2 ^ 63) then p.now + duration else p.now + duration - 2 ^ 64

  unfoldable pub set_page_expired : ℕ → Response → Response
  unfolding decimal
  set_page_expired seconds r =
      if ltb 0 seconds
      then set "Expires" (p.format_time (expires_at seconds))
          (set "Cache-Control" (codes "public, max-age=" ++ decimal seconds) r)
      else set "Cache-Control" (codes "no-cache") r

  -- The headers that every response begins with.
  unfoldable pub set_common : ℕ → FileInfo → Bytes → Response → Response
  unfolding set_content_type set_page_expired etag
  set_common page_expired fi file_path r = set_page_expired page_expired (
      set "Accept-Ranges" (codes "bytes") (
        set "ETag" (etag fi.mod_time fi.size) (
          set "Last-Modified" (p.format_time fi.mod_time)
            (set "Date" (p.format_time p.now) (set_content_type file_path r)))))

  -- Whether the client's copy is good: If-None-Match, and else If-Modified-Since.
  unfoldable pub is_not_modified : Request → FileInfo → Bool
  unfolding etag_match etag
  is_not_modified req fi =
      if is_empty req.if_none_match
      then if is_empty req.if_modified_since
        then false
        else elim (p.parse_time req.if_modified_since) [
          | none ↦ false
          | some t ↦ leb fi.mod_time (t * 10 ^ 9 + (10 ^ 9 - 1))
        ]
      else etag_match req.if_none_match (etag fi.mod_time fi.size)

  -- Whether an If-Range header lets the range stand.
  unfoldable pub use_range : Bytes → FileInfo → Bool
  unfolding etag
  use_range if_range fi =
      if has_prefix if_range (codes "W/\"") || has_prefix if_range (codes "\"")
      then same if_range (etag fi.mod_time fi.size)
      else elim (p.parse_time if_range) [ none ↦ false | some t ↦ fi.mod_time / 10 ^ 9 == t ]

-- `none` is `return nil, false`: the response is complete. Else the body follows, with these blocks.
abbrev pub Result : Type 0
Result = Response × Option (List BlockRange)

unfoldable pub set_content_length : ℕ → Response → Response
unfolding decimal
set_content_length n = set "Content-Length" (decimal n)

-- The whole file.
unfoldable pub whole : Method → ℕ → Response → Result
unfolding set_content_length
whole method size r =
    if is_head method
    then (write_header 200 (set_content_length size r), none)
    else (set_content_length size r, some [])

unfoldable pub not_satisfiable : ℕ → Response → Result
unfolding set_content_length decimal
not_satisfiable size r = (
  write_header 416
      (set_content_length 0 (set "Content-Range" (codes "bytes */" ++ decimal size) r)),
  none,
)

-- The headers of one block, and of several.
unfoldable pub set_single : BlockRange → ℕ → Response → Response
unfolding content_range set_content_length
set_single b size r =
    write_header 206 (set_content_length b.length (set "Content-Range" (content_range b size) r))

unfoldable pub set_multiple : Bytes → Response → Response
set_multiple boundary r = write_header 206 (
    del "Content-Length"
      (set "Content-Type" (codes "multipart/byteranges; boundary=" ++ boundary) r))

-- The end of a HEAD request with ranges.
unfoldable pub head_ranges : Bytes → ℕ → List BlockRange → Response → Response
unfolding set_single set_multiple
head_ranges boundary size (b ∷ []) r = set_single b size r
head_ranges boundary size blocks r = set_multiple boundary r

-- What follows the reading of the ranges: the blocks and the number of their bytes.
unfoldable pub use_blocks : Platform → Method → ℕ → List BlockRange → ℕ → Response → Result
use_blocks p method size [] n r = not_satisfiable size r
use_blocks p method size (b ∷ bs) n r =
    if ltb size n
    then whole method size r
    else if is_head method
    then (head_ranges p.boundary size (b ∷ bs) r, none)
    else (r, some (b ∷ bs))

-- What follows when the Range header is to be used.
unfoldable pub set_ranges : Platform → Request → ℕ → Response → Result
set_ranges p req size r =
    if has_prefix req.range (codes "bytes=")
    then use_blocks p req.method size (ranges size req.range).0 (ranges size req.range).1 r
    else not_satisfiable size r

-- A response without a body of its own: 304.
unfoldable pub set_not_modified : Response → Response
set_not_modified r = write_header 304 (del "Content-Length" (del "Content-Type" r))

unfoldable pub set_header : Platform → ℕ → Request → FileInfo → Bytes → Response → Result
set_header p page_expired req fi file_path start =
    let r = set_common p page_expired fi file_path start in
    if is_not_modified p req fi
    then (set_not_modified r, none)
    else if fi.size == 0
    then (write_header 200 (set_content_length 0 r), none)
    else if (not (is_empty req.if_range) && not (is_empty req.range))
        && not (use_range p req.if_range fi)
    then whole req.method fi.size r
    else if is_empty req.range
    then whole req.method fi.size r
    else set_ranges p req fi.size r
