-- ===== src/Static/Serve.antt =====
-- serverHandlerStatic.go, `body` and the course of `ServeHTTP` behind the resolution of the path.
pub mod Heads
pub mod Answers
use vweb.Common.{
  ℕ, ◌+◌, Bool, true, false, Option, none, some, List, [], ◌∷◌, Bytes, codes, take, drop, lookup,
  ◌++◌, String,
}
use vweb.Static.Headers.{
  Platform, Method, get, head, other, Request, FileInfo, Response, set, del, write_header,
  content_range, set_single, set_multiple, set_header,
}
use vweb.Static.Ranges.{BlockRange}

-- The bytes of a block of the content: Seek and LimitReader.
abbrev pub cut : BlockRange → Bytes → Bytes
cut b content = take b.length (drop b.start content)

-- One part of a multipart body: its Content-Range, its Content-Type and its bytes.
pub record Part : Type 0 where
  pub content_range : Bytes
  pub content_type : Option Bytes
  pub bytes : Bytes

pub data Body : Type 0 where
  nothing : Body
  one : Bytes → Body
  parts : List Part → Body

pub record Answer : Type 0 where
  pub response : Response
  pub body : Body

-- The loop over the blocks of a multipart body.
unfoldable pub parts_of : List BlockRange → ℕ → Option Bytes → Bytes → List Part
parts_of [] size ctype content = []
parts_of (b ∷ bs) size ctype content =
    record { content_range = content_range b size; content_type = ctype; bytes = cut b content }
    ∷ parts_of bs size ctype content

-- http.Error
unfoldable pub http_error : String → ℕ → Response → Answer
http_error message code r = record {
  response = write_header code (
      set "X-Content-Type-Options" (codes "nosniff")
        (set "Content-Type" (codes "text/plain; charset=utf-8") (del "Content-Length" r)));
  body = one (codes message ++ 10 ∷ []);
}

-- `body` for a file with this content, which is read without an error; `none` does not open.
unfoldable pub write_body : Platform → List BlockRange → FileInfo → Option Bytes → Response → Answer
write_body p blocks fi none r = http_error "Failed to open file" 500 r
write_body p [] fi (some content) r = record { response = write_header 200 r; body = one content }
write_body p (b ∷ []) fi (some content) r = record {
  response = set_single b fi.size r;
  body = one (cut b content);
}
write_body p (b ∷ c ∷ bs) fi (some content) r = record {
  response = set_multiple p.boundary r;
  body = parts (parts_of (b ∷ c ∷ bs) fi.size (lookup (codes "Content-Type") r.headers) content);
}

abbrev pub finish :
    Platform → FileInfo → Option Bytes → Response × Option (List BlockRange) → Answer
finish p fi content (r, none) = record { response = r; body = nothing }
finish p fi content (r, some blocks) = write_body p blocks fi content r

-- What the file system says of the path that the request resolves to.
pub data Stat : Type 0 where
  missing directory irregular : Stat
  regular : FileInfo → (content : Option Bytes) → Stat

-- `ServeHTTP` with the outcome of os.Stat; the resolution of the path is a part of its own.
unfoldable pub serve_file : Platform → ℕ → Request → Stat → Bytes → Response → Answer
serve_file p page_expired req stat file_path start = elim req.method [
  | other m ↦ http_error "Method Not Allowed" 405 (set "Allow" (codes "GET, HEAD") start)
  | _ ↦ elim stat [
    | missing ↦ http_error "File not found" 404 start
    | directory ↦ http_error "Forbidden" 403 start
    | irregular ↦ http_error "Forbidden" 403 start
    | regular fi content ↦ finish p fi content (set_header p page_expired req fi file_path start)
  ]
]
