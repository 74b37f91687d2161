-- ===== src/Static/Serve/Heads.antt =====
-- A HEAD request is answered as a GET request is, without the body.
use vweb.Common.{
  ℕ, ◌≡◌, refl, Bool, Option, none, some, List, [], ◌∷◌, Bytes, codes, has_prefix, is_empty, ltb,
  ◌==◌, not, ◌&&◌, Bool-cases, inl, inr,
}
use vweb.Static.Headers.{
  Platform, get, head, Request, FileInfo, Response, whole, not_satisfiable, use_blocks, set_ranges,
  head_ranges, is_not_modified, use_range, set_common, set_header,
}
use vweb.Static.Ranges.{BlockRange}
use vweb.Static.Serve.{nothing, regular, write_body, finish, serve_file}

abbrev pub as_head : Request → Request
as_head req = record req { method = head }

abbrev pub as_get : Request → Request
as_get req = record req { method = get }

module _ (p : Platform) (fi : FileInfo) (content : Bytes) where
  abbrev told : Response × Option (List BlockRange) → Response
  told result = (finish p fi (some content) result).response

  told-whole : (size : ℕ) (r : Response) → told (whole head size r) ≡ told (whole get size r)
  unfolding whole write_body
  told-whole size r = refl

  told-head_ranges :
      (b : BlockRange) (bs : List BlockRange) (r : Response)
      → head_ranges p.boundary fi.size (b ∷ bs) r ≡ told (r, some (b ∷ bs))
  unfolding head_ranges write_body
  told-head_ranges b [] r = refl
  told-head_ranges b (c ∷ bs) r = refl

  told-use_blocks :
      (blocks : List BlockRange) (n : ℕ) (r : Response)
      → told (use_blocks p head fi.size blocks n r) ≡ told (use_blocks p get fi.size blocks n r)
  unfolding use_blocks
  told-use_blocks [] n r = refl
  told-use_blocks (b ∷ bs) n r = elim (Bool-cases (ltb fi.size n)) [
    | inl over ↦ rw over (told-whole fi.size r)
    | inr fits ↦ rw fits (told-head_ranges b bs r)
  ]

  told-set_ranges :
      (req : Request) (r : Response)
      → told (set_ranges p (as_head req) fi.size r) ≡ told (set_ranges p (as_get req) fi.size r)
  unfolding set_ranges
  told-set_ranges req r = elim (Bool-cases (has_prefix req.range (codes "bytes="))) [
    | inr other_unit ↦ rw (other_unit, set_ranges)
    | inl bytes ↦ rw (bytes, set_ranges) (told-use_blocks _ _ r)
  ]

  is_not_modified-head :
      (req : Request) → is_not_modified p (as_head req) fi ≡ is_not_modified p (as_get req) fi
  unfolding is_not_modified
  is_not_modified-head req = refl

  abbrev is_refused : Request → Bool
  is_refused req =
      (not (is_empty req.if_range) && not (is_empty req.range)) && not (use_range p req.if_range fi)

  told-set_header :
      (page_expired : ℕ) (req : Request) (file_path : Bytes) (start : Response)
      → told (set_header p page_expired (as_head req) fi file_path start)
        ≡ told (set_header p page_expired (as_get req) fi file_path start)
  unfolding set_header
  told-set_header page_expired req file_path start =
      let r = set_common p page_expired fi file_path start in
      elim (Bool-cases (is_not_modified p (as_get req) fi)) [
        | inl fresh ↦ rw (is_not_modified-head req, fresh)
        | inr stale ↦ elim (Bool-cases (fi.size == 0)) [
          | inl hollow ↦ rw (is_not_modified-head req, stale, hollow)
          | inr filled ↦ elim (Bool-cases (is_refused req)) [
            | inl refused ↦
                rw (is_not_modified-head req, stale, filled, refused) (told-whole fi.size r)
            | inr kept ↦ elim (Bool-cases (is_empty req.range)) [
              | inl no_range ↦
                  rw (is_not_modified-head req, stale, filled, kept, no_range)
                    (told-whole fi.size r)
              | inr asked ↦
                  rw (is_not_modified-head req, stale, filled, kept, asked) (told-set_ranges req r)
            ]
          ]
        ]
      ]

  -- A HEAD request leaves nothing for the body.
  silent-use_blocks :
      (blocks : List BlockRange) (n : ℕ) (r : Response)
      → (use_blocks p head fi.size blocks n r).1 ≡ none
  unfolding use_blocks whole not_satisfiable
  silent-use_blocks [] n r = refl
  silent-use_blocks (b ∷ bs) n r = elim (Bool-cases (ltb fi.size n)) [
    | inl over ↦ rw over
    | inr fits ↦ rw fits
  ]

  silent-set_ranges :
      (req : Request) (r : Response) → (set_ranges p (as_head req) fi.size r).1 ≡ none
  unfolding set_ranges not_satisfiable
  silent-set_ranges req r = elim (Bool-cases (has_prefix req.range (codes "bytes="))) [
    | inr other_unit ↦ rw (other_unit, set_ranges)
    | inl bytes ↦ rw (bytes, set_ranges) (silent-use_blocks _ _ r)
  ]

  silent-set_header :
      (page_expired : ℕ) (req : Request) (file_path : Bytes) (start : Response)
      → (set_header p page_expired (as_head req) fi file_path start).1 ≡ none
  unfolding set_header whole
  silent-set_header page_expired req file_path start =
      let r = set_common p page_expired fi file_path start in
      elim (Bool-cases (is_not_modified p (as_head req) fi)) [
        | inl fresh ↦ rw fresh
        | inr stale ↦ elim (Bool-cases (fi.size == 0)) [
          | inl hollow ↦ rw (stale, hollow)
          | inr filled ↦ elim (Bool-cases (is_refused req)) [
            | inl refused ↦ rw (stale, filled, refused)
            | inr kept ↦ elim (Bool-cases (is_empty req.range)) [
              | inl no_range ↦ rw (stale, filled, kept, no_range)
              | inr asked ↦ rw (stale, filled, kept, asked) (silent-set_ranges req r)
            ]
          ]
        ]
      ]

  nothing_of_silent :
      (result : Response × Option (List BlockRange))
      → result.1 ≡ none
      → (finish p fi (some content) result).body ≡ nothing
  nothing_of_silent (r, none) e = refl
  nothing_of_silent (r, some blocks) e = absurd (cc)

-- For a regular file that opens: a HEAD request gets the status and the headers of the GET request
-- with the same headers, whatever these ask for, and no body.
pub serve_file-head :
    (p : Platform) (page_expired : ℕ) (req : Request) (fi : FileInfo) (content file_path : Bytes)
    (start : Response)
    → ((serve_file p page_expired
          (as_head req)
          (regular fi (some content))
          file_path
          start).response
        ≡ (serve_file p page_expired
            (as_get req)
            (regular fi (some content))
            file_path
            start).response)
      × ((serve_file p page_expired (as_head req) (regular fi (some content)) file_path start).body
          ≡ nothing)
unfolding serve_file
serve_file-head p page_expired req fi content file_path start = (
  told-set_header p fi content page_expired req file_path start,
  nothing_of_silent p fi content _
      (silent-set_header p fi content page_expired req file_path start),
)
