-- ===== src/Static/Serve/Answers.antt =====
-- The Content-Length of an answer with one body is the length of that body.
use vweb.Common.{
  ℕ, ◌≤◌, ◌≡◌, sym, ap, ◌∙◌, Option, none, some, List, [], ◌∷◌, arith, Bytes, codes, has_prefix,
  is_empty, ltb, ◌==◌, not, ◌&&◌, Bool-cases, inl, inr, length, take, drop, length-drop, lookup,
  lookup-insert, same, All, min, zero, suc,
}
use vweb.Static.Headers.{
  Platform, get, Request, FileInfo, Response, set, whole, not_satisfiable, use_blocks, set_ranges,
  is_not_modified, use_range, set_common, set_header, set_single, set_content_length, content_range,
}
use vweb.Static.Numbers.{decimal}
use vweb.Static.Ranges.{BlockRange, stop}
use vweb.Static.Ranges.Bounds.{ranges-IsServable}
use vweb.Static.Ranges.Counted.{IsWithin}
use vweb.Static.Serve.{one, regular, cut, write_body, finish, serve_file}
use vweb.Static.Serve.Heads.{as_get}

abbrev content_length : Response → Option Bytes
content_length r = lookup (codes "Content-Length") r.headers

content_length_set :
    (n : ℕ) (r : Response) → content_length (set_content_length n r) ≡ some (decimal n)
unfolding set_content_length same
content_length_set n r =
    lookup-insert (codes "Content-Length") (codes "Content-Length") (decimal n) r.headers

content_length-set_single :
    (b : BlockRange) (size : ℕ) (r : Response)
    → content_length (set_single b size r) ≡ some (decimal b.length)
unfolding set_single
content_length-set_single b size r =
    content_length_set b.length (set "Content-Range" (content_range b size) r)

length-take-min {ℓ} : {A : Type ℓ} (n : ℕ) (xs : List A) → length (take n xs) ≡ min n (length xs)
length-take-min zero xs = omega arith
length-take-min (suc n) [] = omega arith
length-take-min (suc n) (x ∷ xs) = omega (arith, length-take-min n xs)

length-cut :
    (b : BlockRange) (content : Bytes) → stop b ≤ length content → length (cut b content) ≡ b.length
length-cut b content h =
    length-take-min b.length (drop b.start content) ∙ omega (arith, length-drop b.start content)

module _ (size : ℕ) where
  -- What the body may rely on.
  abbrev Prepared : Response × Option (List BlockRange) → Type 0
  Prepared (r, none) = Unit
  Prepared (r, some []) = content_length r ≡ some (decimal size)
  Prepared (r, some (b ∷ [])) = IsWithin size b
  Prepared (r, some (b ∷ c ∷ bs)) = Unit

  Prepared-whole : (r : Response) → Prepared (whole get size r)
  unfolding whole
  Prepared-whole r = content_length_set size r

  Prepared-use_blocks :
      (p : Platform) (blocks : List BlockRange) (n : ℕ) (r : Response)
      → All (IsWithin size) blocks
      → Prepared (use_blocks p get size blocks n r)
  unfolding use_blocks not_satisfiable
  Prepared-use_blocks p [] n r h = tt
  Prepared-use_blocks p (b ∷ bs) n r h = elim (Bool-cases (ltb size n)) [
    | inl over ↦ rw over (Prepared-whole r)
    | inr fits ↦ rw fits (by_number bs h)
  ]
    where
      by_number :
          (cs : List BlockRange) → All (IsWithin size) (b ∷ cs) → Prepared (r, some (b ∷ cs))
      by_number [] (k, _) = k
      by_number (c ∷ cs) k = tt

  Prepared-set_ranges :
      (p : Platform) (req : Request) (r : Response) → Prepared (set_ranges p (as_get req) size r)
  unfolding set_ranges not_satisfiable
  Prepared-set_ranges p req r = elim (Bool-cases (has_prefix req.range (codes "bytes="))) [
    | inr other_unit ↦ rw (other_unit, set_ranges) tt
    | inl bytes ↦
        rw (bytes, set_ranges)
          (Prepared-use_blocks p _ _ r (ranges-IsServable size req.range).within)
  ]

Prepared-set_header :
    (p : Platform) (page_expired : ℕ) (req : Request) (fi : FileInfo) (file_path : Bytes)
    (start : Response)
    → Prepared fi.size (set_header p page_expired (as_get req) fi file_path start)
unfolding set_header
Prepared-set_header p page_expired req fi file_path start =
    let r = set_common p page_expired fi file_path start in
    elim (Bool-cases (is_not_modified p (as_get req) fi)) [
      | inl fresh ↦ rw fresh tt
      | inr stale ↦ elim (Bool-cases (fi.size == 0)) [
        | inl hollow ↦ rw (stale, hollow) tt
        | inr filled ↦
            elim (Bool-cases (
              (not (is_empty req.if_range) && not (is_empty req.range))
              && not (use_range p req.if_range fi))) [
                | inl refused ↦ rw (stale, filled, refused) (Prepared-whole fi.size r)
                | inr kept ↦ elim (Bool-cases (is_empty req.range)) [
                  | inl no_range ↦ rw (stale, filled, kept, no_range) (Prepared-whole fi.size r)
                  | inr asked ↦
                      rw (stale, filled, kept, asked) (Prepared-set_ranges fi.size p req r)
                ]
              ]
      ]
    ]

content_length-finish :
    (p : Platform) (fi : FileInfo) (content bytes : Bytes)
    (result : Response × Option (List BlockRange))
    → length content ≡ fi.size
    → Prepared fi.size result
    → (finish p fi (some content) result).body ≡ one bytes
    → content_length (finish p fi (some content) result).response ≡ some (decimal (length bytes))
unfolding write_body
content_length-finish p fi content bytes (r, none) e h b = absurd (cc)
content_length-finish p fi content bytes (r, some []) e h b =
    let same_bytes : content ≡ bytes = cc in
    h ∙ ap (λ n. some (decimal n)) (sym e ∙ ap length same_bytes)
content_length-finish p fi content bytes (r, some (k ∷ [])) e h b =
    let same_bytes : cut k content ≡ bytes = cc in
    content_length-set_single k fi.size r
    ∙ ap (λ n. some (decimal n))
        (sym (length-cut k content (omega (arith, e, h.1))) ∙ ap length same_bytes)
content_length-finish p fi content bytes (r, some (k ∷ c ∷ ks)) e h b = absurd (cc)

-- For a GET request of a regular file that opens and has as many bytes as its size says: where the
-- answer has one body (the whole file or one block of it), the Content-Length header is the decimal
-- number of the bytes of that body.
pub serve_file-content_length :
    (p : Platform) (page_expired : ℕ) (req : Request) (fi : FileInfo)
    (content file_path bytes : Bytes) (start : Response)
    → length content ≡ fi.size
    → (serve_file p page_expired (as_get req) (regular fi (some content)) file_path start).body
      ≡ one bytes
    → lookup
        (codes "Content-Length")
        (serve_file p page_expired
          (as_get req)
          (regular fi (some content))
          file_path
          start).response.headers
      ≡ some (decimal (length bytes))
unfolding serve_file
serve_file-content_length p page_expired req fi content file_path bytes start e h =
    content_length-finish p fi content bytes _ e
      (Prepared-set_header p page_expired req fi file_path start) h
