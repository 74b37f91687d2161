-- ===== src/Route/Table/Preparsed.antt =====
-- The parts that are parsed at registration serve requests as well as parsing each time.
use vweb.Common.{
  ◌≡◌, refl, ap, true, Option, none, some, List, [], ◌∷◌, Bytes, if◌then◌else◌, Bool-cases,
  Option-cases, inl, inr, Checked, returns, panics, subst_returns, split, length, ◌==◌, copy_into,
}
use vweb.Regexps.{Regexps}
use vweb.Route.Segment.{SegmentPart, parse_placeholder_segment}
use vweb.Route.Extract.{
  Params, has_brace, extract_at, extract_params_from_segment, params_loop, rest_of,
  parse_path_params_preparsed,
}
use vweb.Route.Table.{RoutePathPlaceholder, parse_segments, new_entry}
use vweb.Route.Table.Entries.{new_entry-IsOf}

-- Each part list is nil or the parse of its segment.
abbrev AreParses : List Bytes → List (Option (List SegmentPart)) → Type 0
AreParses [] pre = Unit
AreParses (seg ∷ segs) [] = Unit
AreParses (seg ∷ segs) (none ∷ pre) = AreParses segs pre
AreParses (seg ∷ segs) (some parts ∷ pre) =
    (parse_placeholder_segment seg ≡ some parts) × AreParses segs pre

parse_segments-AreParses :
    (segs : List Bytes) (pre : List (Option (List SegmentPart)))
    → parse_segments segs ≡ returns pre
    → AreParses segs pre
unfolding parse_segments
parse_segments-AreParses [] pre h = tt
parse_segments-AreParses (seg ∷ segs) pre h =
    by_rest (parse_segments segs) refl (parse_segments-AreParses segs)
  where
    by_rest :
        (r : Checked (List (Option (List SegmentPart))))
        → parse_segments segs ≡ r
        → ((rest : List (Option (List SegmentPart)))
            → parse_segments segs ≡ returns rest
            → AreParses segs rest)
        → AreParses (seg ∷ segs) pre
    by_rest (panics msg) e ih = elim (Bool-cases (has_brace seg)) [
      | inr bare ↦ absurd (cc (rw (bare, e, parse_segments) at h))
      | inl braced ↦ elim (Option-cases (parse_placeholder_segment seg)) [
        | inl wrong ↦ absurd (cc (rw (braced, wrong, parse_segments) at h))
        | inr (parts, ok) ↦ absurd (cc (rw (braced, ok, e, parse_segments) at h))
      ]
    ]
    by_rest (returns rest) e ih = elim (Bool-cases (has_brace seg)) [
      | inr bare ↦
          subst_returns (AreParses (seg ∷ segs)) (rw (bare, e, parse_segments) at h) (ih rest e)
      | inl braced ↦ elim (Option-cases (parse_placeholder_segment seg)) [
        | inl wrong ↦ absurd (cc (rw (braced, wrong, parse_segments) at h))
        | inr (parts, ok) ↦
            subst_returns (AreParses (seg ∷ segs)) (rw (braced, ok, e, parse_segments) at h)
              (ok, ih rest e)
      ]
    ]

extract_at-nil : (seg user : Bytes) → extract_at [] seg user ≡ extract_params_from_segment seg user
unfolding extract_at
extract_at-nil seg user = refl

extract_at-some :
    (parts : List SegmentPart) (pre : List (Option (List SegmentPart))) (seg user : Bytes)
    → parse_placeholder_segment seg ≡ some parts
    → extract_at (some parts ∷ pre) seg user ≡ extract_at [] seg user
unfolding extract_at extract_params_from_segment
extract_at-some parts pre seg user h = rw (h, extract_params_from_segment)

params_loop-cong :
    (user seg : Bytes) (users segs : List Bytes) (pre pre' : List (Option (List SegmentPart)))
    (result : Params)
    → extract_at pre seg user ≡ extract_at pre' seg user
    → ((r : Params)
        → params_loop users segs (rest_of pre) r ≡ params_loop users segs (rest_of pre') r)
    → params_loop (user ∷ users) (seg ∷ segs) pre result
      ≡ params_loop (user ∷ users) (seg ∷ segs) pre' result
unfolding params_loop
params_loop-cong user seg users segs pre pre' result e ih = elim (Bool-cases (has_brace seg)) [
  | inr bare ↦ rw (bare, params_loop) (rw (ih result))
  | inl braced ↦ elim (Option-cases (extract_at pre' seg user)) [
    | inl failed ↦ rw (braced, params_loop) (rw (e, failed))
    | inr (params, found) ↦ rw (braced, params_loop) (rw (e, found) (ih (copy_into params result)))
  ]
]

params_loop-parses :
    (users segs : List Bytes) (pre : List (Option (List SegmentPart))) (result : Params)
    → AreParses segs pre
    → params_loop users segs pre result ≡ params_loop users segs [] result
unfolding extract_at
params_loop-parses [] segs pre result h = unfold params_loop in refl
params_loop-parses (user ∷ users) [] pre result h = unfold params_loop in refl
params_loop-parses (user ∷ users) (seg ∷ segs) [] result h = refl
params_loop-parses (user ∷ users) (seg ∷ segs) (none ∷ pre) result h =
    params_loop-cong user seg users segs (none ∷ pre) [] result refl
      (λ r. params_loop-parses users segs pre r h)
params_loop-parses (user ∷ users) (seg ∷ segs) (some parts ∷ pre) result (ok, h) =
    params_loop-cong user seg users segs (some parts ∷ pre) [] result
      (extract_at-some parts pre seg user ok) (λ r. params_loop-parses users segs pre r h)

-- For an entry that `addHandle` makes of a URL with placeholders, matching a path with the parts
-- that were parsed at registration gives the same as parsing each segment of the URL again, failures
-- included.
pub parse_path_params-preparsed :
    (lib : Regexps) {H : Type 0} (url : Bytes) (handle : H) (e : RoutePathPlaceholder lib.Regex H)
    (users : List Bytes)
    → new_entry lib url handle ≡ returns e
    → e.is_placeholder ≡ true
    → parse_path_params_preparsed users e.path_segments e.parsed_parts
      ≡ parse_path_params_preparsed users (split url b'/') []
unfolding parse_path_params_preparsed
parse_path_params-preparsed lib url handle e users made ph =
    let o = new_entry-IsOf lib url handle e made in
    rw o.segments (
      ap (λ t. if length users == length (split url b'/') then t else none)
        (params_loop-parses users (split url b'/') e.parsed_parts []
          (parse_segments-AreParses (split url b'/') e.parsed_parts (o.parsed ph))))
