-- ===== src/Route/Extract.antt =====
-- route.go, `extractParamsFromSegmentPreparsed`, `extractParamsFromSegment` and
-- `parsePathParamsPreparsed`: the parameters of a path. A map[string]string is an association list,
-- and a result `(params, ok)` is an `Option`.
mod Steps
pub mod Filling
pub mod Render
use mathlib.Core.Option
use vweb.Common.{
  ℕ, ◌+◌, ◌-◌, Bool, true, false, ◌&&◌, Option, none, some, List, [], ◌∷◌, Bytes, same, contains,
  index, ◌==◌, ltb, not, if◌then◌else◌, length, take, drop, insert, copy_into, lookup,
}
use vweb.Route.Segment.{SegmentPart, parse_placeholder_segment}

abbrev pub Params : Type 0
Params = List (Bytes × Bytes)

-- `s[from:to]`
abbrev pub slice : Bytes → ℕ → ℕ → Bytes
slice s from to = take (to - from) (drop from s)

-- `endOfParam`: the first place of the next literal from `idx` on, or the end of the segment.
unfoldable pub end_of_param : List SegmentPart → Bytes → ℕ → Option ℕ
end_of_param [] user idx = some (length user)
end_of_param (next ∷ _) user idx =
    Option.map (λ found. idx + found) (index (drop idx user) next.value)

-- The loop over the parts, with `userSegIdx` and `result`.
unfoldable pub extract_loop : List SegmentPart → Bytes → ℕ → Params → Option Params
unfolding end_of_param
extract_loop [] user idx result = if idx == length user then some result else none
extract_loop (part ∷ parts) user idx result = elim part.is_placeholder [
  | false ↦
      let stop = idx + length part.value in
      let next = extract_loop parts user stop result in
      if ltb (length user) stop
      then none
      else if same (slice user idx stop) part.value
      then next
      else none
  | true ↦ elim (end_of_param parts user idx) [
    | none ↦ none
    | some stop ↦
        let next = extract_loop parts user stop (insert part.value (slice user idx stop) result) in
        if ltb stop idx then none else next
  ]
]

unfoldable pub extract_params_from_segment_preparsed : List SegmentPart → Bytes → Option Params
unfolding extract_loop
extract_params_from_segment_preparsed parts user = extract_loop parts user 0 []

unfoldable pub extract_params_from_segment : Bytes → Bytes → Option Params
unfolding extract_params_from_segment_preparsed
extract_params_from_segment seg user = elim (parse_placeholder_segment seg) [
  | none ↦ none
  | some parts ↦ extract_params_from_segment_preparsed parts user
]

-- `strings.Contains(seg, "{") || strings.Contains(seg, "}")`
unfoldable pub has_brace : Bytes → Bool
has_brace seg = if contains seg b'{' then true else contains seg b'}'

-- `preParsed[i]`, or the segment parsed again where that is out of range or nil.
unfoldable pub extract_at : List (Option (List SegmentPart)) → Bytes → Bytes → Option Params
unfolding extract_params_from_segment_preparsed extract_params_from_segment
extract_at (some parts ∷ _) seg user = extract_params_from_segment_preparsed parts user
extract_at _ seg user = extract_params_from_segment seg user

abbrev pub rest_of {ℓ} : {A : Type ℓ} → List A → List A
rest_of [] = []
rest_of (x ∷ xs) = xs

-- The loop over the segments of equal numbers; the pre-parsed parts advance with them.
unfoldable pub params_loop :
    List Bytes → List Bytes → List (Option (List SegmentPart)) → Params → Option Params
unfolding has_brace extract_at copy_into
params_loop (user ∷ users) (seg ∷ segs) pre result = elim (has_brace seg) [
  | false ↦
      let next = params_loop users segs (rest_of pre) result in if same seg user then next else none
  | true ↦ elim (extract_at pre seg user) [
    | none ↦ none
    | some params ↦ params_loop users segs (rest_of pre) (copy_into params result)
  ]
]
params_loop _ _ pre result = some result

unfoldable pub parse_path_params_preparsed :
    List Bytes → List Bytes → List (Option (List SegmentPart)) → Option Params
unfolding params_loop
parse_path_params_preparsed users segs pre =
    if length users == length segs then params_loop users segs pre [] else none
