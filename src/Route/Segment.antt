-- ===== src/Route/Segment.antt =====
-- route.go, `segmentPart` and `parsePlaceholderSegment`: the syntax of a placeholder segment such as
-- "b{id}b". A string is its bytes, and a result `(parts, ok)` is an `Option`.
pub mod Grammar
pub mod Shape
use vweb.Common.{
  ℕ, ◌≡◌, refl, Bool, true, false, Option, none, some, List, [], ◌∷◌, ◌++◌, Bytes, codes, is_empty,
  ◌==◌, if◌then◌else◌,
}

pub record SegmentPart : Type 0 where
  pub is_placeholder : Bool
  pub value : Bytes

abbrev pub literal : Bytes → SegmentPart
literal v = record { is_placeholder = false; value = v }

abbrev pub placeholder : Bytes → SegmentPart
placeholder v = record { is_placeholder = true; value = v }

-- The variables of the loop.
pub record ParseState : Type 0 where
  pub parts : List SegmentPart
  pub current_buffer : Bytes
  pub in_placeholder : Bool

abbrev pub start : ParseState
start = record { parts = []; current_buffer = []; in_placeholder = false }

-- `if currentBuffer.Len() > 0 { parts = append(…) }`
unfoldable pub flush : List SegmentPart → Bytes → List SegmentPart
unfolding is_empty
flush parts buffer = if is_empty buffer then parts else parts ++ literal buffer ∷ []

-- One round of the loop; `none` is `return nil, false`.
unfoldable pub parse_step : ℕ → ParseState → Option ParseState
unfolding flush
parse_step char st =
    if char == b'{'
    then if st.in_placeholder
      then none
      else some (record {
        parts = flush st.parts st.current_buffer;
        current_buffer = [];
        in_placeholder = true;
      })
    else if char == b'}'
    then if st.in_placeholder
      then if is_empty st.current_buffer
        then none
        else some (record {
          parts = st.parts ++ placeholder st.current_buffer ∷ [];
          current_buffer = [];
          in_placeholder = false;
        })
      else none
    else some (record st { current_buffer = st.current_buffer ++ char ∷ [] })

unfoldable pub parse_loop : Bytes → ParseState → Option ParseState
parse_loop [] st = some st
parse_loop (char ∷ seg) st = elim (parse_step char st) [
  | none ↦ none
  | some st' ↦ parse_loop seg st'
]

-- The last loop: whether two neighbours are both placeholders.
unfoldable pub has_adjacent : List SegmentPart → Bool
has_adjacent [] = false
has_adjacent (p ∷ []) = false
has_adjacent (p ∷ q ∷ ps) =
    if p.is_placeholder
    then if q.is_placeholder then true else has_adjacent (q ∷ ps)
    else has_adjacent (q ∷ ps)

-- What follows the loop.
unfoldable pub parse_end : ParseState → Option (List SegmentPart)
unfolding flush has_adjacent
parse_end st =
    if st.in_placeholder
    then none
    else if has_adjacent (flush st.parts st.current_buffer)
    then none
    else some (flush st.parts st.current_buffer)

unfoldable pub parse_placeholder_segment : Bytes → Option (List SegmentPart)
unfolding parse_loop parse_step parse_end
parse_placeholder_segment seg = elim (parse_loop seg start) [ none ↦ none | some st ↦ parse_end st ]

parse_tests :
    (parse_placeholder_segment (codes "b{id}b")
      ≡ some (literal (codes "b") ∷ placeholder (codes "id") ∷ literal (codes "b") ∷ []))
    × (parse_placeholder_segment (codes "{a}{b}") ≡ none)
    × (parse_placeholder_segment (codes "{}") ≡ none)
    × (parse_placeholder_segment (codes "a}") ≡ none)
    × (parse_placeholder_segment (codes "{{a}") ≡ none)
    × (parse_placeholder_segment (codes "{a") ≡ none)
unfolding parse_placeholder_segment
parse_tests = (refl, refl, refl, refl, refl, refl)
