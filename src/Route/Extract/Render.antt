-- ===== src/Route/Extract/Render.antt =====
-- The parameters of a segment spell the segment.
use vweb.Common.{
  ◌≡◌, ◌≢◌, refl, sym, ap, ◌∙◌, true, Option, none, some, List, [], ◌∷◌, ◌++◌, append-nil, arith,
  Bytes, same_iff, lookup, lookup-insert, insert, All, if◌then◌else◌,
}
use vweb.Route.Segment.{SegmentPart}
use vweb.Route.Extract.{Params, extract_params_from_segment_preparsed}
use vweb.Route.Extract.Filling.{
  Fills, done, lit, last, upto, extract_params_from_segment_preparsed_iff,
}

-- `m[key]` for a key that may be missing
abbrev pub get_or_empty : Bytes → Params → Bytes
get_or_empty key m = elim (lookup key m) [ none ↦ [] | some v ↦ v ]

-- The segment that the parts make with the parameters put in.
abbrev pub render : List SegmentPart → Params → Bytes
render [] m = []
render (p ∷ ps) m = (if p.is_placeholder then get_or_empty p.value m else p.value) ++ render ps m

abbrev pub IsUnused : Bytes → List SegmentPart → Type 0
IsUnused name ps = All (λ p. p.is_placeholder ≡ true → p.value ≢ name) ps

abbrev pub HasDistinctNames : List SegmentPart → Type 0
HasDistinctNames [] = Unit
HasDistinctNames (p ∷ ps) = (p.is_placeholder ≡ true → IsUnused p.value ps) × HasDistinctNames ps

lookup-insert_ne :
    (name other v : Bytes) (m : Params)
    → other ≢ name
    → lookup name (insert other v m) ≡ lookup name m
lookup-insert_ne name other v m h =
    ground (arith, lookup-insert other name v m, same_iff other name)

lookup-insert_self : (name v : Bytes) (m : Params) → lookup name (insert name v m) ≡ some v
lookup-insert_self name v m = ground (arith, lookup-insert name name v m, same_iff name name)

-- A parameter that no later placeholder names stays.
lookup-Fills :
    {m' : Params} {ps : List SegmentPart} {s : Bytes} {m : Params} (name : Bytes)
    → Fills m' ps s m
    → IsUnused name ps
    → lookup name m' ≡ lookup name m
lookup-Fills name (done e) h = ap (lookup name) (sym e)
lookup-Fills name (lit rest l e f) (h, hs) = lookup-Fills name f hs
lookup-Fills name (last {p} {s} {m} ph e) (h, hs) =
    ap (lookup name) (sym e) ∙ lookup-insert_ne name p.value s m (h ph)
lookup-Fills name (upto {p} {m} v rest ph e found f) (h, hs) =
    lookup-Fills name f hs ∙ lookup-insert_ne name p.value v m (h ph)

get_or_empty_of_lookup :
    (key v : Bytes) (m : Params) → lookup key m ≡ some v → get_or_empty key m ≡ v
get_or_empty_of_lookup key v m e = ap (λ (o : Option Bytes). elim o [ none ↦ [] | some w ↦ w ]) e

render-Fills :
    {m' : Params} {ps : List SegmentPart} {s : Bytes} {m : Params}
    → Fills m' ps s m
    → HasDistinctNames ps
    → render ps m' ≡ s
render-Fills (done e) h = refl
render-Fills (lit {p} rest l e f) (h, hs) =
    rw l (ap (λ t. p.value ++ t) (render-Fills f hs) ∙ sym e)
render-Fills {m'} (last {p} {s} {m} ph e) h = rw ph (
    append-nil _
    ∙ get_or_empty_of_lookup p.value s m'
        (ap (lookup p.value) (sym e) ∙ lookup-insert_self p.value s m))
render-Fills {m'} (upto {p} {q} {ps} {m} v rest ph e found f) (h, hs) =
    let read = lookup-Fills p.value f (h ph) ∙ lookup-insert_self p.value v m in
    rw ph (
      ap (λ t. t ++ render (q ∷ ps) m') (get_or_empty_of_lookup p.value v m' read)
      ∙ ap (λ t. v ++ t) (render-Fills f hs)
      ∙ sym e)

-- If no name stands twice, putting the extracted parameters into the parts gives the segment of the
-- request back.
pub render-extract :
    (parts : List SegmentPart) (user : Bytes) (m : Params)
    → HasDistinctNames parts
    → extract_params_from_segment_preparsed parts user ≡ some m
    → render parts m ≡ user
render-extract parts user m d h =
    render-Fills ((extract_params_from_segment_preparsed_iff parts user m).0 h) d
