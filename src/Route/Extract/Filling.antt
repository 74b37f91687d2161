-- ===== src/Route/Extract/Filling.antt =====
-- What `extractParamsFromSegmentPreparsed` matches: a filling of the placeholders, each value
-- ending at the first place where the next literal stands.
use vweb.Common.{
  ◌≡◌, ◌↔◌, sym, ap, ◌∙◌, true, false, some, List, [], ◌∷◌, ◌++◌, Bytes, length, drop, take,
  take-append-drop, drop-append_length, take-append_length, index, index-le-length, Bool-cases,
  Option-cases, some_inj, insert, inl, inr,
}
use vweb.Route.Segment.{SegmentPart}
use vweb.Route.Extract.{Params, extract_loop, extract_params_from_segment_preparsed}
use vweb.Route.Extract.Steps.{
  literal_inv, extract_loop-nil, extract_loop_last, extract_loop_literal, extract_loop_missing,
  extract_loop_upto, extract_loop_end, length-take,
}

-- `Fills m' parts s m`: the text s is made of the literals of `parts` and of a value for each
-- placeholder, and m' is m with these values assigned in turn. A value before another part ends at
-- the first place where that part's text stands; the last one takes all the rest.
pub data Fills (m' : Params) : List SegmentPart → Bytes → Params → Type 0 where
  done : {m : Params} → m ≡ m' → Fills m' [] [] m
  lit :
      {p : SegmentPart} {ps : List SegmentPart} {s : Bytes} {m : Params} (rest : Bytes)
      → p.is_placeholder ≡ false
      → s ≡ p.value ++ rest
      → Fills m' ps rest m
      → Fills m' (p ∷ ps) s m
  last :
      {p : SegmentPart} {s : Bytes} {m : Params}
      → p.is_placeholder ≡ true
      → insert p.value s m ≡ m'
      → Fills m' (p ∷ []) s m
  upto :
      {p q : SegmentPart} {ps : List SegmentPart} {s : Bytes} {m : Params} (v rest : Bytes)
      → p.is_placeholder ≡ true
      → s ≡ v ++ rest
      → index s q.value ≡ some (length v)
      → Fills m' (q ∷ ps) rest (insert p.value v m)
      → Fills m' (p ∷ q ∷ ps) s m

extract_loop_sound :
    (parts : List SegmentPart) (pre s : Bytes) (m m' : Params)
    → extract_loop parts (pre ++ s) (length pre) m ≡ some m'
    → Fills m' parts s m
extract_loop_sound [] pre s m m' h = let (e, f) = extract_loop-nil pre s m m' h in rw e (done f)
extract_loop_sound (p ∷ []) pre s m m' h = elim (Bool-cases p.is_placeholder) [
  | inl ph ↦ last ph (some_inj (sym (extract_loop_last p pre s m ph) ∙ h))
  | inr l ↦
      let e = literal_inv p [] pre s m l h in
      let rest = drop (length p.value) s in
      lit rest l e (
        extract_loop_sound [] (pre ++ p.value) rest m m' (
          sym (extract_loop_literal p [] pre rest m l)
          ∙ (ap (λ t. extract_loop (p ∷ []) (pre ++ t) (length pre) m) (sym e) ∙ h)))
]
extract_loop_sound (p ∷ q ∷ ps) pre s m m' h = elim (Bool-cases p.is_placeholder) [
  | inl ph ↦ elim (Option-cases (index s q.value)) [
    | inl missing ↦ absurd (cc (extract_loop_missing p q ps pre s m ph missing))
    | inr (n, found) ↦
        upto (take n s) (drop n s) ph (sym (take-append-drop n s))
          (found ∙ ap some (sym (length-take n s (index-le-length s q.value n found))))
          (extract_loop_sound (q ∷ ps) (pre ++ take n s) (drop n s) _ m'
            (sym (extract_loop_upto p q ps pre s m n ph found) ∙ h))
  ]
  | inr l ↦
      let e = literal_inv p (q ∷ ps) pre s m l h in
      let rest = drop (length p.value) s in
      lit rest l e (
        extract_loop_sound (q ∷ ps) (pre ++ p.value) rest m m' (
          sym (extract_loop_literal p (q ∷ ps) pre rest m l)
          ∙ (ap (λ t. extract_loop (p ∷ q ∷ ps) (pre ++ t) (length pre) m) (sym e) ∙ h)))
]

split_append :
    (v rest : Bytes) → (take (length v) (v ++ rest) ≡ v) × (drop (length v) (v ++ rest) ≡ rest)
split_append v rest = (take-append_length v rest, drop-append_length v rest)

extract_loop_complete :
    {m' : Params} {parts : List SegmentPart} {s : Bytes} {m : Params} (pre : Bytes)
    → Fills m' parts s m
    → extract_loop parts (pre ++ s) (length pre) m ≡ some m'
extract_loop_complete pre (done {m} e) = extract_loop_end pre m ∙ ap some e
extract_loop_complete pre (lit {p} {ps} {s} {m} rest l e f) =
    ap (λ t. extract_loop (p ∷ ps) (pre ++ t) (length pre) m) e
    ∙ extract_loop_literal p ps pre rest m l
    ∙ extract_loop_complete (pre ++ p.value) f
extract_loop_complete pre (last {p} {s} {m} ph e) = extract_loop_last p pre s m ph ∙ ap some e
extract_loop_complete pre (upto {p} {q} {ps} {s} {m} v rest ph e found f) =
    let front : take (length v) s ≡ v = ap (take (length v)) e ∙ (split_append v rest).0 in
    let back : drop (length v) s ≡ rest = ap (drop (length v)) e ∙ (split_append v rest).1 in
    let step = extract_loop_upto p q ps pre s m (length v) ph found in
    (rw (front, back) at step) ∙ extract_loop_complete (pre ++ v) f

-- A segment matches with the parameters m exactly when it is such a filling of the parts, from no
-- parameters.
pub extract_params_from_segment_preparsed_iff :
    (parts : List SegmentPart) (user : Bytes) (m : Params)
    → (extract_params_from_segment_preparsed parts user ≡ some m) ↔ Fills m parts user []
unfolding extract_params_from_segment_preparsed
extract_params_from_segment_preparsed_iff parts user m =
    (extract_loop_sound parts [] user [] m, extract_loop_complete [])
