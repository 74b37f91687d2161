-- ===== src/Route/Segment/Grammar.antt =====
-- The grammar of placeholder segments: what `parsePlaceholderSegment` accepts and returns.
use vweb.Common.{
  ℕ, ◌≡◌, ◌≢◌, ◌↔◌, ◌⊎◌, refl, sym, ap, ◌∙◌, subst, Bool, true, false, some, List, [], ◌∷◌, ◌++◌,
  append-nil, append_assoc, arith, Bytes, is_empty, ◌==◌, ==_iff, if◌then◌else◌, Bool-cases,
  Option-cases, subst_some, inl, inr,
}
use vweb.Route.Segment.Shape.{IsName, IsPlain, IsParsed, Alternates, parse_end-IsParsed}
use vweb.Route.Segment.{
  SegmentPart, literal, placeholder, ParseState, start, flush, parse_step, parse_loop, has_adjacent,
  parse_end, parse_placeholder_segment,
}

-- The text of a part, and of a list of parts.
abbrev pub print_part : SegmentPart → Bytes
print_part p = if p.is_placeholder then b'{' ∷ (p.value ++ b'}' ∷ []) else p.value

abbrev pub print : List SegmentPart → Bytes
print [] = []
print (p ∷ ps) = print_part p ++ print ps

print-append : (ps qs : List SegmentPart) → print (ps ++ qs) ≡ print ps ++ print qs
print-append [] qs = refl
print-append (p ∷ ps) qs = simp (print-append ps qs, append_assoc)

-- The text that a state has read.
abbrev text_of : ParseState → Bytes
text_of st = print st.parts ++ ((if st.in_placeholder then b'{' ∷ [] else []) ++ st.current_buffer)

print-flush : (ps : List SegmentPart) (v : Bytes) → print (flush ps v) ≡ print ps ++ v
unfolding flush is_empty
print-flush ps [] = sym (append-nil _)
print-flush ps (c ∷ v) = simp (print-append, append-nil)

-- What a state that has read one byte more has as its text.
abbrev Reads : ℕ → List SegmentPart → Bytes → Bool → ParseState → Type 0
Reads c ps buf inside st =
    text_of st ≡ print ps ++ ((if inside then b'{' ∷ [] else []) ++ (buf ++ c ∷ []))

parse_step-Reads :
    (c : ℕ) (ps : List SegmentPart) (buf : Bytes) (inside : Bool) (st' : ParseState)
    → parse_step c (record { parts = ps; current_buffer = buf; in_placeholder = inside }) ≡ some st'
    → Reads c ps buf inside st'
unfolding parse_step
parse_step-Reads c ps buf true st' h = elim (Bool-cases (c == b'{')) [
  | inl opens ↦ absurd (cc (rw opens at h))
  | inr other ↦ elim (Bool-cases (c == b'}')) [
    | inl closes ↦ elim (Bool-cases (is_empty buf)) [
      | inl hollow ↦ absurd (cc (rw (other, closes, hollow) at h))
      | inr full ↦
          subst_some (Reads c ps buf true) (rw (other, closes, full) at h)
            (rw ((==_iff c b'}').0 closes) (simp (print-append, append-nil, append_assoc)))
    ]
    | inr plain ↦ subst_some (Reads c ps buf true) (rw (other, plain) at h) refl
  ]
]
parse_step-Reads c ps buf false st' h = elim (Bool-cases (c == b'{')) [
  | inl opens ↦
      subst_some (Reads c ps buf false) (rw opens at h)
        (rw ((==_iff c b'{').0 opens) (simp (print-flush, append-nil, append_assoc)))
  | inr other ↦ elim (Bool-cases (c == b'}')) [
    | inl closes ↦ absurd (cc (rw (other, closes) at h))
    | inr plain ↦ subst_some (Reads c ps buf false) (rw (other, plain) at h) refl
  ]
]

text_of-parse_loop :
    (seg : Bytes) (st st' : ParseState)
    → parse_loop seg st ≡ some st'
    → text_of st' ≡ text_of st ++ seg
unfolding parse_loop
text_of-parse_loop [] st st' h =
    subst_some (λ s. text_of s ≡ text_of st ++ []) h (sym (append-nil _))
text_of-parse_loop (c ∷ seg) st st' h = elim (Option-cases (parse_step c st)) [
  | inl failed ↦ absurd (cc (rw (failed, parse_loop) at h))
  | inr (mid, stepped) ↦
      text_of-parse_loop seg mid st' (rw (stepped, parse_loop) at h)
      ∙ ap (λ t. t ++ seg)
          (parse_step-Reads c st.parts st.current_buffer st.in_placeholder mid stepped)
      ∙ simp append_assoc
]

print-parse_end :
    (st : ParseState) (ps : List SegmentPart) → parse_end st ≡ some ps → print ps ≡ text_of st
unfolding parse_end
print-parse_end st ps h = elim (Bool-cases st.in_placeholder) [
  | inl inside ↦ absurd (cc (rw inside at h))
  | inr outside ↦ elim (Bool-cases (has_adjacent (flush st.parts st.current_buffer))) [
    | inl twice ↦ absurd (cc (rw (outside, twice) at h))
    | inr fine ↦
        subst_some (λ q. print q ≡ text_of st) (rw (outside, fine) at h)
          (rw outside (print-flush st.parts st.current_buffer))
  ]
]

parse_sound :
    (seg : Bytes) (ps : List SegmentPart)
    → parse_placeholder_segment seg ≡ some ps
    → (print ps ≡ seg) × IsParsed ps
unfolding parse_placeholder_segment
parse_sound seg ps h = elim (Option-cases (parse_loop seg start)) [
  | inl failed ↦ absurd (cc (rw (failed, parse_placeholder_segment) at h))
  | inr (st, read) ↦
      let h' : parse_end st ≡ some ps = rw (read, parse_placeholder_segment) at h in
      (
        print-parse_end st ps h' ∙ text_of-parse_loop seg start st read,
        parse_end-IsParsed seg st ps read h',
      )
]

parse_step-plain :
    (c : ℕ) (st : ParseState)
    → c ≢ b'{'
    → c ≢ b'}'
    → parse_step c st ≡ some (record st { current_buffer = st.current_buffer ++ c ∷ [] })
unfolding parse_step
parse_step-plain c st l r =
    let e : (c == b'{') ≡ false = ground arith in
    let f : (c == b'}') ≡ false = ground arith in rw (e, f)

-- Bytes other than braces go to the buffer.
parse_loop-plain :
    (v rest : Bytes) (st : ParseState)
    → IsPlain v
    → parse_loop (v ++ rest) st
      ≡ parse_loop rest (record st { current_buffer = st.current_buffer ++ v })
unfolding parse_loop
parse_loop-plain [] rest st h = rw append-nil
parse_loop-plain (c ∷ v) rest st ((l, ls), (r, rs)) =
    let ih =
      parse_loop-plain v rest (record st { current_buffer = st.current_buffer ++ c ∷ [] })
        (ls, rs) in
    rw (parse_step-plain c st l r, parse_loop) (ih ∙ rw (append_assoc st.current_buffer (c ∷ []) v))

-- A whole placeholder, read from outside one.
parse_loop-placeholder :
    (v rest : Bytes) (ps : List SegmentPart) (buf : Bytes)
    → IsName v
    → parse_loop
        (b'{' ∷ (v ++ b'}' ∷ rest))
        (record { parts = ps; current_buffer = buf; in_placeholder = false })
      ≡ parse_loop rest (record {
        parts = flush ps buf ++ placeholder v ∷ [];
        current_buffer = [];
        in_placeholder = false;
      })
unfolding parse_loop parse_step is_empty
parse_loop-placeholder [] rest ps buf (filled, plain) = absurd (filled refl)
parse_loop-placeholder (c ∷ v) rest ps buf (filled, plain) =
    parse_loop-plain (c ∷ v) (b'}' ∷ rest)
      (record { parts = flush ps buf; current_buffer = []; in_placeholder = true }) plain

-- The state outside a placeholder with these parts.
abbrev outside : List SegmentPart → Bytes → ParseState
outside ps buf = record { parts = ps; current_buffer = buf; in_placeholder = false }

-- With a literal in the buffer, no literal may follow.
abbrev Follows : Bytes → List SegmentPart → Type 0
Follows buf [] = Unit
Follows buf (p ∷ ps) = (buf ≡ []) ⊎ (p.is_placeholder ≡ true)

flush-nil : (ps : List SegmentPart) → flush ps [] ≡ ps
unfolding flush is_empty
flush-nil ps = refl

flush-name : (ps : List SegmentPart) (v : Bytes) → v ≢ [] → flush ps v ≡ ps ++ literal v ∷ []
unfolding flush is_empty
flush-name ps [] h = absurd (h refl)
flush-name ps (c ∷ v) h = refl

Follows-of_Alternates :
    (p : SegmentPart) (ps : List SegmentPart)
    → p.is_placeholder ≡ false
    → Alternates (p ∷ ps)
    → Follows p.value ps
Follows-of_Alternates p [] e h = tt
Follows-of_Alternates p (q ∷ ps) e h = ground arith

Alternates-tail : (p : SegmentPart) (ps : List SegmentPart) → Alternates (p ∷ ps) → Alternates ps
Alternates-tail p [] h = tt
Alternates-tail p (q ∷ ps) h = h.1

Follows-nil : (ps : List SegmentPart) → Follows [] ps
Follows-nil [] = tt
Follows-nil (p ∷ ps) = inl refl

-- The loop ends outside a placeholder, with these parts.
abbrev Ends : Bytes → ParseState → List SegmentPart → Type 0
Ends seg st all =
    (end : ParseState) × (parse_loop seg st ≡ some end)
    × (end.in_placeholder ≡ false)
    × (flush end.parts end.current_buffer ≡ all)

of_kind :
    (p : SegmentPart) (b : Bool)
    → p.is_placeholder ≡ b
    → record { is_placeholder = b; value = p.value } ≡ p
of_kind p b e = λ i. record { is_placeholder = sym e i; value = p.value }

Ends-placeholder :
    (v : Bytes) (qs ps : List SegmentPart) (buf : Bytes)
    → IsName v
    → Ends
        (print qs)
        (outside (flush ps buf ++ placeholder v ∷ []) [])
        (flush (flush ps buf ++ placeholder v ∷ []) [] ++ qs)
    → Ends (print (placeholder v ∷ qs)) (outside ps buf) (flush ps buf ++ placeholder v ∷ qs)
Ends-placeholder v qs ps buf name (end, run, shut, all) = (
  end,
  rw (append_assoc v (b'}' ∷ []) (print qs))
      (parse_loop-placeholder v (print qs) ps buf name ∙ run),
  shut,
  all ∙ rw flush-nil (append_assoc (flush ps buf) (placeholder v ∷ []) qs),
)

Ends-literal :
    (v : Bytes) (qs ps : List SegmentPart)
    → IsName v
    → Ends (print qs) (outside ps v) (flush ps v ++ qs)
    → Ends (print (literal v ∷ qs)) (outside ps []) (flush ps [] ++ literal v ∷ qs)
Ends-literal v qs ps (filled, plain) (end, run, shut, all) = (
  end,
  parse_loop-plain v (print qs) (outside ps []) plain ∙ run,
  shut,
  all ∙ rw (flush-nil, flush-name ps v filled) (append_assoc ps (literal v ∷ []) qs),
)

-- Reading the text of parts yields these parts behind those that were read before.
parse_loop-print :
    (qs ps : List SegmentPart) (buf : Bytes)
    → IsParsed qs
    → Follows buf qs
    → Ends (print qs) (outside ps buf) (flush ps buf ++ qs)
unfolding parse_loop
parse_loop-print [] ps buf h f = (outside ps buf, refl, refl, sym (append-nil _))
parse_loop-print (q ∷ qs) ps buf ((name, names), alt) f = elim (Bool-cases q.is_placeholder) [
  | inl ph ↦
      subst (λ r. Ends (print (r ∷ qs)) (outside ps buf) (flush ps buf ++ r ∷ qs))
        (of_kind q true ph)
        (Ends-placeholder q.value qs ps buf name
          (parse_loop-print qs _ [] (names, Alternates-tail q qs alt) (Follows-nil qs)))
  | inr lit ↦
      let hollow : buf ≡ [] = ground arith in
      rw hollow (
        subst (λ r. Ends (print (r ∷ qs)) (outside ps []) (flush ps [] ++ r ∷ qs))
          (of_kind q false lit)
          (Ends-literal q.value qs ps name (
            parse_loop-print qs ps q.value (names, Alternates-tail q qs alt)
              (Follows-of_Alternates q qs lit alt))))
]

has_adjacent_of_Alternates : (ps : List SegmentPart) → Alternates ps → has_adjacent ps ≡ false
unfolding has_adjacent
has_adjacent_of_Alternates [] h = refl
has_adjacent_of_Alternates (p ∷ []) h = refl
has_adjacent_of_Alternates (p ∷ q ∷ ps) h = ground (arith, has_adjacent_of_Alternates (q ∷ ps) h.1)

parse_complete :
    (ps : List SegmentPart) → IsParsed ps → parse_placeholder_segment (print ps) ≡ some ps
unfolding parse_placeholder_segment parse_end
parse_complete ps h =
    let (end, run, shut, all) = parse_loop-print ps [] [] h (Follows-nil ps) in
    let same : flush end.parts end.current_buffer ≡ ps = all ∙ rw flush-nil in
    rw (run, parse_placeholder_segment) (rw (shut, same, has_adjacent_of_Alternates ps h.1))

-- A segment is parsed into given parts exactly when it is the text of these parts, their values are
-- not empty and hold no brace, and literals and placeholders stand in turn. So every other segment
-- (a brace that is nested, left open or closed twice, an empty placeholder, two placeholders that
-- touch) is refused.
pub parse_placeholder_segment_iff :
    (seg : Bytes) (ps : List SegmentPart)
    → (parse_placeholder_segment seg ≡ some ps) ↔ ((print ps ≡ seg) × IsParsed ps)
parse_placeholder_segment_iff seg ps = (
  parse_sound seg ps,
  λ (h : (print ps ≡ seg) × IsParsed ps).
      ap parse_placeholder_segment (sym h.0) ∙ parse_complete ps h.1,
)
