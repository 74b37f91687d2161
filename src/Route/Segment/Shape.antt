-- ===== src/Route/Segment/Shape.antt =====
-- The shape of the parts that `parsePlaceholderSegment` returns: non-empty values without braces,
-- literals and placeholders in turn.
use vweb.Common.{
  ℕ, ◌≡◌, ◌≢◌, ◌⊎◌, refl, true, false, some, List, [], ◌∷◌, ◌++◌, arith, Bytes, is_empty,
  is_empty_iff, ◌==◌, All, All-append, Lacks, Bool-cases, Option-cases, subst_some, inl, inr,
}
use vweb.Route.Segment.{
  SegmentPart, literal, ParseState, start, flush, parse_step, parse_loop, has_adjacent, parse_end,
}

-- A text without braces.
abbrev pub IsPlain : Bytes → Type 0
IsPlain v = Lacks b'{' v × Lacks b'}' v

abbrev pub IsName : Bytes → Type 0
IsName v = (v ≢ []) × IsPlain v

-- No two neighbours are of one kind.
abbrev pub Alternates : List SegmentPart → Type 0
Alternates [] = Unit
Alternates (p ∷ []) = Unit
Alternates (p ∷ q ∷ ps) = (p.is_placeholder ≢ q.is_placeholder) × Alternates (q ∷ ps)

abbrev pub IsParsed : List SegmentPart → Type 0
IsParsed ps = All (λ p. IsName p.value) ps × Alternates ps

-- No two neighbours are both literals.
abbrev NoLiterals : List SegmentPart → Type 0
NoLiterals [] = Unit
NoLiterals (p ∷ []) = Unit
NoLiterals (p ∷ q ∷ ps) =
    ((p.is_placeholder ≡ true) ⊎ (q.is_placeholder ≡ true)) × NoLiterals (q ∷ ps)

abbrev EndsPlaceholder : List SegmentPart → Type 0
EndsPlaceholder [] = Unit
EndsPlaceholder (p ∷ []) = p.is_placeholder ≡ true
EndsPlaceholder (p ∷ q ∷ ps) = EndsPlaceholder (q ∷ ps)

NoLiterals-concat :
    (ps : List SegmentPart) (q : SegmentPart)
    → NoLiterals ps
    → EndsPlaceholder ps ⊎ (q.is_placeholder ≡ true)
    → NoLiterals (ps ++ q ∷ [])
NoLiterals-concat [] q h e = tt
NoLiterals-concat (p ∷ []) q h e = (e, tt)
NoLiterals-concat (p ∷ r ∷ ps) q (k, h) e = (k, NoLiterals-concat (r ∷ ps) q h e)

EndsPlaceholder-concat :
    (ps : List SegmentPart) (q : SegmentPart)
    → q.is_placeholder ≡ true
    → EndsPlaceholder (ps ++ q ∷ [])
EndsPlaceholder-concat [] q e = e
EndsPlaceholder-concat (p ∷ []) q e = e
EndsPlaceholder-concat (p ∷ r ∷ ps) q e = EndsPlaceholder-concat (r ∷ ps) q e

Alternates-of_NoLiterals :
    (ps : List SegmentPart) → NoLiterals ps → has_adjacent ps ≡ false → Alternates ps
unfolding has_adjacent
Alternates-of_NoLiterals [] h e = tt
Alternates-of_NoLiterals (p ∷ []) h e = tt
Alternates-of_NoLiterals (p ∷ q ∷ ps) h e = ground (arith, Alternates-of_NoLiterals (q ∷ ps) h.1)

-- Between two rounds of the loop.
record IsValid (st : ParseState) : Type 0 where
  named : All (λ p. IsName p.value) st.parts
  spaced : NoLiterals st.parts
  plain : IsPlain st.current_buffer
  ends : st.in_placeholder ≡ false → EndsPlaceholder st.parts

flush-named :
    (ps : List SegmentPart) (v : Bytes)
    → All (λ p. IsName p.value) ps
    → IsPlain v
    → All (λ p. IsName p.value) (flush ps v)
unfolding flush is_empty
flush-named ps [] h k = h
flush-named ps (c ∷ v) h k =
    All-append (λ p. IsName p.value) ps (literal (c ∷ v) ∷ []) h ((ground arith, k), tt)

flush-NoLiterals :
    (ps : List SegmentPart) (v : Bytes)
    → NoLiterals ps
    → EndsPlaceholder ps
    → NoLiterals (flush ps v)
unfolding flush is_empty
flush-NoLiterals ps [] h e = h
flush-NoLiterals ps (c ∷ v) h e = NoLiterals-concat ps (literal (c ∷ v)) h (inl e)

IsPlain-concat :
    (v : Bytes) (c : ℕ)
    → IsPlain v
    → (c == b'{') ≡ false
    → (c == b'}') ≡ false
    → IsPlain (v ++ c ∷ [])
IsPlain-concat v c (l, r) e f = (
  All-append (λ d. d ≢ b'{') v (c ∷ []) l (ground arith, tt),
  All-append (λ d. d ≢ b'}') v (c ∷ []) r (ground arith, tt),
)

parse_step-IsValid :
    (c : ℕ) (st st' : ParseState) → IsValid st → parse_step c st ≡ some st' → IsValid st'
unfolding parse_step
parse_step-IsValid c st st' v h = elim (Bool-cases (c == b'{')) [
  | inl opens ↦ elim (Bool-cases st.in_placeholder) [
    | inl inside ↦ absurd (cc (rw (opens, inside) at h))
    | inr outside ↦ subst_some IsValid (rw (opens, outside) at h) (record {
      named = flush-named st.parts st.current_buffer v.named v.plain;
      spaced = flush-NoLiterals st.parts st.current_buffer v.spaced (v.ends outside);
      plain = (tt, tt);
      ends = λ e. cc;
    })
  ]
  | inr other ↦ elim (Bool-cases (c == b'}')) [
    | inl closes ↦ elim (Bool-cases st.in_placeholder) [
      | inl inside ↦ elim (Bool-cases (is_empty st.current_buffer)) [
        | inl hollow ↦ absurd (cc (rw (other, closes, inside, hollow) at h))
        | inr full ↦ subst_some IsValid (rw (other, closes, inside, full) at h) (record {
          named =
              All-append (λ p. IsName p.value) st.parts _ v.named
                ((λ e. cc (full, (is_empty_iff _).1 e), v.plain), tt);
          spaced = NoLiterals-concat st.parts _ v.spaced (inr refl);
          plain = (tt, tt);
          ends = λ _. EndsPlaceholder-concat st.parts _ refl;
        })
      ]
      | inr outside ↦ absurd (cc (rw (other, closes, outside) at h))
    ]
    | inr plain ↦ subst_some IsValid (rw (other, plain) at h) (record {
      named = v.named;
      spaced = v.spaced;
      plain = IsPlain-concat st.current_buffer c v.plain other plain;
      ends = v.ends;
    })
  ]
]

parse_loop-IsValid :
    (seg : Bytes) (st st' : ParseState) → IsValid st → parse_loop seg st ≡ some st' → IsValid st'
unfolding parse_loop
parse_loop-IsValid [] st st' v h = subst_some IsValid h v
parse_loop-IsValid (c ∷ seg) st st' v h = elim (Option-cases (parse_step c st)) [
  | inl failed ↦ absurd (cc (rw (failed, parse_loop) at h))
  | inr (mid, stepped) ↦
      parse_loop-IsValid seg mid st' (parse_step-IsValid c st mid v stepped)
        (rw (stepped, parse_loop) at h)
]

start-IsValid : IsValid start
start-IsValid = record { named = tt; spaced = tt; plain = (tt, tt); ends = λ _. tt }

pub parse_end-IsParsed :
    (seg : Bytes) (st : ParseState) (ps : List SegmentPart)
    → parse_loop seg start ≡ some st
    → parse_end st ≡ some ps
    → IsParsed ps
unfolding parse_end
parse_end-IsParsed seg st ps read h =
    let v = parse_loop-IsValid seg start st start-IsValid read in
    elim (Bool-cases st.in_placeholder) [
      | inl inside ↦ absurd (cc (rw inside at h))
      | inr outside ↦ elim (Bool-cases (has_adjacent (flush st.parts st.current_buffer))) [
        | inl twice ↦ absurd (cc (rw (outside, twice) at h))
        | inr fine ↦ subst_some IsParsed (rw (outside, fine) at h) (
          flush-named st.parts st.current_buffer v.named v.plain,
          Alternates-of_NoLiterals _
              (flush-NoLiterals st.parts st.current_buffer v.spaced (v.ends outside)) fine,
        )
      ]
    ]
