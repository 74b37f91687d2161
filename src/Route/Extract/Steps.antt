-- ===== src/Route/Extract/Steps.antt =====
-- One round of the loop of `extractParamsFromSegmentPreparsed`, behind a piece `pre` of the segment
-- that is read already.
use vweb.Common.{
  ℕ, zero, suc, ◌+◌, ◌-◌, ◌≤◌, ◌≡◌, refl, sym, ap, ◌∙◌, true, false, none, some, List, [], ◌∷◌,
  ◌++◌, append-nil, append_assoc, arith, Bytes, length, drop, take, length-append, take-append-drop,
  drop-append_length, take-append_length, index, index-le-length, same, same_iff, ◌==◌, ltb,
  Bool-cases, insert, inl, inr, same_refl,
}
use vweb.Route.Segment.{SegmentPart}
use vweb.Route.Extract.{Params, slice, end_of_param, extract_loop}

slice-append :
    (pre v rest : Bytes) → slice (pre ++ (v ++ rest)) (length pre) (length pre + length v) ≡ v
slice-append pre v rest =
    let e : length pre + length v - length pre ≡ length v = omega arith in
    rw (e, drop-append_length pre (v ++ rest)) (take-append_length v rest)

slice_of_length :
    (pre s : Bytes) (n : ℕ) → slice (pre ++ s) (length pre) (length pre + n) ≡ take n s
slice_of_length pre s n =
    let e : length pre + n - length pre ≡ n = omega arith in rw (e, drop-append_length pre s)

split_at : (s v : Bytes) → take (length v) s ≡ v → s ≡ v ++ drop (length v) s
split_at s v e = sym (take-append-drop (length v) s) ∙ ap (λ t. t ++ drop (length v) s) e

-- The loop behind a piece v of the text.
shift :
    (ps : List SegmentPart) (pre s v rest : Bytes) (m : Params)
    → s ≡ v ++ rest
    → extract_loop ps (pre ++ s) (length pre + length v) m
      ≡ extract_loop ps ((pre ++ v) ++ rest) (length (pre ++ v)) m
shift ps pre s v rest m e = rw (e, append_assoc pre v rest, length-append pre v)

pub length-take : (n : ℕ) (s : Bytes) → n ≤ length s → length (take n s) ≡ n
length-take zero s h = refl
length-take (suc n) [] h = absurd (omega arith)
length-take (suc n) (c ∷ s) h = ap suc (length-take n s (omega arith))

-- The test on the bounds is decided by the place of the piece.
too_long : (pre s : Bytes) (n : ℕ) → n ≤ length s → ltb (length (pre ++ s)) (length pre + n) ≡ false
too_long pre s n h = ground (arith, length-append pre s)

pub extract_loop-nil :
    (pre s : Bytes) (m m' : Params)
    → extract_loop [] (pre ++ s) (length pre) m ≡ some m'
    → (s ≡ []) × (m ≡ m')
unfolding extract_loop
extract_loop-nil pre [] m m' h = ground (arith, length-append pre [])
extract_loop-nil pre (c ∷ s) m m' h = absurd (ground (arith, length-append pre (c ∷ s)))

pub extract_loop_last :
    (p : SegmentPart) (pre s : Bytes) (m : Params)
    → p.is_placeholder ≡ true
    → extract_loop (p ∷ []) (pre ++ s) (length pre) m ≡ some (insert p.value s m)
unfolding extract_loop
extract_loop_last p pre s m ph =
    let whole : slice (pre ++ s) (length pre) (length (pre ++ s)) ≡ s =
      ap (slice (pre ++ s) (length pre)) (length-append pre s)
      ∙ ap (λ t. slice (pre ++ t) (length pre) (length pre + length s)) (sym (append-nil s))
      ∙ slice-append pre s [] in
    let fits : ltb (length (pre ++ s)) (length pre) ≡ false = ground (arith, length-append pre s) in
    let met : (length (pre ++ s) == length (pre ++ s)) ≡ true = ground arith in
    rw ph (rw (fits, whole, met))

pub extract_loop_literal :
    (p : SegmentPart) (ps : List SegmentPart) (pre rest : Bytes) (m : Params)
    → p.is_placeholder ≡ false
    → extract_loop (p ∷ ps) (pre ++ (p.value ++ rest)) (length pre) m
      ≡ extract_loop ps ((pre ++ p.value) ++ rest) (length (pre ++ p.value)) m
unfolding extract_loop
extract_loop_literal p ps pre rest m l = rw l (
    rw
      (
        too_long pre (p.value ++ rest) (length p.value)
            (ground (arith, length-append p.value rest)),
        slice-append pre p.value rest,
        same_refl p.value,
      )
      (shift ps pre (p.value ++ rest) p.value rest m refl))

-- A literal that matches stands at the front of the text.
pub literal_inv :
    (p : SegmentPart) (ps : List SegmentPart) (pre s : Bytes) (m : Params) {m' : Params}
    → p.is_placeholder ≡ false
    → extract_loop (p ∷ ps) (pre ++ s) (length pre) m ≡ some m'
    → s ≡ p.value ++ drop (length p.value) s
unfolding extract_loop
literal_inv p ps pre s m l h =
    let h' = rw (l, extract_loop) at h in
    elim (Bool-cases (ltb (length (pre ++ s)) (length pre + length p.value))) [
      | inl over ↦ absurd (cc (rw over at h'))
      | inr fits ↦
          elim (Bool-cases
            (same (slice (pre ++ s) (length pre) (length pre + length p.value)) p.value)) [
              | inl met ↦
                  split_at s p.value
                    (sym (slice_of_length pre s (length p.value)) ∙ (same_iff _ _).0 met)
              | inr other ↦ absurd (cc (rw (fits, other) at h'))
            ]
    ]

index_at : (pre s sub : Bytes) → index (drop (length pre) (pre ++ s)) sub ≡ index s sub
index_at pre s sub = rw (drop-append_length pre s)

pub extract_loop_missing :
    (p q : SegmentPart) (ps : List SegmentPart) (pre s : Bytes) (m : Params)
    → p.is_placeholder ≡ true
    → index s q.value ≡ none
    → extract_loop (p ∷ q ∷ ps) (pre ++ s) (length pre) m ≡ none
unfolding extract_loop end_of_param
extract_loop_missing p q ps pre s m ph e = rw (ph, extract_loop) (rw (index_at pre s q.value, e))

end_of_param_upto :
    (q : SegmentPart) (ps : List SegmentPart) (pre s : Bytes) (n : ℕ)
    → index s q.value ≡ some n
    → end_of_param (q ∷ ps) (pre ++ s) (length pre) ≡ some (length pre + n)
unfolding end_of_param
end_of_param_upto q ps pre s n e = rw (index_at pre s q.value, e)

extract_loop_placeholder :
    (p : SegmentPart) (ps : List SegmentPart) (user : Bytes) (idx n : ℕ) (m : Params)
    → p.is_placeholder ≡ true
    → end_of_param ps user idx ≡ some (idx + n)
    → extract_loop (p ∷ ps) user idx m
      ≡ extract_loop ps user (idx + n) (insert p.value (slice user idx (idx + n)) m)
unfolding extract_loop
extract_loop_placeholder p ps user idx n m ph e =
    let fits : ltb (idx + n) idx ≡ false = ground arith in rw (ph, extract_loop) (rw e (rw fits))

pub extract_loop_upto :
    (p q : SegmentPart) (ps : List SegmentPart) (pre s : Bytes) (m : Params) (n : ℕ)
    → p.is_placeholder ≡ true
    → index s q.value ≡ some n
    → extract_loop (p ∷ q ∷ ps) (pre ++ s) (length pre) m
      ≡ extract_loop
          (q ∷ ps)
          ((pre ++ take n s) ++ drop n s)
          (length (pre ++ take n s))
          (insert p.value (take n s) m)
extract_loop_upto p q ps pre s m n ph e =
    let len = length-take n s (index-le-length s q.value n e) in
    extract_loop_placeholder p (q ∷ ps) (pre ++ s) (length pre) n m ph
      (end_of_param_upto q ps pre s n e)
    ∙ ap (λ v. extract_loop (q ∷ ps) (pre ++ s) (length pre + n) (insert p.value v m))
        (slice_of_length pre s n)
    ∙ ap (λ k. extract_loop (q ∷ ps) (pre ++ s) (length pre + k) (insert p.value (take n s) m))
        (sym len)
    ∙ shift (q ∷ ps) pre s (take n s) (drop n s) _ (sym (take-append-drop n s))

pub extract_loop_end :
    (pre : Bytes) (m : Params) → extract_loop [] (pre ++ []) (length pre) m ≡ some m
unfolding extract_loop
extract_loop_end pre m = ground (arith, length-append pre [])
