-- ===== src/Route/Table/Parts.antt =====
-- The parts that are parsed of the segments of a URL.
use vweb.Common.{
  Bool, ◌∙◌, if◌then◌else◌, ◌∷◌, ◌≡◌, refl, true, false, Option, none, some, List, [], Bytes,
  contains, ◌||◌, Bool-cases, Option-cases, inl, inr, Checked, returns, panics, subst_returns,
}
use vweb.Route.Segment.{SegmentPart, parse_placeholder_segment}
use vweb.Route.Extract.{has_brace}
use vweb.Route.Table.{parse_segments}

-- A segment without braces has no parts, and another those that are parsed of it.
abbrev pub PartsOf : List Bytes → List (Option (List SegmentPart)) → Type 0
PartsOf [] [] = Unit
PartsOf [] (p ∷ ps) = ⊥
PartsOf (seg ∷ segs) [] = ⊥
PartsOf (seg ∷ segs) (none ∷ ps) =
    ((contains seg b'{' || contains seg b'}') ≡ false) × PartsOf segs ps
PartsOf (seg ∷ segs) (some parts ∷ ps) =
    ((contains seg b'{' || contains seg b'}') ≡ true)
    × (parse_placeholder_segment seg ≡ some parts)
    × PartsOf segs ps

has_brace-contains : (seg : Bytes) → (contains seg b'{' || contains seg b'}') ≡ has_brace seg
unfolding has_brace
has_brace-contains seg = by_first (contains seg b'{')
  where
    by_first : (b : Bool) → (b || contains seg b'}') ≡ (if b then true else contains seg b'}')
    by_first true = refl
    by_first false = refl

pub PartsOf-parse_segments :
    (segs : List Bytes) (ps : List (Option (List SegmentPart)))
    → parse_segments segs ≡ returns ps
    → PartsOf segs ps
unfolding parse_segments
PartsOf-parse_segments [] ps h = subst_returns (PartsOf []) h tt
PartsOf-parse_segments (seg ∷ segs) ps h =
    by_rest (parse_segments segs) refl (λ qs e. PartsOf-parse_segments segs qs e)
  where
    by_rest :
        (r : Checked (List (Option (List SegmentPart))))
        → parse_segments segs ≡ r
        → ((qs : List (Option (List SegmentPart)))
            → parse_segments segs ≡ returns qs
            → PartsOf segs qs)
        → PartsOf (seg ∷ segs) ps
    by_rest (returns qs) e ih = elim (Bool-cases (has_brace seg)) [
      | inr bare ↦
          subst_returns (PartsOf (seg ∷ segs)) (rw (bare, e, parse_segments) at h)
            (has_brace-contains seg ∙ bare, ih qs e)
      | inl braced ↦ elim (Option-cases (parse_placeholder_segment seg)) [
        | inl wrong ↦ absurd (cc (rw (braced, wrong, parse_segments) at h))
        | inr (parts, read) ↦
            subst_returns (PartsOf (seg ∷ segs)) (rw (braced, read, e, parse_segments) at h)
              (has_brace-contains seg ∙ braced, read, ih qs e)
      ]
    ]
    by_rest (panics msg) e ih = elim (Bool-cases (has_brace seg)) [
      | inr bare ↦ absurd (cc (rw (bare, e, parse_segments) at h))
      | inl braced ↦ elim (Option-cases (parse_placeholder_segment seg)) [
        | inl wrong ↦ absurd (cc (rw (braced, wrong, parse_segments) at h))
        | inr (parts, read) ↦ absurd (cc (rw (braced, read, e, parse_segments) at h))
      ]
    ]
