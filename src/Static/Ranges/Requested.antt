-- ===== src/Static/Ranges/Requested.antt =====
-- Which bytes a Range header asks for.
use vweb.Common.{
  ℕ, ◌<◌, ◌≡◌, refl, sym, ap, ◌∙◌, subst, ◌↔◌, ◌⊎◌, inl, inr, true, false, Option, none, some,
  some_inj, List, [], ◌∷◌, ◌++◌, arith, Bytes, codes, ◌==◌, ==_iff, split, drop, has_prefix,
  is_empty, trim_space, Lacks, if◌then◌else◌, Bool-cases, Option-cases,
}
use vweb.Static.Ranges.{cut_dash, parse_range, parse_ranges, ranges}
use vweb.Static.Ranges.Merging.{Contains, Covers, Covers-merge_all-sort_blocks}
use vweb.Static.Ranges.Asked.{
  HasByte, AsksBetween, read_parts, HasByte-parts_sound, HasByte-parts_complete,
}

-- The text of one range, without the spaces around it, asks for the byte at i of a file of `size`
-- bytes.
pub record AsksFor (i size : ℕ) (text : Bytes) : Type 0 where
  pub first : Bytes
  pub last : Bytes
  pub parted : text ≡ first ++ b'-' ∷ last
  pub whole : Lacks b'-' first
  pub asked : AsksBetween i size first last

-- `cut_dash` parts a text at its first dash.
abbrev CutAs : Bytes → Option (Bytes × Bytes) → Type 0
CutAs s none = Lacks b'-' s
CutAs s (some (first, last)) = (s ≡ first ++ b'-' ∷ last) × Lacks b'-' first

CutAs-cut_dash : (s : Bytes) → CutAs s (cut_dash s)
unfolding cut_dash
CutAs-cut_dash [] = tt
CutAs-cut_dash (c ∷ s) = by_rest (cut_dash s) (CutAs-cut_dash s) (Bool-cases (c == b'-'))
  where
    by_rest :
        (o : Option (Bytes × Bytes))
        → CutAs s o
        → ((c == b'-') ≡ true) ⊎ ((c == b'-') ≡ false)
        → CutAs (c ∷ s) (elim o [
          | none ↦ if c == b'-' then some ([], s) else none
          | some (before, after) ↦ if c == b'-' then some ([], s) else some (c ∷ before, after)
        ])
    by_rest none h (inl e) = rw e (ap (λ d. d ∷ s) ((==_iff c b'-').0 e), tt)
    by_rest none h (inr e) = rw e (ground arith, h)
    by_rest (some (before, after)) h (inl e) = rw e (ap (λ d. d ∷ s) ((==_iff c b'-').0 e), tt)
    by_rest (some (before, after)) (h, k) (inr e) = rw e (ap (λ t. c ∷ t) h, (ground arith, k))

cut_dash-append :
    (first last : Bytes) → Lacks b'-' first → cut_dash (first ++ b'-' ∷ last) ≡ some (first, last)
unfolding cut_dash
cut_dash-append [] last h = elim (Option-cases (cut_dash last)) [
  | inl e ↦ rw e
  | inr (parts, e) ↦ rw e
]
cut_dash-append (c ∷ first) last (h, k) =
    let e : (c == b'-') ≡ false = ground arith in rw (cut_dash-append first last k, e)

is_empty-append_cons : (s : Bytes) (c : ℕ) (t : Bytes) → is_empty (s ++ c ∷ t) ≡ false
unfolding is_empty
is_empty-append_cons [] c t = refl
is_empty-append_cons (d ∷ s) c t = refl

HasByte-cut :
    (i size : ℕ) (text : Bytes) (o : Option (Bytes × Bytes))
    → 0 < size
    → cut_dash text ≡ o
    → HasByte i (elim o [ none ↦ none | some (first, last) ↦ read_parts size first last ])
      ↔ AsksFor i size text
HasByte-cut i size text none h e = (
  λ x. absurd x,
  λ (a : AsksFor i size text).
      let found : cut_dash text ≡ some (a.first, a.last) =
        subst (λ t. cut_dash t ≡ some (a.first, a.last)) (sym a.parted)
          (cut_dash-append a.first a.last a.whole) in
      absurd (cc (e, found)),
)
HasByte-cut i size text (some (first, last)) h e =
    let (parted, whole) = subst (CutAs text) e (CutAs-cut_dash text) in
    (
      λ x. record {
        first = first;
        last = last;
        parted = parted;
        whole = whole;
        asked = HasByte-parts_sound i size h first last x;
      },
      λ (a : AsksFor i size text).
          let found : cut_dash text ≡ some (a.first, a.last) =
            subst (λ t. cut_dash t ≡ some (a.first, a.last)) (sym a.parted)
              (cut_dash-append a.first a.last a.whole) in
          let same_parts = some_inj (sym e ∙ found) in
          subst (λ p. HasByte i (read_parts size p.0 p.1)) (sym same_parts)
            (HasByte-parts_complete i size h a.first a.last a.asked),
    )

-- For a file of `size` bytes that is not empty and the text of one range of a Range header: the block
-- that is read holds the byte at i exactly if the text, without the spaces around it, asks for it:
-- "-val" for the last `val` bytes, or all if there are fewer; "start-" for those from `start` on; and
-- "start-end" for those from `start` to `end`, both included, that the file has. Where the text is none
-- of these, or no byte is left, there is no block.
pub HasByte-parse_range :
    (i size : ℕ) (v : Bytes)
    → 0 < size
    → HasByte i (parse_range size v) ↔ AsksFor i size (trim_space v)
unfolding parse_range
HasByte-parse_range i size v h = elim (Bool-cases (is_empty (trim_space v))) [
  | inr e ↦ rw (e, parse_range) (HasByte-cut i size (trim_space v) _ h refl)
  | inl e ↦ rw (e, parse_range) (λ x. absurd x, λ a. absurd (none_asked (trim_space v) e a))
]
  where
    none_asked : (t : Bytes) → is_empty t ≡ true → AsksFor i size t → ⊥
    none_asked t e a =
        let filled : is_empty t ≡ false =
          subst (λ x. is_empty x ≡ false) (sym a.parted)
            (is_empty-append_cons a.first b'-' a.last) in
        absurd (cc (e, filled))

-- Some range of the list asks for the byte at i.
abbrev pub Asks : ℕ → ℕ → List Bytes → Type 0
Asks i size [] = ⊥
Asks i size (v ∷ vs) = AsksFor i size (trim_space v) ⊎ Asks i size vs

Covers-parse_ranges :
    (i size : ℕ) (vs : List Bytes) → 0 < size → Covers i (parse_ranges size vs) ↔ Asks i size vs
unfolding parse_ranges
Covers-parse_ranges i size [] h = ground arith
Covers-parse_ranges i size (v ∷ vs) h =
    let (to, from) = HasByte-parse_range i size v h in
    let (tos, froms) = Covers-parse_ranges i size vs h in
    elim (Option-cases (parse_range size v)) [
      | inl skipped ↦
          let never = λ (a : AsksFor i size (trim_space v)). rw skipped at (from a) in
          rw (skipped, parse_ranges)
            (
              λ c. inr (tos c),
              λ (x : Asks i size (v ∷ vs)). elim x [ inl a ↦ absurd (never a) | inr l ↦ froms l ],
            )
      | inr (b, read) ↦
          rw (read, parse_ranges)
            (
              λ (x : Contains i b ⊎ Covers i (parse_ranges size vs)). elim x [
                | inl c ↦ inl (to (rw read c))
                | inr c ↦ inr (tos c)
              ],
              λ (x : Asks i size (v ∷ vs)). elim x [
                | inl a ↦ inl (rw read at (from a))
                | inr l ↦ inr (froms l)
              ],
            )
    ]

-- For a file that is not empty and a header that begins with "bytes=": a byte lies in one of the
-- blocks exactly if one of the comma-separated ranges behind that asks for it, as "-val", "start-" or
-- "start-end". Sorting, merging and the skipping of wrong ranges lose no byte and add none.
pub Covers-ranges :
    (i size : ℕ) (header : Bytes)
    → 0 < size
    → has_prefix header (codes "bytes=") ≡ true
    → Covers i (ranges size header).0 ↔ Asks i size (split (drop 6 header) b',')
unfolding ranges
Covers-ranges i size header h p =
    let filled : (size == 0) ≡ false = ground arith in
    let vs = split (drop 6 header) b',' in
    let (to, from) = Covers-merge_all-sort_blocks i (parse_ranges size vs) in
    let (read, write) = Covers-parse_ranges i size vs h in
    rw (filled, p, ranges) (λ c. read (to c), λ a. from (write a))
