-- ===== src/Static/Ranges/Asked.antt =====
-- What the two texts around the dash of a range ask for, and the block that is read from them.
use vweb.Common.{
  ℕ, ◌+◌, ◌-◌, ◌≤◌, ◌<◌, ◌≡◌, refl, ◌↔◌, inl, inr, false, Option, none, some, [], ◌∷◌, arith, Bytes,
  is_empty, is_empty_iff, if◌then◌else◌, Bool-cases,
}
use vweb.Common.Int.{ℤ, pos, negsuc}
use vweb.Static.Numbers.{parse_int}
use vweb.Static.Ranges.{BlockRange, block_of, suffix_block, plain_block}
use vweb.Static.Ranges.Merging.{Contains}

-- The byte at i is in the block that is given, if one is.
abbrev pub HasByte : ℕ → Option BlockRange → Type 0
HasByte i none = ⊥
HasByte i (some b) = Contains i b

HasByte-block_of :
    (i size start end : ℕ)
    → 0 < size
    → HasByte i (block_of size start (pos end)) ↔ ((start ≤ i) × (i ≤ end) × (i < size))
unfolding block_of
HasByte-block_of i size start end h = ground arith

HasByte-suffix_block :
    (i size val : ℕ)
    → 0 < size
    → HasByte i (suffix_block size (some (pos val))) ↔ ((size ≤ i + val) × (i < size))
unfolding suffix_block
HasByte-suffix_block i size val h =
    ground (arith, HasByte-block_of i size (size - val) (size - 1) h)

-- What the text of a range asks for, by the texts before and behind its first dash: with nothing
-- before it the last `val` bytes of the file, with nothing behind it all from `start` on, and else those
-- from `start` to `end`, both included, of which the file has some.
pub data AsksBetween (i size : ℕ) (first last : Bytes) : Type 0 where
  suffix :
      (val : ℕ)
      → first ≡ []
      → parse_int last ≡ some (pos val)
      → size ≤ i + val
      → i < size
      → AsksBetween i size first last
  open_end :
      (start : ℕ)
      → last ≡ []
      → parse_int first ≡ some (pos start)
      → start ≤ i
      → i < size
      → AsksBetween i size first last
  closed :
      (start end : ℕ)
      → parse_int first ≡ some (pos start)
      → parse_int last ≡ some (pos end)
      → start ≤ i
      → i ≤ end
      → i < size
      → AsksBetween i size first last

-- What `parse_range` makes of the two texts.
abbrev pub read_parts : ℕ → Bytes → Bytes → Option BlockRange
read_parts size first last =
    if is_empty first
    then if is_empty last then none else suffix_block size (parse_int last)
    else plain_block size (parse_int first) last

module _ (i size : ℕ) (filled : 0 < size) (first last : Bytes) where
  HasByte-suffix_sound :
      first ≡ []
      → (o : Option ℤ) → parse_int last ≡ o
      → HasByte i (suffix_block size o)
      → AsksBetween i size first last
  unfolding suffix_block
  HasByte-suffix_sound e none read h = absurd h
  HasByte-suffix_sound e (some (negsuc n)) read h = absurd h
  HasByte-suffix_sound e (some (pos val)) read h =
      let (far, near) = (HasByte-suffix_block i size val filled).0 h in suffix val e read far near

  HasByte-closed_sound :
      (start : ℕ) (o : Option ℤ)
      → parse_int first ≡ some (pos start)
      → parse_int last ≡ o
      → HasByte i (elim o [ none ↦ none | some end ↦ block_of size start end ])
      → AsksBetween i size first last
  unfolding block_of
  HasByte-closed_sound start none e read h = absurd h
  HasByte-closed_sound start (some (negsuc n)) e read h = absurd h
  HasByte-closed_sound start (some (pos end)) e read h =
      let (from, to, near) = (HasByte-block_of i size start end filled).0 h in
      closed start end e read from to near

  HasByte-plain_sound :
      (o : Option ℤ)
      → parse_int first ≡ o
      → HasByte i (plain_block size o last)
      → AsksBetween i size first last
  unfolding plain_block
  HasByte-plain_sound none read h = absurd h
  HasByte-plain_sound (some (negsuc n)) read h = absurd h
  HasByte-plain_sound (some (pos start)) read h = elim (Bool-cases (is_empty last)) [
    | inl e ↦
        let (from, to, near) = (HasByte-block_of i size start (size - 1) filled).0 (rw e at h) in
        open_end start ((is_empty_iff last).0 e) read from near
    | inr e ↦ HasByte-closed_sound start (parse_int last) read refl (rw e at h)
  ]

  pub HasByte-parts_sound : HasByte i (read_parts size first last) → AsksBetween i size first last
  HasByte-parts_sound h = elim (Bool-cases (is_empty first)) [
    | inr e ↦ HasByte-plain_sound (parse_int first) refl (rw e at h)
    | inl e ↦ elim (Bool-cases (is_empty last)) [
      | inl k ↦ absurd (rw (e, k) at h)
      | inr k ↦
          HasByte-suffix_sound ((is_empty_iff first).0 e) (parse_int last) refl (rw (e, k) at h)
    ]
  ]

  -- A number is not the empty text.
  is_empty-parse_int : (t : Bytes) (v : ℤ) → parse_int t ≡ some v → is_empty t ≡ false
  unfolding parse_int is_empty
  is_empty-parse_int [] v e = absurd (cc e)
  is_empty-parse_int (c ∷ t) v e = refl

  pub HasByte-parts_complete :
      AsksBetween i size first last → HasByte i (read_parts size first last)
  unfolding plain_block
  HasByte-parts_complete (suffix val e read far near) =
      let hollow = (is_empty_iff first).1 e in
      let more = is_empty-parse_int last (pos val) read in
      rw (hollow, more, read) ((HasByte-suffix_block i size val filled).1 (far, near))
  HasByte-parts_complete (open_end start e read from near) =
      let more = is_empty-parse_int first (pos start) read in
      let hollow = (is_empty_iff last).1 e in
      rw (more, read, plain_block, hollow)
        ((HasByte-block_of i size start (size - 1) filled).1 (from, omega arith, near))
  HasByte-parts_complete (closed start end first_read last_read from to near) =
      let more = is_empty-parse_int first (pos start) first_read in
      let behind = is_empty-parse_int last (pos end) last_read in
      rw (more, first_read, plain_block, behind, last_read)
        ((HasByte-block_of i size start end filled).1 (from, to, near))
