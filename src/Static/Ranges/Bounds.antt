-- ===== src/Static/Ranges/Bounds.antt =====
-- The blocks lie in the file, apart from one another, and hold no more bytes than the file.
use vweb.Common.{
  ℕ, suc, ◌+◌, ◌-◌, ◌≤◌, ◌≡◌, Bool, true, false, Option, none, some, List, [], ◌∷◌, arith, Bytes,
  codes, All, if◌then◌else◌, Bool-cases, Option-cases, inl, inr, leb, ◌==◌, split, drop, has_prefix,
  is_empty, trim_space,
}
use vweb.Common.Int.{ℤ, pos, negsuc}
use vweb.Static.Numbers.{parse_int}
use vweb.Static.Ranges.{
  BlockRange, stop, cut_dash, block_of, suffix_block, plain_block, parse_range, parse_ranges,
  insert_block, sort_blocks, widen, merge, merge_all, total, ranges,
}
use vweb.Static.Ranges.Counted.{IsWithin, IsSpaced, IsSpaced-weaken, held_below, total-held_below}
use vweb.Static.Ranges.Merging.{IsSorted, IsSorted-weaken, IsSorted-sort_blocks}

abbrev Yields : ℕ → Option BlockRange → Type 0
Yields size none = Unit
Yields size (some b) = IsWithin size b

block_of-IsWithin : (size start : ℕ) (end : ℤ) → Yields size (block_of size start end)
unfolding block_of
block_of-IsWithin size start (negsuc n) = tt
block_of-IsWithin size start (pos end) = ground arith

suffix_block-IsWithin : (size : ℕ) (val : Option ℤ) → Yields size (suffix_block size val)
unfolding suffix_block
suffix_block-IsWithin size none = tt
suffix_block-IsWithin size (some (negsuc n)) = tt
suffix_block-IsWithin size (some (pos val)) =
    ground (arith, block_of-IsWithin size (size - val) (pos (size - 1)))

plain_block-IsWithin :
    (size : ℕ) (start : Option ℤ) (last : Bytes) → Yields size (plain_block size start last)
unfolding plain_block
plain_block-IsWithin size none last = tt
plain_block-IsWithin size (some (negsuc n)) last = tt
plain_block-IsWithin size (some (pos start)) last = elim (Bool-cases (is_empty last)) [
  | inl open_end ↦ rw open_end (block_of-IsWithin size start (pos (size - 1)))
  | inr more ↦ elim (Option-cases (parse_int last)) [
    | inl wrong ↦ rw more (rw wrong tt)
    | inr (end, read) ↦ rw more (rw read (block_of-IsWithin size start end))
  ]
]

parse_range-IsWithin : (size : ℕ) (v : Bytes) → Yields size (parse_range size v)
unfolding parse_range
parse_range-IsWithin size v = elim (Bool-cases (is_empty (trim_space v))) [
  | inl hollow ↦ rw (hollow, parse_range) tt
  | inr filled ↦ elim (Option-cases (cut_dash (trim_space v))) [
    | inl whole ↦ rw (filled, whole, parse_range) tt
    | inr ((first, last), parts) ↦
        rw (filled, parts, parse_range) (by_ends first last (is_empty first) (is_empty last))
  ]
]
  where
    by_ends :
        (first last : Bytes) (f l : Bool)
        → Yields size (
            if f
            then if l then none else suffix_block size (parse_int last)
            else plain_block size (parse_int first) last)
    by_ends first last true true = tt
    by_ends first last true false = suffix_block-IsWithin size (parse_int last)
    by_ends first last false l = plain_block-IsWithin size (parse_int first) last

-- All blocks that are read lie in the file.
parse_ranges-IsWithin : (size : ℕ) (vs : List Bytes) → All (IsWithin size) (parse_ranges size vs)
unfolding parse_ranges
parse_ranges-IsWithin size [] = tt
parse_ranges-IsWithin size (v ∷ vs) = elim (Option-cases (parse_range size v)) [
  | inl skipped ↦ rw (skipped, parse_ranges) (parse_ranges-IsWithin size vs)
  | inr (b, read) ↦
      rw (read, parse_ranges)
        (rw read at (parse_range-IsWithin size v), parse_ranges-IsWithin size vs)
]

module _ (size : ℕ) where
  insert_block-IsWithin :
      (b : BlockRange) (bs : List BlockRange)
      → IsWithin size b
      → All (IsWithin size) bs
      → All (IsWithin size) (insert_block b bs)
  unfolding insert_block
  insert_block-IsWithin b [] h k = (h, tt)
  insert_block-IsWithin b (c ∷ cs) h (k, ks) = elim (Bool-cases (leb b.start c.start)) [
    | inl before ↦ rw before (h, (k, ks))
    | inr behind ↦ rw behind (k, insert_block-IsWithin b cs h ks)
  ]

  sort_blocks-IsWithin :
      (bs : List BlockRange) → All (IsWithin size) bs → All (IsWithin size) (sort_blocks bs)
  unfolding sort_blocks
  sort_blocks-IsWithin [] h = tt
  sort_blocks-IsWithin (b ∷ bs) (h, k) =
      insert_block-IsWithin b (sort_blocks bs) h (sort_blocks-IsWithin bs k)

  widen-IsWithin :
      (last b : BlockRange)
      → last.start ≤ b.start
      → IsWithin size last
      → IsWithin size b
      → IsWithin size (widen last b)
  widen-IsWithin last b o h k = ground arith

  merge-IsWithin :
      (last : BlockRange) (bs : List BlockRange)
      → IsSorted last.start bs
      → IsWithin size last
      → All (IsWithin size) bs
      → All (IsWithin size) (merge last bs) × IsSpaced last.start (merge last bs)
  unfolding merge
  merge-IsWithin last [] s h k = ((h, tt), (omega arith, tt))
  merge-IsWithin last (b ∷ bs) (o, s) h (k, ks) = elim (Bool-cases (leb b.start (stop last))) [
    | inl touch ↦
        let start_same : (widen last b).start ≡ last.start = ground arith in
        let behind : IsSorted (widen last b).start bs =
          rw start_same (IsSorted-weaken last.start b.start bs o s) in
        let (within, spaced) =
          merge-IsWithin (widen last b) bs behind (widen-IsWithin last b o h k) ks in
        rw (touch, merge) (within, rw start_same at spaced)
    | inr apart ↦
        let (within, spaced) = merge-IsWithin b bs s k ks in
        let above : suc (stop last) ≤ b.start = ground arith in
        rw (apart, merge) ((h, within), (omega arith, IsSpaced-weaken _ b.start _ above spaced))
  ]

  merge_all-IsWithin :
      (bs : List BlockRange)
      → IsSorted 0 bs
      → All (IsWithin size) bs
      → All (IsWithin size) (merge_all bs) × IsSpaced 0 (merge_all bs)
  unfolding merge_all
  merge_all-IsWithin [] s h = (tt, tt)
  merge_all-IsWithin (b ∷ bs) (o, s) (h, k) =
      let (within, spaced) = merge-IsWithin b bs s h k in
      (within, IsSpaced-weaken 0 b.start _ (omega arith) spaced)

  -- Spaced blocks of a file hold no more bytes than the file has behind `lo`.
  total-le :
      (lo : ℕ) (bs : List BlockRange)
      → lo ≤ size
      → All (IsWithin size) bs
      → IsSpaced lo bs
      → total bs + lo ≤ size
  unfolding total
  total-le lo [] h k s = omega arith
  total-le lo (b ∷ bs) h ((pos_length, fits), k) (o, s) =
      let ih = total-le (stop b) bs fits k (IsSpaced-weaken _ (suc (stop b)) bs (omega arith) s) in
      omega (arith, ih)

-- What `ranges` promises of its blocks and of their number of bytes.
pub record IsServable (size : ℕ) (blocks : List BlockRange) (n : ℕ) : Type 0 where
  pub within : All (IsWithin size) blocks
  pub spaced : IsSpaced 0 blocks
  pub summed : n ≡ held_below size blocks
  pub fits : n ≤ size

-- For every file size and every Range header: each block is not empty and lies in the file, each
-- begins later than right behind the one before, and the number returned is that of the positions
-- below the size of the file that lie in a block, so it is no more than the size.
pub ranges-IsServable :
    (size : ℕ) (header : Bytes) → IsServable size (ranges size header).0 (ranges size header).1
unfolding ranges
ranges-IsServable size header = elim (Bool-cases (size == 0)) [
  | inl hollow ↦ rw (hollow, ranges) none_served
  | inr filled ↦ elim (Bool-cases (has_prefix header (codes "bytes="))) [
    | inr other ↦ rw (filled, other, ranges) none_served
    | inl bytes ↦ rw (filled, bytes, ranges) (some_served (split (drop 6 header) b','))
  ]
]
  where
    none_served : IsServable size [] 0
    none_served = record {
      within = tt;
      spaced = tt;
      summed = unfold total in total-held_below size 0 [] tt tt;
      fits = omega arith;
    }

    some_served :
        (vs : List Bytes)
        → IsServable size
            (merge_all (sort_blocks (parse_ranges size vs)))
            (total (merge_all (sort_blocks (parse_ranges size vs))))
    some_served vs =
        let bs = parse_ranges size vs in
        let (within, spaced) =
          merge_all-IsWithin size (sort_blocks bs) (IsSorted-sort_blocks bs)
            (sort_blocks-IsWithin size bs (parse_ranges-IsWithin size vs)) in
        record {
          within = within;
          spaced = spaced;
          summed = total-held_below size 0 _ within spaced;
          fits = omega (arith, total-le size 0 _ (omega arith) within spaced);
        }
