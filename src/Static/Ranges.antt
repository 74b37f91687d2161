-- ===== src/Static/Ranges.antt =====
-- serverHandlerStatic.go, `blockRange` and `ranges`: the parts of a file that a Range header asks
-- for. Positions and lengths are numbers, since none is negative; an end that the header gives may be,
-- and is an integer.
pub mod Merging
pub mod Counted
pub mod Bounds
pub mod Asked
pub mod Requested
use vweb.Common.{
  ℕ, zero, suc, ◌+◌, ◌-◌, Bool, true, false, Option, none, some, List, [], ◌∷◌, Bytes, codes, ◌==◌,
  ltb, leb, ◌||◌, is_empty, has_prefix, trim_space, split, drop, if◌then◌else◌,
}
use vweb.Common.Int.{ℤ, pos, negsuc}
use vweb.Static.Numbers.{parse_int}

pub record BlockRange : Type 0 where
  pub start : ℕ
  pub length : ℕ

-- The position behind the last byte.
abbrev pub stop : BlockRange → ℕ
stop b = b.start + b.length

-- strings.SplitN(v, "-", 2), `none` where it has one part
unfoldable pub cut_dash : Bytes → Option (Bytes × Bytes)
cut_dash [] = none
cut_dash (c ∷ s) = elim (cut_dash s) [
  | none ↦ if c == b'-' then some ([], s) else none
  | some (before, after) ↦ if c == b'-' then some ([], s) else some (c ∷ before, after)
]

-- The checks behind the reading of a range, for a file of `size` bytes.
unfoldable pub block_of : ℕ → ℕ → ℤ → Option BlockRange
block_of size start (negsuc n) = none
block_of size start (pos end) =
    let last = if leb size end then size - 1 else end in
    if leb size start || ltb last start
    then none
    else some (record { start = start; length = last - start + 1 })

-- "-500": the last bytes; start = max(size - val, 0), end = size - 1
unfoldable pub suffix_block : ℕ → Option ℤ → Option BlockRange
unfolding block_of
suffix_block size none = none
suffix_block size (some (negsuc n)) = none
suffix_block size (some (pos val)) =
    if val == 0 then none else block_of size (size - val) (pos (size - 1))

-- "500-" and "0-499"; `last` is the text behind the dash.
unfoldable pub plain_block : ℕ → Option ℤ → Bytes → Option BlockRange
unfolding block_of
plain_block size none last = none
plain_block size (some (negsuc n)) last = none
plain_block size (some (pos start)) last =
    if is_empty last
    then block_of size start (pos (size - 1))
    else elim (parse_int last) [ none ↦ none | some end ↦ block_of size start end ]

-- One round of the loop over the comma-separated ranges; `none` is `continue`.
unfoldable pub parse_range : ℕ → Bytes → Option BlockRange
unfolding cut_dash suffix_block plain_block parse_int trim_space is_empty
parse_range size v = if is_empty (trim_space v) then none else elim (cut_dash (trim_space v)) [
  | none ↦ none
  | some (first, last) ↦
      if is_empty first
      then if is_empty last then none else suffix_block size (parse_int last)
      else plain_block size (parse_int first) last
]

unfoldable pub parse_ranges : ℕ → List Bytes → List BlockRange
unfolding parse_range
parse_ranges size [] = []
parse_ranges size (v ∷ vs) = elim (parse_range size v) [
  | none ↦ parse_ranges size vs
  | some b ↦ b ∷ parse_ranges size vs
]

-- sort.Slice by start
unfoldable pub insert_block : BlockRange → List BlockRange → List BlockRange
insert_block b [] = b ∷ []
insert_block b (c ∷ cs) = if leb b.start c.start then b ∷ c ∷ cs else c ∷ insert_block b cs

unfoldable pub sort_blocks : List BlockRange → List BlockRange
unfolding insert_block
sort_blocks [] = []
sort_blocks (b ∷ bs) = insert_block b (sort_blocks bs)

-- The block that takes in b, which begins in `last` or right behind it.
abbrev pub widen : BlockRange → BlockRange → BlockRange
widen last b =
    if ltb (stop last) (stop b) then record last { length = stop b - last.start } else last

-- The loop over the sorted blocks; `last` is the last one of r so far.
unfoldable pub merge : BlockRange → List BlockRange → List BlockRange
merge last [] = last ∷ []
merge last (b ∷ bs) =
    let joined = merge (widen last b) bs in
    let apart = merge b bs in if leb b.start (stop last) then joined else last ∷ apart

unfoldable pub merge_all : List BlockRange → List BlockRange
unfolding merge
merge_all [] = []
merge_all (b ∷ bs) = merge b bs

unfoldable pub total : List BlockRange → ℕ
total [] = 0
total (b ∷ bs) = b.length + total bs

-- The blocks and the number of their bytes; no blocks where the header is refused.
unfoldable pub ranges : ℕ → Bytes → List BlockRange × ℕ
unfolding parse_ranges sort_blocks merge_all total has_prefix split
ranges size header =
    let blocks = merge_all (sort_blocks (parse_ranges size (split (drop 6 header) b','))) in
    if size == 0
    then ([], 0)
    else if has_prefix header (codes "bytes=")
    then (blocks, total blocks)
    else ([], 0)
