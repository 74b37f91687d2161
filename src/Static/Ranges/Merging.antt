-- ===== src/Static/Ranges/Merging.antt =====
-- Sorting and merging keep the bytes that the blocks cover.
use vweb.Common.{
  ℕ, ◌≤◌, ◌<◌, ◌≡◌, ◌↔◌, ◌⊎◌, List, [], ◌∷◌, arith, Bool-cases, inl, inr, leb, leb→le,
}
use vweb.Static.Ranges.{BlockRange, stop, insert_block, sort_blocks, widen, merge, merge_all}

abbrev pub Contains : ℕ → BlockRange → Type 0
Contains i b = (b.start ≤ i) × (i < stop b)

-- Some block holds the byte at i.
abbrev pub Covers : ℕ → List BlockRange → Type 0
Covers i [] = ⊥
Covers i (b ∷ bs) = Contains i b ⊎ Covers i bs

-- Starts do not fall from `lo` on.
abbrev pub IsSorted : ℕ → List BlockRange → Type 0
IsSorted lo [] = Unit
IsSorted lo (b ∷ bs) = (lo ≤ b.start) × IsSorted b.start bs

IsSorted-insert_block :
    (lo : ℕ) (b : BlockRange) (bs : List BlockRange)
    → lo ≤ b.start
    → IsSorted lo bs
    → IsSorted lo (insert_block b bs)
unfolding insert_block
IsSorted-insert_block lo b [] h k = (h, tt)
IsSorted-insert_block lo b (c ∷ cs) h k = ground (arith, IsSorted-insert_block c.start b cs)

pub IsSorted-sort_blocks : (bs : List BlockRange) → IsSorted 0 (sort_blocks bs)
unfolding sort_blocks
IsSorted-sort_blocks [] = tt
IsSorted-sort_blocks (b ∷ bs) =
    IsSorted-insert_block 0 b (sort_blocks bs) (omega arith) (IsSorted-sort_blocks bs)

pub IsSorted-weaken :
    (lo lo' : ℕ) (bs : List BlockRange) → lo ≤ lo' → IsSorted lo' bs → IsSorted lo bs
IsSorted-weaken lo lo' [] h k = tt
IsSorted-weaken lo lo' (b ∷ bs) h (k, s) = (omega arith, s)

module _ (i : ℕ) where
  Covers-insert_block :
      (b : BlockRange) (bs : List BlockRange)
      → Covers i (insert_block b bs) ↔ (Contains i b ⊎ Covers i bs)
  unfolding insert_block
  Covers-insert_block b [] = ground arith
  Covers-insert_block b (c ∷ cs) = ground (arith, Covers-insert_block b cs)

  Covers-sort_blocks : (bs : List BlockRange) → Covers i (sort_blocks bs) ↔ Covers i bs
  unfolding sort_blocks
  Covers-sort_blocks [] = ground arith
  Covers-sort_blocks (b ∷ bs) =
      ground (arith, Covers-insert_block b (sort_blocks bs), Covers-sort_blocks bs)

  Contains-widen :
      (last b : BlockRange)
      → last.start ≤ b.start
      → b.start ≤ stop last
      → Contains i (widen last b) ↔ (Contains i last ⊎ Contains i b)
  Contains-widen last b h k = ground arith

  Covers-merge :
      (last : BlockRange) (bs : List BlockRange)
      → IsSorted last.start bs
      → Covers i (merge last bs) ↔ (Contains i last ⊎ Covers i bs)
  unfolding merge
  Covers-merge last [] h = ground arith
  Covers-merge last (b ∷ bs) (h, k) = elim (Bool-cases (leb b.start (stop last))) [
    | inl touch ↦
        let start_same : (widen last b).start ≡ last.start = ground arith in
        let ih = Covers-merge (widen last b) bs (IsSorted-weaken _ b.start bs (omega arith) k) in
        let both = Contains-widen last b h (leb→le _ _ touch) in
        rw (touch, merge) (ground (arith, ih, both))
    | inr apart ↦ rw (apart, merge) (ground (arith, Covers-merge b bs k))
  ]

  Covers-merge_all : (bs : List BlockRange) → IsSorted 0 bs → Covers i (merge_all bs) ↔ Covers i bs
  unfolding merge_all
  Covers-merge_all [] h = ground arith
  Covers-merge_all (b ∷ bs) (h, k) = Covers-merge b bs k

-- A byte lies in one of the blocks after sorting and merging exactly if it lies in one of the ranges
-- that were read from the header.
pub Covers-merge_all-sort_blocks :
    (i : ℕ) (bs : List BlockRange) → Covers i (merge_all (sort_blocks bs)) ↔ Covers i bs
Covers-merge_all-sort_blocks i bs =
    let (to, from) = Covers-merge_all i (sort_blocks bs) (IsSorted-sort_blocks bs) in
    let (back, forth) = Covers-sort_blocks i bs in (λ c. back (to c), λ c. from (forth c))
