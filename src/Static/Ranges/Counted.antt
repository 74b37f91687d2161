-- ===== src/Static/Ranges/Counted.antt =====
-- The sum of the lengths of blocks that lie apart is the number of the positions that they hold.
use vweb.Common.{
  ℕ, zero, suc, ◌+◌, ◌-◌, ◌≤◌, ◌<◌, ◌≡◌, refl, Bool, true, false, List, [], ◌∷◌, arith, All,
  if◌then◌else◌, min, Bool-cases, inl, inr, leb, ltb, ◌&&◌, ◌||◌,
}
use vweb.Static.Ranges.{BlockRange, stop, total}

-- A block is not empty and lies in a file of this size.
abbrev pub IsWithin : ℕ → BlockRange → Type 0
IsWithin size b = (0 < b.length) × (stop b ≤ size)

-- Every block starts at `lo` or behind it, and later than right behind the one before.
abbrev pub IsSpaced : ℕ → List BlockRange → Type 0
IsSpaced lo [] = Unit
IsSpaced lo (b ∷ bs) = (lo ≤ b.start) × IsSpaced (suc (stop b)) bs

pub IsSpaced-weaken :
    (lo lo' : ℕ) (bs : List BlockRange) → lo ≤ lo' → IsSpaced lo' bs → IsSpaced lo bs
IsSpaced-weaken lo lo' [] h k = tt
IsSpaced-weaken lo lo' (b ∷ bs) h (k, s) = (omega arith, s)

abbrev pub holds : ℕ → BlockRange → Bool
holds i b = leb b.start i && ltb i (stop b)

abbrev pub is_held : ℕ → List BlockRange → Bool
is_held i [] = false
is_held i (b ∷ bs) = holds i b || is_held i bs

-- How many of the positions below n some block holds.
abbrev pub held_below : ℕ → List BlockRange → ℕ
held_below zero bs = 0
held_below (suc n) bs = if is_held n bs then suc (held_below n bs) else held_below n bs

is_held-above : (i lo : ℕ) (bs : List BlockRange) → IsSpaced lo bs → is_held i bs ≡ true → lo ≤ i
is_held-above i lo [] s e = absurd (cc e)
is_held-above i lo (b ∷ bs) (h, s) e = elim (Bool-cases (is_held i bs)) [
  | inl k ↦ let below = is_held-above i (suc (stop b)) bs s k in omega (arith, below)
  | inr k ↦ ground arith
]

held_below-one : (n : ℕ) (b : BlockRange) → held_below n (b ∷ []) ≡ min n (stop b) - b.start
held_below-one zero b = omega arith
held_below-one (suc n) b = ground (arith, held_below-one n b)

-- Where all other blocks start behind a block, the positions of both are counted apart.
held_below-cons :
    (n lo : ℕ) (b : BlockRange) (bs : List BlockRange)
    → stop b ≤ lo
    → IsSpaced lo bs
    → held_below n (b ∷ bs) ≡ held_below n (b ∷ []) + held_below n bs
held_below-cons zero lo b bs h s = refl
held_below-cons (suc n) lo b bs h s = elim (Bool-cases (is_held n bs)) [
  | inl k ↦ ground (arith, held_below-cons n lo b bs h s, is_held-above n lo bs s k)
  | inr k ↦ ground (arith, held_below-cons n lo b bs h s)
]

pub total-held_below :
    (n lo : ℕ) (bs : List BlockRange)
    → All (IsWithin n) bs
    → IsSpaced lo bs
    → total bs ≡ held_below n bs
unfolding total
total-held_below n lo [] h s = none_held n
  where
    none_held : (m : ℕ) → 0 ≡ held_below m []
    none_held zero = refl
    none_held (suc m) = none_held m
total-held_below n lo (b ∷ bs) ((some_bytes, fits), k) (o, s) =
    let ih = total-held_below n (suc (stop b)) bs k s in
    let apart = held_below-cons n (suc (stop b)) b bs (omega arith) s in
    let one = held_below-one n b in omega (arith, ih, apart, one)
