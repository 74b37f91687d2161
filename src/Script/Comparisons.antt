-- ===== src/Script/Comparisons.antt =====
-- builtin/boolean.go: the comparisons of two values of a script.
pub mod Order
use vweb.Common.{
  ℕ, ◌+◌, Bool, true, false, List, [], ◌∷◌, Bytes, codes, ◌==◌, ltb, leb, if◌then◌else◌, Checked,
  returns, panics,
}
use vweb.Script.Words.{int, is_negative}
use vweb.Script.Numbers.{Floats, Value, whole, double, text}

-- Two integers by their bits.
unfoldable pub lt_int : ℕ → ℕ → Bool
lt_int x y =
    if is_negative x
    then if is_negative y then ltb x y else true
    else if is_negative y
    then false
    else ltb x y

unfoldable pub le_int : ℕ → ℕ → Bool
le_int x y =
    if is_negative x
    then if is_negative y then leb x y else true
    else if is_negative y
    then false
    else leb x y

-- Two strings, byte by byte.
unfoldable pub lt_text : Bytes → Bytes → Bool
lt_text x [] = false
lt_text [] (d ∷ y) = true
lt_text (c ∷ x) (d ∷ y) =
    let rest = lt_text x y in if ltb c d then true else if c == d then rest else false

unfoldable pub le_text : Bytes → Bytes → Bool
le_text [] y = true
le_text (c ∷ x) [] = false
le_text (c ∷ x) (d ∷ y) =
    let rest = le_text x y in if ltb c d then true else if c == d then rest else false

-- The comparisons of the machine's floating-point numbers.
pub record Comparisons (F : Type 0) : Type 0 where
  pub flt : F → F → Bool
  pub fle : F → F → Bool

module _ (fp : Floats) (cmp : Comparisons (fp.Float)) where
  unfoldable pub lt : Value fp → Value fp → Checked Bool
  unfolding lt_int lt_text
  lt (whole int x) (whole int y) = returns (lt_int x y)
  lt (whole int x) (double y) = returns (cmp.flt (fp.of_int x) y)
  lt (double x) (whole int y) = returns (cmp.flt x (fp.of_int y))
  lt (double x) (double y) = returns (cmp.flt x y)
  lt (text x) (text y) = returns (lt_text x y)
  lt _ _ = panics (codes "unsupported")

  unfoldable pub gt : Value fp → Value fp → Checked Bool
  unfolding lt_int lt_text
  gt (whole int x) (whole int y) = returns (lt_int y x)
  gt (whole int x) (double y) = returns (cmp.flt y (fp.of_int x))
  gt (double x) (whole int y) = returns (cmp.flt (fp.of_int y) x)
  gt (double x) (double y) = returns (cmp.flt y x)
  gt (text x) (text y) = returns (lt_text y x)
  gt _ _ = panics (codes "unsupported")

  unfoldable pub le : Value fp → Value fp → Checked Bool
  unfolding le_int le_text
  le (whole int x) (whole int y) = returns (le_int x y)
  le (whole int x) (double y) = returns (cmp.fle (fp.of_int x) y)
  le (double x) (whole int y) = returns (cmp.fle x (fp.of_int y))
  le (double x) (double y) = returns (cmp.fle x y)
  le (text x) (text y) = returns (le_text x y)
  le _ _ = panics (codes "unsupported")

  unfoldable pub ge : Value fp → Value fp → Checked Bool
  unfolding le_int le_text
  ge (whole int x) (whole int y) = returns (le_int y x)
  ge (whole int x) (double y) = returns (cmp.fle y (fp.of_int x))
  ge (double x) (whole int y) = returns (cmp.fle (fp.of_int y) x)
  ge (double x) (double y) = returns (cmp.fle y x)
  ge (text x) (text y) = returns (le_text y x)
  ge _ _ = panics (codes "unsupported")
