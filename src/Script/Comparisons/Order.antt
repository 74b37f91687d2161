-- ===== src/Script/Comparisons/Order.antt =====
-- On integers and on strings the comparisons are one total order.
use vweb.Common.{
  ℕ, ◌≡◌, refl, ap, Bool, true, false, not, [], ◌∷◌, arith, Bytes, Checked, returns, panics,
}
use vweb.Script.Words.{int}
use vweb.Script.Numbers.{Floats, Value, whole, text}
use vweb.Script.Comparisons.{lt_int, le_int, lt_text, le_text, Comparisons, lt, gt, le, ge}

le_int-lt_int : (x y : ℕ) → le_int x y ≡ not (lt_int y x)
unfolding le_int lt_int
le_int-lt_int x y = ground arith

le_text-lt_text : (x y : Bytes) → le_text x y ≡ not (lt_text y x)
unfolding le_text lt_text
le_text-lt_text [] y = refl
le_text-lt_text (c ∷ x) [] = refl
le_text-lt_text (c ∷ x) (d ∷ y) = ground (arith, le_text-lt_text x y)

lt_int_antisym : (x y : ℕ) → lt_int x y ≡ false → lt_int y x ≡ false → x ≡ y
unfolding lt_int
lt_int_antisym x y h k = ground arith

lt_text_antisym : (x y : Bytes) → lt_text x y ≡ false → lt_text y x ≡ false → x ≡ y
unfolding lt_text
lt_text_antisym [] [] h k = refl
lt_text_antisym [] (d ∷ y) h k = absurd (cc)
lt_text_antisym (c ∷ x) [] h k = absurd (cc)
lt_text_antisym (c ∷ x) (d ∷ y) h k =
    let e : c ≡ d = ground arith in
    let t : x ≡ y = lt_text_antisym x y (ground arith) (ground arith) in cc

lt_int_asym : (x y : ℕ) → lt_int x y ≡ true → lt_int y x ≡ false
unfolding lt_int
lt_int_asym x y h = ground arith

lt_text_asym : (x y : Bytes) → lt_text x y ≡ true → lt_text y x ≡ false
unfolding lt_text
lt_text_asym x [] h = absurd (cc)
lt_text_asym [] (d ∷ y) h = refl
lt_text_asym (c ∷ x) (d ∷ y) h = ground (arith, lt_text_asym x y)

abbrev pub opposite : Checked Bool → Checked Bool
opposite (returns b) = returns (not b)
opposite (panics msg) = panics msg

abbrev returned : Checked Bool → Bool
returned (returns b) = b
returned (panics msg) = false

module _ (fp : Floats) (cmp : Comparisons (fp.Float)) where
  -- Two ints or two strings.
  pub data Alike : Value fp → Value fp → Type 0 where
    ints : (x y : ℕ) → Alike (whole int x) (whole int y)
    texts : (x y : Bytes) → Alike (text x) (text y)

  -- The comparisons of two values agree with each other and with equality.
  pub record IsOrdered (a b : Value fp) : Type 0 where
    pub turned : gt fp cmp a b ≡ lt fp cmp b a
    pub at_most : le fp cmp a b ≡ opposite (gt fp cmp a b)
    pub at_least : ge fp cmp a b ≡ opposite (lt fp cmp a b)
    pub not_both : lt fp cmp a b ≡ returns true → gt fp cmp a b ≡ returns false
    pub equal_else : lt fp cmp a b ≡ returns false → gt fp cmp a b ≡ returns false → a ≡ b

  -- For two ints, and for two strings: GT is LT with its arguments turned round, LE and GE are the
  -- opposites of GT and LT, at most one of LT and GT holds, and if neither does the values are equal.
  pub Alike-IsOrdered : (a b : Value fp) → Alike a b → IsOrdered a b
  unfolding lt gt le ge
  Alike-IsOrdered a b (ints x y) = record {
    turned = refl;
    at_most = ap (λ r. returns r) (le_int-lt_int x y);
    at_least = ap (λ r. returns r) (le_int-lt_int y x);
    not_both = λ h. ap (λ r. returns r) (lt_int_asym x y (ap returned h));
    equal_else = λ h k. ap (λ n. whole int n) (lt_int_antisym x y (ap returned h) (ap returned k));
  }
  Alike-IsOrdered a b (texts x y) = record {
    turned = refl;
    at_most = ap (λ r. returns r) (le_text-lt_text x y);
    at_least = ap (λ r. returns r) (le_text-lt_text y x);
    not_both = λ h. ap (λ r. returns r) (lt_text_asym x y (ap returned h));
    equal_else = λ h k. ap (λ s. text s) (lt_text_antisym x y (ap returned h) (ap returned k));
  }
