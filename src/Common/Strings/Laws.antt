-- ===== src/Common/Strings/Laws.antt =====
-- The laws of the string functions that the components rely on.
use Prim.Native.Nat.{ℕ, suc, ◌≤◌}
use mathlib.Core.Bool.{true, false}
use mathlib.Core.List.{List, [], ◌∷◌, ◌++◌}
use mathlib.Core.Logic.{◌≢◌, ◌↔◌, inl, inr}
use mathlib.Core.Option.{Option, none, some}
use mathlib.Core.Option
use mathlib.Core.Path.{◌≡◌, refl, sym, ap, ◌∙◌}
use native.Mathlib.Omega.{arith}
use vweb.Common.Tests.{◌==◌, ==_iff, Bool-cases}
use vweb.Common.Lists.{length, drop, take, All}
use vweb.Common.Strings.Defs.{
  Bytes, same, is_empty, has_prefix, contains, index, cons_head, split, join,
}

pub same_refl : (a : Bytes) → same a a ≡ true
unfolding same
same_refl [] = refl
same_refl (x ∷ xs) = ground (arith, same_refl xs)

same_sound : (a b : Bytes) → same a b ≡ true → a ≡ b
unfolding same
same_sound [] [] h = refl
same_sound [] (y ∷ ys) h = cc
same_sound (x ∷ xs) [] h = cc
same_sound (x ∷ xs) (y ∷ ys) h = ground (arith, same_sound xs ys)

pub same_iff : (a b : Bytes) → (same a b ≡ true) ↔ (a ≡ b)
same_iff a b = (same_sound a b, λ e. ap (same a) (sym e) ∙ same_refl a)

pub is_empty_iff : (a : Bytes) → (is_empty a ≡ true) ↔ (a ≡ [])
unfolding is_empty
is_empty_iff [] = ground arith
is_empty_iff (x ∷ xs) = ground arith

-- No byte of the text is b.
abbrev pub Lacks : ℕ → Bytes → Type 0
Lacks b = All (λ c. c ≢ b)

pub contains-eq-false_iff : (s : Bytes) (b : ℕ) → (contains s b ≡ false) ↔ Lacks b s
unfolding contains
contains-eq-false_iff [] b = ground arith
contains-eq-false_iff (c ∷ s) b = ground (arith, contains-eq-false_iff s b)

pub has_prefix-append : (p s : Bytes) → has_prefix (p ++ s) p ≡ true
unfolding has_prefix
has_prefix-append [] [] = refl
has_prefix-append [] (c ∷ s) = refl
has_prefix-append (c ∷ p) s = ground (arith, has_prefix-append p s)

pub has_prefix_sound : (s p : Bytes) → has_prefix s p ≡ true → s ≡ p ++ drop (length p) s
unfolding has_prefix
has_prefix_sound s [] h = refl
has_prefix_sound [] (c ∷ p) h = cc
has_prefix_sound (d ∷ s) (c ∷ p) h = ground (arith, has_prefix_sound s p)

-- The text that `index` finds stands at the place that it gives.
pub index_sound :
    (s sub : Bytes) (n : ℕ)
    → index s sub ≡ some n
    → s ≡ take n s ++ (sub ++ drop (length sub) (drop n s))
unfolding index is_empty
index_sound [] [] n h = let e : n ≡ 0 = ground arith in rw e
index_sound [] (b ∷ sub) n h = cc
index_sound (c ∷ s) sub n h = elim (Bool-cases (has_prefix (c ∷ s) sub)) [
  | inl here ↦ let e : n ≡ 0 = ground arith in rw e (has_prefix_sound (c ∷ s) sub here)
  | inr later ↦
      let (m, found, e) = (Option.map-eq-some_iff _ _).0 (rw later at h) in
      rw (← e) (ap (λ t. c ∷ t) (index_sound s sub m found))
]

pub index-le-length : (s sub : Bytes) (n : ℕ) → index s sub ≡ some n → n ≤ length s
unfolding index is_empty
index-le-length [] sub n h = ground arith
index-le-length (c ∷ s) sub n h = elim (Bool-cases (has_prefix (c ∷ s) sub)) [
  | inl here ↦ ground arith
  | inr later ↦
      let (m, found, e) = (Option.map-eq-some_iff _ _).0 (rw later at h) in
      let ih = index-le-length s sub m found in omega arith
]

split-ne-nil : (s : Bytes) (sep : ℕ) → split s sep ≢ []
unfolding split
split-ne-nil [] sep = cc
split-ne-nil (c ∷ s) sep = elim (split s sep) [ [] ↦ ground arith | p ∷ ps ↦ ground arith ]

join-cons_head : (c : ℕ) (ps : List Bytes) (sep : ℕ) → join (cons_head c ps) sep ≡ c ∷ join ps sep
unfolding join
join-cons_head c [] sep = refl
join-cons_head c (p ∷ ps) sep = refl

join-cons_nil : (ps : List Bytes) (sep : ℕ) → ps ≢ [] → join ([] ∷ ps) sep ≡ sep ∷ join ps sep
unfolding join
join-cons_nil [] sep h = absurd (h refl)
join-cons_nil (p ∷ ps) sep h = refl

-- Joining the parts of a split gives the text back.
pub join-split : (s : Bytes) (sep : ℕ) → join (split s sep) sep ≡ s
unfolding split
join-split [] sep = unfold join in refl
join-split (c ∷ s) sep = elim (Bool-cases (c == sep)) [
  | inl e ↦ rw e (
      join-cons_nil (split s sep) sep (split-ne-nil s sep)
      ∙ ap (λ t. sep ∷ t) (join-split s sep)
      ∙ ap (λ t. t ∷ s) (sym ((==_iff c sep).0 e)))
  | inr e ↦ rw e (join-cons_head c (split s sep) sep ∙ ap (λ t. c ∷ t) (join-split s sep))
]

pub index-here :
    (c : ℕ) (s : Bytes) (sep : ℕ) → (c == sep) ≡ true → index (c ∷ s) (sep ∷ []) ≡ some 0
unfolding index has_prefix
index-here c s sep e = rw e

pub index-later :
    (c : ℕ) (s : Bytes) (sep : ℕ)
    → (c == sep) ≡ false
    → index (c ∷ s) (sep ∷ []) ≡ Option.map suc (index s (sep ∷ []))
unfolding index has_prefix
index-later c s sep e = rw e

pub index-append :
    (p : Bytes) (sep : ℕ) (s : Bytes)
    → Lacks sep p
    → index (p ++ sep ∷ s) (sep ∷ []) ≡ some (length p)
index-append [] sep s h = index-here sep s sep ((==_iff sep sep).1 refl)
index-append (c ∷ p) sep s (h, hs) =
    let e : (c == sep) ≡ false = ground arith in
    index-later c (p ++ sep ∷ s) sep e ∙ ap (Option.map suc) (index-append p sep s hs)

pub index-Lacks : (p : Bytes) (sep : ℕ) → Lacks sep p → index p (sep ∷ []) ≡ none
unfolding index is_empty
index-Lacks [] sep h = refl
index-Lacks (c ∷ p) sep (h, hs) =
    let e : (c == sep) ≡ false = ground arith in
    index-later c p sep e ∙ ap (Option.map suc) (index-Lacks p sep hs)
