-- ===== src/Cookies/Parts.antt =====
-- Splitting a line at its first separator, and trimming.
use vweb.Common.{
  ℕ, suc, ◌≡◌, refl, sym, ap, ◌∙◌, subst, some_inj, is_empty, true, false, inl, inr, Option, none,
  some, [], ◌∷◌, ◌++◌, arith, Bytes, ◌==◌, ==_iff, index, index-here, index-later, split, take,
  drop, cons_head, Lacks, Bool-cases,
}
use mathlib.Core.Option

map-none : (o : Option ℕ) → Option.map suc o ≡ none → o ≡ none
map-none none h = refl
map-none (some n) h = absurd (cc h)

pub split-index-none : (s : Bytes) (sep : ℕ) → index s (sep ∷ []) ≡ none → split s sep ≡ s ∷ []
unfolding split
split-index-none [] sep h = refl
split-index-none (c ∷ s) sep h = elim (Bool-cases (c == sep)) [
  | inl e ↦ absurd (cc (h, index-here c s sep e))
  | inr e ↦
      rw e
        (ap (cons_head c) (split-index-none s sep (map-none _ (sym (index-later c s sep e) ∙ h))))
]

pub split-index-some :
    (s : Bytes) (sep n : ℕ)
    → index s (sep ∷ []) ≡ some n
    → split s sep ≡ take n s ∷ split (drop (suc n) s) sep
unfolding split index is_empty
split-index-some [] sep n h = absurd (cc h)
split-index-some (c ∷ s) sep n h = elim (Bool-cases (c == sep)) [
  | inl e ↦
      let zero_eq : 0 ≡ n = some_inj (sym (index-here c s sep e) ∙ h) in
      rw e (subst (λ k. [] ∷ split s sep ≡ take k (c ∷ s) ∷ split (drop k s) sep) zero_eq refl)
  | inr e ↦
      let (k, at_k, k_eq) = (Option.map-eq-some_iff _ _).0 (sym (index-later c s sep e) ∙ h) in
      rw e (
        subst (λ j. cons_head c (split s sep) ≡ take j (c ∷ s) ∷ split (drop j s) sep) k_eq
          (ap (cons_head c) (split-index-some s sep k at_k)))
]

-- A text without the separator is one part, and what stands before one is a part.
pub split-Lacks : (p : Bytes) (sep : ℕ) → Lacks sep p → split p sep ≡ p ∷ []
unfolding split
split-Lacks [] sep h = refl
split-Lacks (c ∷ p) sep (h, hs) =
    let e : (c == sep) ≡ false = ground arith in rw e (ap (cons_head c) (split-Lacks p sep hs))

pub split-append :
    (p : Bytes) (sep : ℕ) (s : Bytes) → Lacks sep p → split (p ++ sep ∷ s) sep ≡ p ∷ split s sep
unfolding split
split-append [] sep s h = let e : (sep == sep) ≡ true = (==_iff sep sep).1 refl in rw e
split-append (c ∷ p) sep s (h, hs) =
    let e : (c == sep) ≡ false = ground arith in rw e (ap (cons_head c) (split-append p sep s hs))
