-- ===== src/Vmap/Assoc.antt =====
-- Association lists are such a map: Range visits each key with its value, once.
use vweb.Common.{
  ◌≡◌, refl, some, List, [], ◌∷◌, arith, Bytes, same, same_iff, same_refl, lookup, insert, erase,
  lookup-insert, lookup-erase, All, Bool-cases, inl, inr,
}
use vweb.Vmap.{VMap, IsMap}

module _ (V : Type 0) where
  -- Each key with its value, once.
  unfoldable pub visits : List (Bytes × V) → List (Bytes × V)
  unfolding erase
  visits [] = []
  visits ((k, v) ∷ m) = (k, v) ∷ erase k (visits m)

  abbrev pub IsOf : List (Bytes × V) → Bytes × V → Type 0
  IsOf m (k, v) = lookup k m ≡ some v

  All-erase :
      (k : Bytes) (v : V) (m es : List (Bytes × V))
      → All (IsOf m) es
      → All (IsOf ((k, v) ∷ m)) (erase k es)
  unfolding erase lookup
  All-erase k v m [] h = tt
  All-erase k v m ((j, w) ∷ es) (h, hs) = elim (Bool-cases (same j k)) [
    | inl e ↦ rw e (All-erase k v m es hs)
    | inr e ↦ rw e (ground (arith, same_iff j k, same_iff k j), All-erase k v m es hs)
  ]

  pub All-visits : (m : List (Bytes × V)) → All (IsOf m) (visits m)
  unfolding visits lookup same
  All-visits [] = tt
  All-visits ((k, v) ∷ m) = (rw (same_refl k), All-erase k v m (visits m) (All-visits m))

  pub lookup-visits : (m : List (Bytes × V)) (k : Bytes) → lookup k (visits m) ≡ lookup k m
  unfolding visits lookup
  lookup-visits [] k = refl
  lookup-visits ((j, v) ∷ m) k = elim (Bool-cases (same j k)) [
    | inl e ↦ rw e
    | inr e ↦ rw e (rw (lookup-erase j k (visits m), e) (lookup-visits m k))
  ]

  abbrev pub assoc : VMap V
  assoc = record {
    Map = List (Bytes × V);
    empty = [];
    get_has = λ m k. lookup k m;
    set = λ m k v. insert k v m;
    del = λ m k. erase k m;
    entries = visits;
  }

  pub assoc-IsMap : IsMap assoc
  unfolding lookup
  assoc-IsMap = record {
    get_has-empty = λ j. refl;
    get_has-set = λ m k j v. lookup-insert k j v m;
    get_has-del = λ m k j. lookup-erase k j m;
    entries-sound = All-visits;
    entries-lookup = lookup-visits;
  }
