-- ===== src/Domain.antt =====
-- func.go, `derogatoryDomain` and `equalDomain`, and Site.go, `SiteMan`: the site of a host, by its
-- exact name or by a name whose first labels are wildcards.
pub mod Wildcards
pub mod Nearest
pub mod Equal
mod Tests
use vweb.Common.{
  ℕ, Bool, true, false, Option, none, some, List, [], ◌∷◌, ◌++◌, Bytes, codes, same, split, join,
  index, take, drop, lookup, insert, erase, if◌then◌else◌,
}

-- `host[:pos]` and `host[pos:]` at the first colon; the second is empty where there is none.
unfoldable pub split_port : Bytes → Bytes × Bytes
split_port host = elim (index host (codes ":")) [
  | none ↦ (host, [])
  | some pos ↦ (take pos host, drop pos host)
]

-- The loop over the labels. `starred` are the labels before the current one, which are "*" by then.
-- The result is the first candidate that f accepts, if there is one.
unfoldable pub visit : (Bytes → Bool) → Bytes → List Bytes → List Bytes → Option Bytes
visit f port starred [] = none
visit f port starred (label ∷ labels) =
    let candidate = join (starred ++ codes "*" ∷ labels) b'.' ++ port in
    let rest = visit f port (starred ++ codes "*" ∷ []) labels in
    if f candidate then some candidate else rest

-- `none` where f accepts neither the host nor a candidate.
unfoldable pub derogatory_domain : Bytes → (Bytes → Bool) → Option Bytes
unfolding split_port visit
derogatory_domain host f =
    let (name, port) = split_port host in
    if f host then some host else visit f port [] (split name b'.')

unfoldable pub equal_domain : Bytes → Bytes → Bool
unfolding derogatory_domain
equal_domain host domain = elim (derogatory_domain host (λ d. same d domain)) [
  | none ↦ false
  | some d ↦ true
]

-- SiteMan: the map from host to site. S is the type of *Site.
module _ {S : Type 0} where
  -- Add; `none` is a nil site.
  unfoldable pub add : List (Bytes × S) → Bytes → Option S → List (Bytes × S)
  add sites host none = erase host sites
  add sites host (some site) = insert host site sites

  abbrev pub has : List (Bytes × S) → Bytes → Bool
  has sites host = elim (lookup host sites) [ none ↦ false | some site ↦ true ]

  -- SiteMan.derogatoryDomain
  unfoldable pub get_derogatory : List (Bytes × S) → Bytes → Option S
  unfolding derogatory_domain
  get_derogatory sites host = elim (derogatory_domain host (has sites)) [
    | none ↦ none
    | some domain ↦ lookup domain sites
  ]

  unfoldable pub get : List (Bytes × S) → Bytes → Option S
  unfolding get_derogatory
  get sites host = elim (lookup host sites) [
    | none ↦ get_derogatory sites host
    | some site ↦ some site
  ]
