-- ===== src/Route/Serve/Literals.antt =====
-- Routes without a pattern: they answer for their own path, before every pattern, and nowhere else.
use vweb.Common.{
  ◌≡◌, ◌≢◌, refl, sym, ap, ◌∙◌, Bool, true, false, none, some, List, [], ◌∷◌, arith, Bytes, same,
  same_iff, lookup, All, if◌then◌else◌, Bool-cases, Option-cases, inl, inr, subst, some_inj, ◌⊎◌,
}
use vweb.Regexps.{Regexps}
use vweb.Route.Table.{RoutePathPlaceholder, RouteState}
use vweb.Route.Table.Entries.{is_literal}
use vweb.Route.Table.Consistent.{find_url, find_url-absent, IsConsistent, IsDistinct}
use vweb.Route.Serve.{Found, continue, runs, try_kinds, try_entry, try_list, find_pattern, find}

module _ (lib : Regexps) {H : Type 0} where
  -- The entries that are patterns, in their order.
  pub patterns : List (RoutePathPlaceholder lib.Regex H) → List (RoutePathPlaceholder lib.Regex H)
  patterns [] = []
  patterns (e ∷ list) = if is_literal e then patterns list else e ∷ patterns list

  -- A literal entry of another URL is passed over.
  pub try_entry-literal :
      (e : RoutePathPlaceholder lib.Regex H) (path : Bytes) (segments : List Bytes) (is_dir : Bool)
      → is_literal e ≡ true
      → same e.url path ≡ false
      → try_entry lib e path segments is_dir ≡ continue
  unfolding try_entry try_kinds
  try_entry-literal e path segments is_dir l other = ground arith

  pub try_list-next :
      (e : RoutePathPlaceholder lib.Regex H) (list : List (RoutePathPlaceholder lib.Regex H))
      (path : Bytes) (segments : List Bytes) (is_dir : Bool)
      → try_entry lib e path segments is_dir ≡ continue
      → try_list lib (e ∷ list) path segments is_dir ≡ try_list lib list path segments is_dir
  unfolding try_list
  try_list-next e list path segments is_dir h = rw (h, try_list)

  pub try_list-cong :
      (e : RoutePathPlaceholder lib.Regex H) (list list' : List (RoutePathPlaceholder lib.Regex H))
      (path : Bytes) (segments : List Bytes) (is_dir : Bool)
      → try_list lib list path segments is_dir ≡ try_list lib list' path segments is_dir
      → try_list lib (e ∷ list) path segments is_dir ≡ try_list lib (e ∷ list') path segments is_dir
  unfolding try_list
  try_list-cong e list list' path segments is_dir h =
      ap
        (λ (rest : Found H). elim (try_entry lib e path segments is_dir) [
          | runs handle params ↦ runs handle params
          | continue ↦ rest
        ])
        h

  -- No literal entry is the first of the path.
  abbrev NoLiteral : Bytes → List (RoutePathPlaceholder lib.Regex H) → Type 0
  NoLiteral path list =
      (e : RoutePathPlaceholder lib.Regex H) → find_url path list ≡ some e → is_literal e ≡ false

  NoLiteral-tail :
      (e : RoutePathPlaceholder lib.Regex H) (list : List (RoutePathPlaceholder lib.Regex H))
      (path : Bytes)
      → IsDistinct (e ∷ list)
      → NoLiteral path (e ∷ list)
      → NoLiteral path list
  unfolding find_url
  NoLiteral-tail e list path (apart, d) h q found = elim (Bool-cases (same e.url path)) [
    | inr other ↦ h q (rw (other, find_url) found)
    | inl here ↦
        let same_url = (same_iff e.url path).0 here in
        let gone =
          find_url-absent path list (subst (λ u. All (λ p. p.url ≢ u) list) same_url apart) in
        absurd (cc (gone, found))
  ]

  try_list-patterns :
      (list : List (RoutePathPlaceholder lib.Regex H)) (path : Bytes) (segments : List Bytes)
      (is_dir : Bool)
      → IsDistinct list
      → NoLiteral path list
      → try_list lib list path segments is_dir ≡ try_list lib (patterns list) path segments is_dir
  unfolding patterns find_url
  try_list-patterns [] path segments is_dir d h = refl
  try_list-patterns (e ∷ list) path segments is_dir d h =
      let ih = try_list-patterns list path segments is_dir d.1 (NoLiteral-tail e list path d h) in
      elim (Bool-cases (is_literal e)) [
        | inr pattern_entry ↦
            rw (pattern_entry, patterns)
              (try_list-cong e list (patterns list) path segments is_dir ih)
        | inl l ↦ elim (Bool-cases (same e.url path)) [
          | inl here ↦ absurd (cc (l, h e (rw (here, find_url) refl)))
          | inr other ↦
              rw (l, patterns)
                (try_list-next e list path segments is_dir
                    (try_entry-literal e path segments is_dir l other)
                  ∙ ih)
        ]
      ]

module _ (lib : Regexps) {H E S : Type 0} (route : RouteState lib.Regex H E S) where
  -- The first entry that the map holds for a path decides; then the patterns do.
  pub find_hit :
      (path : Bytes) (e : RoutePathPlaceholder lib.Regex H)
      → lookup path route.rt ≡ some e
      → is_literal e ≡ true
      → find lib route path ≡ runs e.handle none
  unfolding find
  find_hit path e held l = rw (held, find) (rw l)

  pub find_other :
      (path : Bytes)
      → ((e : RoutePathPlaceholder lib.Regex H)
          → lookup path route.rt ≡ some e
          → is_literal e ≡ false)
      → find lib route path ≡ find_pattern lib route.list path
  unfolding find
  find_other path h = elim (Option-cases (lookup path route.rt)) [
    | inl missing ↦ rw (missing, find)
    | inr (e, held) ↦ let l = h e held in rw (held, find) (rw l)
  ]

  pub is_hit :
      (path : Bytes)
      → ((e : RoutePathPlaceholder lib.Regex H) × (lookup path route.rt ≡ some e)
          × (is_literal e ≡ true))
        ⊎ ((e : RoutePathPlaceholder lib.Regex H)
            → lookup path route.rt ≡ some e
            → is_literal e ≡ false)
  is_hit path = elim (Option-cases (lookup path route.rt)) [
    | inl missing ↦ inr (λ e held. absurd (cc (missing, held)))
    | inr (e, held) ↦ elim (Bool-cases (is_literal e)) [
      | inl l ↦ inl (e, held, l)
      | inr other ↦ inr (λ q found. ap is_literal (some_inj (sym found ∙ held)) ∙ other)
    ]
  ]

-- In a consistent table the literal entries of the list never answer: dropping them from the list
-- changes the answer to no path.
pub find-patterns :
    (lib : Regexps) {H E S : Type 0} (route : RouteState lib.Regex H E S) (path : Bytes)
    → IsConsistent lib route
    → find lib route path ≡ find lib (record route { list = patterns lib route.list }) path
unfolding find_pattern
find-patterns lib route path v =
    let lean = record route { list = patterns lib route.list } in
    elim (is_hit lib route path) [
      | inl (e, held, l) ↦ find_hit lib route path e held l ∙ sym (find_hit lib lean path e held l)
      | inr miss ↦
          find_other lib route path miss
          ∙ try_list-patterns lib route.list path _ _ v.distinct
              (λ e found. miss e (v.agree path ∙ found))
          ∙ sym (find_other lib lean path miss)
    ]
