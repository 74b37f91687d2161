-- ===== src/Route/Serve/Removal.antt =====
-- After a removal no entry of the URL answers.
use vweb.Common.{
  ◌≡◌, ◌≢◌, refl, sym, ap, ◌∙◌, Bool, Option, none, some, List, [], ◌∷◌, arith, Bytes, same,
  same_iff, same_refl, All, Bool-cases, some_inj, inl, inr, subst,
}
use vweb.Regexps.{Regexps}
use vweb.Route.Extract.{Params}
use vweb.Route.Table.{RoutePathPlaceholder, RouteState, remove_handle}
use vweb.Route.Table.Consistent.{
  find_url, find_url-absent, find_url-remove_first, IsConsistent, IsDistinct,
  remove_handle-IsConsistent,
}
use vweb.Route.Serve.{Found, continue, runs, try_kinds, try_entry, try_list, find_pattern, find}
use vweb.Route.Serve.Literals.{find_hit, find_other, is_hit}

module _ (lib : Regexps) {H : Type 0} where
  -- An entry that runs a handler runs its own.
  try_entry-handle :
      (e : RoutePathPlaceholder lib.Regex H) (path : Bytes) (segments : List Bytes) (is_dir : Bool)
      {handle : H} {params : Option Params}
      → try_entry lib e path segments is_dir ≡ runs handle params
      → e.handle ≡ handle
  unfolding try_entry try_kinds
  try_entry-handle e path segments is_dir h = ground arith

  -- The handler that the loop runs is that of an entry, the first one of its URL.
  try_list-origin :
      (list : List (RoutePathPlaceholder lib.Regex H)) (path : Bytes) (segments : List Bytes)
      (is_dir : Bool) {handle : H} {params : Option Params}
      → IsDistinct list
      → try_list lib list path segments is_dir ≡ runs handle params
      → (e : RoutePathPlaceholder lib.Regex H) × (find_url e.url list ≡ some e)
        × (e.handle ≡ handle)
  unfolding try_list find_url
  try_list-origin [] path segments is_dir d h = absurd (cc)
  try_list-origin (e ∷ list) path segments is_dir {handle} {params} (apart, d) h =
      by_try (try_entry lib e path segments is_dir) refl
        (try_list-origin list path segments is_dir d)
    where
      by_try :
          (r : Found H)
          → try_entry lib e path segments is_dir ≡ r
          → (try_list lib list path segments is_dir ≡ runs handle params
              → (q : RoutePathPlaceholder lib.Regex H) × (find_url q.url list ≡ some q)
                × (q.handle ≡ handle))
          → (q : RoutePathPlaceholder lib.Regex H) × (find_url q.url (e ∷ list) ≡ some q)
            × (q.handle ≡ handle)
      by_try (runs k ps) tried later =
          let same_run : runs k ps ≡ runs handle params = rw (tried, try_list) at h in
          (
            e,
            rw (same_refl e.url, find_url) refl,
            try_entry-handle e path segments is_dir (tried ∙ same_run),
          )
      by_try continue tried later =
          let (q, found, eq) = later (rw (tried, try_list) at h) in
          elim (Bool-cases (same e.url q.url)) [
            | inr other ↦ (q, rw (other, find_url) found, eq)
            | inl here ↦
                let gone =
                  find_url-absent q.url list (
                    subst (λ u. All (λ p. p.url ≢ u) list) ((same_iff e.url q.url).0 here) apart) in
                absurd (cc (gone, found))
          ]

module _ (lib : Regexps) {H : Type 0} where
  find_url_url :
      (u : Bytes) (list : List (RoutePathPlaceholder lib.Regex H))
      (e : RoutePathPlaceholder lib.Regex H)
      → find_url u list ≡ some e
      → e.url ≡ u
  unfolding find_url
  find_url_url u [] e h = absurd (cc)
  find_url_url u (p ∷ list) e h = elim (Bool-cases (same p.url u)) [
    | inl here ↦
        ap (λ q. q.url) (sym (some_inj (rw (here, find_url) at h))) ∙ (same_iff p.url u).0 here
    | inr other ↦ find_url_url u list e (rw (other, find_url) at h)
  ]

module _ (lib : Regexps) {H E S : Type 0} where
  -- The handler of a path is that of an entry of the table.
  find-origin :
      (route : RouteState lib.Regex H E S) (path : Bytes) {handle : H} {params : Option Params}
      → IsConsistent lib route
      → find lib route path ≡ runs handle params
      → (e : RoutePathPlaceholder lib.Regex H) × (find_url e.url route.list ≡ some e)
        × (e.handle ≡ handle)
  unfolding find_pattern
  find-origin route path {handle} {params} v h = elim (is_hit lib route path) [
    | inr miss ↦
        try_list-origin lib route.list path _ _ v.distinct
          (sym (find_other lib route path miss) ∙ h)
    | inl (e, held, l) ↦
        let found = sym (v.agree path) ∙ held in
        let same_run : runs e.handle none ≡ runs handle params =
          sym (find_hit lib route path e held l) ∙ h in
        (
          e,
          ap (λ u. find_url u route.list) (find_url_url lib path route.list e found) ∙ found,
          handle_of same_run,
        )
  ]
    where
      handle_of : {k k' : H} {ps ps' : Option Params} → runs k ps ≡ runs k' ps' → k ≡ k'
      handle_of e = cc

-- After a removal from a consistent table, whichever handler answers a path is that of an entry of
-- another URL that was in the table before.
pub find-remove_handle :
    (lib : Regexps) {H E S : Type 0} (route : RouteState lib.Regex H E S) (url path : Bytes)
    {handle : H} {params : Option Params}
    → IsConsistent lib route
    → find lib (remove_handle lib route url) path ≡ runs handle params
    → (e : RoutePathPlaceholder lib.Regex H) × (find_url e.url route.list ≡ some e)
      × (e.url ≢ url)
      × (e.handle ≡ handle)
unfolding remove_handle
find-remove_handle lib route url path v h =
    let (e, found, eq) =
      find-origin lib (remove_handle lib route url) path
        (remove_handle-IsConsistent lib route url v) h in
    let kept = sym (find_url-remove_first url e.url route.list v.distinct) ∙ found in
    elim (Bool-cases (same url e.url)) [
      | inl gone ↦ absurd (cc (rw gone at kept))
      | inr other ↦ (e, rw other at kept, (λ s. cc (other, (same_iff url e.url).1 (sym s))), eq)
    ]
