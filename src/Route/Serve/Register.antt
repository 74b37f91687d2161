-- ===== src/Route/Serve/Register.antt =====
-- Registering a route without a pattern.
use vweb.Common.{
  ◌≡◌, refl, sym, ap, ◌∙◌, Bool, true, false, none, List, [], ◌∷◌, Bytes, same, same_iff, lookup,
  lookup-insert, insert, All, if◌then◌else◌, Bool-cases, inl, inr, Checked, returns, panics,
  subst_returns,
}
use vweb.Regexps.{Regexps}
use vweb.Route.Table.{RoutePathPlaceholder, RouteState, new_entry, put_entry, add_handle}
use vweb.Route.Table.Entries.{IsOf, new_entry-IsOf, is_literal, is_literal_url}
use vweb.Route.Table.Consistent.{IsConsistent}
use vweb.Route.Serve.{runs, try_list, find_pattern, find}
use vweb.Route.Serve.Literals.{
  try_entry-literal, try_list-next, try_list-cong, find_hit, find_other, is_hit,
}

module _ (lib : Regexps) {H : Type 0} where
  -- A put of a literal entry does not change what the loop finds for other paths.
  try_list-put_entry :
      (e : RoutePathPlaceholder lib.Regex H) (list : List (RoutePathPlaceholder lib.Regex H))
      (path : Bytes) (segments : List Bytes) (is_dir : Bool)
      → is_literal e ≡ true
      → same e.url path ≡ false
      → All (λ p. p.url ≡ e.url → is_literal p ≡ true) list
      → try_list lib (put_entry e list) path segments is_dir
        ≡ try_list lib list path segments is_dir
  unfolding put_entry
  try_list-put_entry e [] path segments is_dir l other h =
      try_list-next lib e [] path segments is_dir
        (try_entry-literal lib e path segments is_dir l other)
  try_list-put_entry e (p ∷ list) path segments is_dir l other (k, h) =
      elim (Bool-cases (same p.url e.url)) [
        | inr later ↦
            rw (later, put_entry)
              (try_list-cong lib p (put_entry e list) list path segments is_dir
                (try_list-put_entry e list path segments is_dir l other h))
        | inl here ↦
            let same_url = (same_iff p.url e.url).0 here in
            rw (here, put_entry)
              (try_list-next lib e list path segments is_dir
                  (try_entry-literal lib e path segments is_dir l other)
                ∙ sym (
                    try_list-next lib p list path segments is_dir (
                      try_entry-literal lib p path segments is_dir (k same_url)
                        (ap (λ u. same u path) same_url ∙ other))))
      ]

  same_kind :
      (e : RoutePathPlaceholder lib.Regex H) (list : List (RoutePathPlaceholder lib.Regex H))
      → is_literal_url e.url ≡ true
      → All (λ p. IsOf lib p.url p.handle p) list
      → All (λ p. p.url ≡ e.url → is_literal p ≡ true) list
  same_kind e [] l h = tt
  same_kind e (p ∷ list) l (k, h) = (λ eq. k.kind ∙ ap is_literal_url eq ∙ l, same_kind e list l h)

module _ (lib : Regexps) {H E S : Type 0} (route : RouteState lib.Regex H E S) where
  put : RoutePathPlaceholder lib.Regex H → Bytes → RouteState lib.Regex H E S
  put e url = record route { rt = insert url e route.rt; list = put_entry e route.list }

  find-put_self :
      (url path : Bytes) (handle : H) (e : RoutePathPlaceholder lib.Regex H)
      → IsOf lib url handle e
      → is_literal_url url ≡ true
      → same url path ≡ true
      → find lib (put e url) path ≡ runs handle none
  unfolding put
  find-put_self url path handle e o l here =
      find_hit lib (put e url) path e (lookup-insert url path e route.rt ∙ rw here) (o.kind ∙ l)
      ∙ ap (λ k. runs k none) o.handle_same

  find-put_other :
      (url path : Bytes) (handle : H) (e : RoutePathPlaceholder lib.Regex H)
      → IsConsistent lib route
      → IsOf lib url handle e
      → is_literal_url url ≡ true
      → same url path ≡ false
      → find lib (put e url) path ≡ find lib route path
  unfolding put find_pattern
  find-put_other url path handle e v o l other =
      let held : lookup path (put e url).rt ≡ lookup path route.rt =
        lookup-insert url path e route.rt ∙ rw other in
      elim (is_hit lib route path) [
        | inl (q, found, lit) ↦
            find_hit lib (put e url) path q (held ∙ found) lit
            ∙ sym (find_hit lib route path q found lit)
        | inr miss ↦
            find_other lib (put e url) path (λ q found. miss q (sym held ∙ found))
            ∙ try_list-put_entry lib e route.list path _ _ (o.kind ∙ l)
                (ap (λ u. same u path) o.url_same ∙ other)
                (same_kind lib e route.list (ap is_literal_url o.url_same ∙ l) v.made)
            ∙ sym (find_other lib route path miss)
      ]

  find-put :
      (url path : Bytes) (handle : H) (e : RoutePathPlaceholder lib.Regex H)
      → IsConsistent lib route
      → IsOf lib url handle e
      → is_literal_url url ≡ true
      → find lib (put e url) path
        ≡ (if same url path then runs handle none else find lib route path)
  find-put url path handle e v o l = elim (Bool-cases (same url path)) [
    | inl here ↦ rw here (find-put_self url path handle e o l here)
    | inr other ↦ rw other (find-put_other url path handle e v o l other)
  ]

-- Registering a handler for a URL without a pattern, in a consistent table: the handler answers for
-- that path, with no parameters and before every pattern, and the answer to every other path is what
-- it was.
pub find-add_handle :
    (lib : Regexps) {H E S : Type 0} (route route' : RouteState lib.Regex H E S) (url : Bytes)
    (handle : H) (path : Bytes)
    → IsConsistent lib route
    → is_literal_url url ≡ true
    → add_handle lib route url handle ≡ returns route'
    → find lib route' path ≡ (if same url path then runs handle none else find lib route path)
unfolding add_handle put
find-add_handle lib {H} {E} {S} route route' url handle path v l h =
    by_entry (new_entry lib url handle) refl
  where
    by_entry :
        (r : Checked (RoutePathPlaceholder lib.Regex H))
        → new_entry lib url handle ≡ r
        → find lib route' path ≡ (if same url path then runs handle none else find lib route path)
    by_entry (panics msg) e = absurd (cc (rw (e, add_handle) at h))
    by_entry (returns entry) e =
        subst_returns
          (λ r. find lib r path ≡ (if same url path then runs handle none else find lib route path))
          (rw (e, add_handle) at h)
          (find-put lib route url path handle entry v (new_entry-IsOf lib url handle entry e) l)
