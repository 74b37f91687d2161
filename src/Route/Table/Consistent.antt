-- ===== src/Route/Table/Consistent.antt =====
-- The two halves of the table of routes agree, and every entry is as its URL makes it.
use vweb.Common.{
  ◌≡◌, ◌≢◌, refl, sym, ap, ◌∙◌, Option, none, some, List, [], ◌∷◌, arith, Bytes, same, same_iff,
  lookup, lookup-insert, lookup-erase, insert, All, if◌then◌else◌, Bool-cases, inl, inr, Checked,
  returns, panics, subst, subst_returns,
}
use vweb.Regexps.{Regexps}
use vweb.Route.Table.{
  RoutePathPlaceholder, RouteState, new_entry, remove_first, put_entry, remove_handle, add_handle,
}
use vweb.Route.Table.Entries.{IsOf, new_entry-IsOf}

module _ {X H : Type 0} where
  -- The first entry of a URL.
  unfoldable pub find_url :
      Bytes → List (RoutePathPlaceholder X H) → Option (RoutePathPlaceholder X H)
  find_url url [] = none
  find_url url (e ∷ list) = if same e.url url then some e else find_url url list

  abbrev pub HasUrl : Bytes → RoutePathPlaceholder X H → Type 0
  HasUrl url e = e.url ≡ url

  -- No two entries have one URL.
  abbrev pub IsDistinct : List (RoutePathPlaceholder X H) → Type 0
  IsDistinct [] = Unit
  IsDistinct (e ∷ list) = All (λ q. q.url ≢ e.url) list × IsDistinct list

  pub find_url-put_entry :
      (url : Bytes) (e : RoutePathPlaceholder X H) (list : List (RoutePathPlaceholder X H))
      → find_url url (put_entry e list) ≡ (if same e.url url then some e else find_url url list)
  unfolding find_url put_entry
  find_url-put_entry url e [] = refl
  find_url-put_entry url e (p ∷ list) = ground (
    arith,
    same_iff p.url e.url,
    same_iff e.url url,
    same_iff p.url url,
    find_url-put_entry url e list,
  )

  pub find_url-absent :
      (url : Bytes) (list : List (RoutePathPlaceholder X H))
      → All (λ q. q.url ≢ url) list
      → find_url url list ≡ none
  unfolding find_url
  find_url-absent url [] h = refl
  find_url-absent url (p ∷ list) (h, hs) =
      ground (arith, same_iff p.url url, find_url-absent url list hs)

  pub find_url-remove_first :
      (url other : Bytes) (list : List (RoutePathPlaceholder X H))
      → IsDistinct list
      → find_url other (remove_first url list)
        ≡ (if same url other then none else find_url other list)
  unfolding find_url remove_first
  find_url-remove_first url other [] d = ground arith
  find_url-remove_first url other (p ∷ list) (h, d) = elim (Bool-cases (same p.url url)) [
    | inl here ↦
        let e : p.url ≡ url = (same_iff p.url url).0 here in
        let gone : find_url p.url list ≡ none = find_url-absent p.url list h in
        ground (arith, same_iff p.url other, same_iff url other, same_iff p.url url, gone, e)
    | inr later ↦ ground (
      arith,
      same_iff p.url url,
      same_iff url other,
      same_iff p.url other,
      find_url-remove_first url other list d,
    )
  ]

  module _ {ℓ} (P : RoutePathPlaceholder X H → Type ℓ) where
    All-put_entry :
        (e : RoutePathPlaceholder X H) (list : List (RoutePathPlaceholder X H))
        → P e
        → All P list
        → All P (put_entry e list)
    unfolding put_entry
    All-put_entry e [] q h = (q, tt)
    All-put_entry e (p ∷ list) q (k, h) = elim (Bool-cases (same p.url e.url)) [
      | inl here ↦ rw here (q, h)
      | inr later ↦ rw later (k, All-put_entry e list q h)
    ]

    All-remove_first :
        (url : Bytes) (list : List (RoutePathPlaceholder X H))
        → All P list
        → All P (remove_first url list)
    unfolding remove_first
    All-remove_first url [] h = tt
    All-remove_first url (p ∷ list) (k, h) = elim (Bool-cases (same p.url url)) [
      | inl here ↦ rw here h
      | inr later ↦ rw later (k, All-remove_first url list h)
    ]

  IsDistinct-put_entry :
      (e : RoutePathPlaceholder X H) (list : List (RoutePathPlaceholder X H))
      → IsDistinct list
      → IsDistinct (put_entry e list)
  unfolding put_entry
  IsDistinct-put_entry e [] d = (tt, tt)
  IsDistinct-put_entry e (p ∷ list) (h, d) = elim (Bool-cases (same p.url e.url)) [
    | inl here ↦
        let eq = (same_iff p.url e.url).0 here in
        rw here (subst (λ u. All (λ q. q.url ≢ u) list) eq h, d)
    | inr later ↦
        let other : e.url ≢ p.url = λ eq. cc (later, (same_iff p.url e.url).1 (sym eq)) in
        rw later (All-put_entry (λ q. q.url ≢ p.url) e list other h, IsDistinct-put_entry e list d)
  ]

  IsDistinct-remove_first :
      (url : Bytes) (list : List (RoutePathPlaceholder X H))
      → IsDistinct list
      → IsDistinct (remove_first url list)
  unfolding remove_first
  IsDistinct-remove_first url [] d = tt
  IsDistinct-remove_first url (p ∷ list) (h, d) = elim (Bool-cases (same p.url url)) [
    | inl here ↦ rw here d
    | inr later ↦
        rw later
          (All-remove_first (λ q. q.url ≢ p.url) url list h, IsDistinct-remove_first url list d)
  ]

-- The invariant of a table of routes.
pub record IsConsistent (lib : Regexps) {H E S : Type 0} (route : RouteState lib.Regex H E S)
    : Type 0 where
  -- No URL stands twice in the list.
  pub distinct : IsDistinct route.list
  -- The map holds for each URL what the list holds for it.
  pub agree : (url : Bytes) → lookup url route.rt ≡ find_url url route.list
  -- Every entry is what `addHandle` makes of its URL.
  pub made : All (λ e. IsOf lib e.url e.handle e) route.list

module _ (lib : Regexps) {H E S : Type 0} (route : RouteState lib.Regex H E S) where
  added :
      (url : Bytes) (handle : H) (e : RoutePathPlaceholder lib.Regex H)
      → IsConsistent lib route
      → IsOf lib url handle e
      → IsConsistent lib
          (record route { rt = insert url e route.rt; list = put_entry e route.list })
  added url handle e v o = record {
    distinct = IsDistinct-put_entry e route.list v.distinct;
    agree = λ key.
        lookup-insert url key e route.rt
        ∙ ap (λ t. if same url key then some e else t) (v.agree key)
        ∙ ap (λ u. if same u key then some e else find_url key route.list) (sym o.url_same)
        ∙ sym (find_url-put_entry key e route.list);
    made =
        All-put_entry (λ q. IsOf lib q.url q.handle q) e route.list
          (subst (λ u. IsOf lib u e.handle e) (sym o.url_same)
            (subst (λ k. IsOf lib url k e) (sym o.handle_same) o))
          v.made;
  }

  -- Registering a handler keeps the invariant, if it does not panic.
  pub add_handle-IsConsistent :
      (url : Bytes) (handle : H) (route' : RouteState lib.Regex H E S)
      → IsConsistent lib route
      → add_handle lib route url handle ≡ returns route'
      → IsConsistent lib route'
  unfolding add_handle
  add_handle-IsConsistent url handle route' v h = by_entry (new_entry lib url handle) refl
    where
      by_entry :
          (r : Checked (RoutePathPlaceholder lib.Regex H))
          → new_entry lib url handle ≡ r
          → IsConsistent lib route'
      by_entry (panics msg) e = absurd (cc (rw (e, add_handle) at h))
      by_entry (returns entry) e =
          subst_returns (IsConsistent lib) (rw (e, add_handle) at h)
            (added url handle entry v (new_entry-IsOf lib url handle entry e))

  -- So does removing one, for any URL.
  pub remove_handle-IsConsistent :
      (url : Bytes) → IsConsistent lib route → IsConsistent lib (remove_handle lib route url)
  unfolding remove_handle
  remove_handle-IsConsistent url v = record {
    distinct = IsDistinct-remove_first url route.list v.distinct;
    agree = λ key.
        lookup-erase url key route.rt
        ∙ ap (λ t. if same url key then none else t) (v.agree key)
        ∙ sym (find_url-remove_first url key route.list v.distinct);
    made = All-remove_first (λ q. IsOf lib q.url q.handle q) url route.list v.made;
  }
