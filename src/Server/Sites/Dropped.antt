-- ===== src/Server/Sites/Dropped.antt =====
-- What updateSitePoolDel leaves of the hosts and the sites.
use vweb.Common.{
  ℕ, ◌<◌, ◌≡◌, ◌⊎◌, ◌==◌, ==_iff, refl, sym, ap, ◌∙◌, subst, Bool, true, false, inl, inr, Option,
  none, some, List, [], ◌∷◌, arith, Bytes, same, same_iff, lookup, erase, lookup-erase, All,
  if◌then◌else◌, Bool-cases, fun_ext,
}
use vweb.Domain
use vweb.Vmap.Assoc.{visits, lookup-visits}
use vweb.Server.Plugins.{str_slice_contains}
use vweb.Server.Sites.{
  SiteSettings, Sites, write, emptied, drop_hosts, drop_site, update_site_pool_del, drop_sites,
}
use vweb.Server.Sites.Touched.{IsNamed, write-identity, write_other}

module _ (se : SiteSettings) where
  lookup-drop_hosts :
      (es : List (Bytes × ℕ)) (hosts : List Bytes) (man : List (Bytes × ℕ)) (h : Bytes)
      → lookup h (drop_hosts se es hosts man) ≡ (
          if str_slice_contains hosts h
          then lookup h man
          else elim (lookup h es) [ none ↦ lookup h man | some p ↦ none ])
  unfolding drop_hosts lookup Domain.add
  lookup-drop_hosts [] hosts man h = ground arith
  lookup-drop_hosts ((k, site) ∷ es) hosts man h =
      lookup-drop_hosts es hosts (if str_slice_contains hosts k then man else erase k man) h
      ∙ step (same k h) (str_slice_contains hosts k) (str_slice_contains hosts h) (lookup h es) refl
          (λ e. ap (str_slice_contains hosts) ((same_iff k h).0 e))
    where
      erased : lookup h (erase k man) ≡ (if same k h then none else lookup h man)
      erased = lookup-erase k h man

      step :
          (e a b : Bool) (o : Option ℕ)
          → (same k h ≡ e)
          → (e ≡ true → a ≡ b)
          → (if b
              then lookup h (if a then man else erase k man)
              else elim o [ none ↦ lookup h (if a then man else erase k man) | some p ↦ none ])
            ≡ (if b
                then lookup h man
                else elim (if e then some site else o) [ none ↦ lookup h man | some p ↦ none ])
      step e true true o q l = refl
      step true false true o q l = absurd (cc (l refl))
      step false false true o q l = erased ∙ rw q
      step true true false o q l = absurd (cc (l refl))
      step false true false o q l = refl
      step true false false none q l = erased ∙ rw q
      step true false false (some p) q l = refl
      step false false false none q l = erased ∙ rw q
      step false false false (some p) q l = refl

  -- The names that are not listed leave the table.
  pub lookup-dropped :
      (man : List (Bytes × ℕ)) (hosts : List Bytes) (h : Bytes)
      → lookup h (drop_hosts se (visits ℕ man) hosts man)
        ≡ (if str_slice_contains hosts h then lookup h man else none)
  lookup-dropped man hosts h =
      lookup-drop_hosts (visits ℕ man) hosts man h
      ∙ settle (str_slice_contains hosts h) (lookup h man) (lookup h (visits ℕ man))
          (lookup-visits ℕ man h)
    where
      settle :
          (b : Bool) (o v : Option ℕ)
          → v ≡ o
          → (if b then o else elim v [ none ↦ o | some p ↦ none ]) ≡ (if b then o else none)
      settle true o v e = refl
      settle false o none e = sym e
      settle false o (some p) e = refl

  if_pool : (b : Bool) (g s : Sites se) → (if b then g else s).pool ≡ (if b then g.pool else s.pool)
  if_pool true g s = refl
  if_pool false g s = refl

  if_same : (b : Bool) (g s : Sites se) → s.man ≡ g.man → (if b then g else s).man ≡ g.man
  if_same true g s e = refl
  if_same false g s e = e

  identity_if :
      (b : Bool) (g s : Sites se) (r : ℕ)
      → (s.heap r).identity ≡ (g.heap r).identity
      → ((if b then g else s).heap r).identity ≡ (g.heap r).identity
  identity_if true g s r e = refl
  identity_if false g s r e = e

  heap_if :
      (b : Bool) (g s : Sites se) (p : ℕ)
      → (b ≡ false → s.heap p ≡ g.heap p)
      → (if b then g else s).heap p ≡ g.heap p
  heap_if true g s p e = refl
  heap_if false g s p e = e refl

  pub pool-drop_sites :
      (es : List (Bytes × ℕ)) (idents : List Bytes) (g : Sites se)
      → (drop_sites se es idents g).pool ≡ drop_hosts se es idents g.pool
  unfolding drop_sites drop_site drop_hosts Domain.add
  pool-drop_sites [] idents g = refl
  pool-drop_sites ((n, p) ∷ es) idents g =
      pool-drop_sites es idents (drop_site se n p idents g)
      ∙ ap (drop_hosts se es idents) (if_pool (str_slice_contains idents n) g _)

  pub man-drop_sites :
      (es : List (Bytes × ℕ)) (idents : List Bytes) (g : Sites se)
      → (drop_sites se es idents g).man ≡ g.man
  unfolding drop_sites drop_site
  man-drop_sites [] idents g = refl
  man-drop_sites ((n, p) ∷ es) idents g =
      man-drop_sites es idents (drop_site se n p idents g)
      ∙ if_same (str_slice_contains idents n) g _ refl

  identity-drop_site :
      (n : Bytes) (q : ℕ) (idents : List Bytes) (g : Sites se) (r : ℕ)
      → ((drop_site se n q idents g).heap r).identity ≡ (g.heap r).identity
  unfolding drop_site
  identity-drop_site n q idents g r =
      identity_if (str_slice_contains idents n) g _ r
        (write-identity se q (emptied se (g.heap q)) g.heap refl r)

  heap-drop_site :
      (n : Bytes) (q : ℕ) (idents : List Bytes) (g : Sites se) (p : ℕ)
      → (g.heap q).identity ≡ n
      → str_slice_contains idents (g.heap p).identity ≡ true
      → (drop_site se n q idents g).heap p ≡ g.heap p
  unfolding drop_site write
  heap-drop_site n q idents g p named kept =
      heap_if (str_slice_contains idents n) g _ p (λ gone.
        write_other se q p (emptied se (g.heap q)) g.heap (away gone (Bool-cases (q == p))))
    where
      away :
          str_slice_contains idents n ≡ false
          → ((q == p) ≡ true) ⊎ ((q == p) ≡ false)
          → (q == p) ≡ false
      away gone (inr ne) = ne
      away gone (inl e) =
          let id : (g.heap p).identity ≡ n =
            ap (λ r. (g.heap r).identity) (sym ((==_iff q p).0 e)) ∙ named in
          absurd (cc (gone, kept, ap (str_slice_contains idents) id))

  -- A site of another name than the dropped ones keeps its content.
  pub heap-drop_sites :
      (es : List (Bytes × ℕ)) (idents : List Bytes) (g : Sites se) (p : ℕ)
      → All (λ e. (g.heap e.1).identity ≡ e.0) es
      → str_slice_contains idents (g.heap p).identity ≡ true
      → (drop_sites se es idents g).heap p ≡ g.heap p
  unfolding drop_sites drop_site
  heap-drop_sites [] idents g p named kept = refl
  heap-drop_sites ((n, q) ∷ es) idents g p (named, rest) kept =
      let s = drop_site se n q idents g in
      let ids = fun_ext (λ r. sym (identity-drop_site n q idents g r)) in
      heap-drop_sites es idents s p (subst (λ id. All (λ e. id e.1 ≡ e.0) es) ids rest)
        (subst (λ id. str_slice_contains idents (id p) ≡ true) ids kept)
      ∙ heap-drop_site n q idents g p named kept

  identity-drop_sites :
      (es : List (Bytes × ℕ)) (idents : List Bytes) (g : Sites se) (r : ℕ)
      → ((drop_sites se es idents g).heap r).identity ≡ (g.heap r).identity
  unfolding drop_sites
  identity-drop_sites [] idents g r = refl
  identity-drop_sites ((n, q) ∷ es) idents g r =
      identity-drop_sites es idents (drop_site se n q idents g) r
      ∙ identity-drop_site n q idents g r

  if_next : (b : Bool) (g s : Sites se) → s.next ≡ g.next → (if b then g else s).next ≡ g.next
  if_next true g s e = refl
  if_next false g s e = e

  next-drop_sites :
      (es : List (Bytes × ℕ)) (idents : List Bytes) (g : Sites se)
      → (drop_sites se es idents g).next ≡ g.next
  unfolding drop_sites drop_site
  next-drop_sites [] idents g = refl
  next-drop_sites ((n, q) ∷ es) idents g =
      next-drop_sites es idents (drop_site se n q idents g)
      ∙ if_next (str_slice_contains idents n) g _ refl

  if_some : (b : Bool) (o : Option ℕ) (p : ℕ) → (if b then o else none) ≡ some p → o ≡ some p
  if_some true o p e = e
  if_some false o p e = absurd (cc e)

  pub IsNamed-update_site_pool_del :
      (idents hosts : List Bytes) (g : Sites se)
      → IsNamed se g
      → IsNamed se (update_site_pool_del se idents hosts g)
  unfolding update_site_pool_del
  IsNamed-update_site_pool_del idents hosts g named i p e =
      let es = visits ℕ g.pool in
      let s = record g { man = drop_hosts se (visits ℕ g.man) hosts g.man } in
      let there =
        sym (ap (lookup i) (pool-drop_sites es idents s) ∙ lookup-dropped g.pool idents i) ∙ e in
      let (id, below) = named i p (if_some (str_slice_contains idents i) _ p there) in
      (
        identity-drop_sites es idents s p ∙ id,
        subst (λ n. p < n) (sym (next-drop_sites es idents s)) below,
      )
