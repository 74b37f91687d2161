-- ===== src/Server/Sites/Serves.antt =====
-- After an update the hosts and the sites are those of the configuration.
use vweb.Common.{
  ℕ, ◌≡◌, refl, sym, ap, ◌∙◌, subst, Bool, true, false, inl, inr, Option, none, some, List, [], ◌∷◌,
  Bytes, lookup, some_inj, All, if◌then◌else◌, Option-cases,
}
use vweb.Vmap.Assoc.{visits, All-visits, IsOf}
use vweb.Server.Plugins.{str_slice_contains}
use vweb.Server.Sites.{
  SiteSettings, Site, Sites, Round, SiteData, merged, update_all, update_site_pool_del,
  update_config_sites,
}
use vweb.Server.Sites.Touched.{IsNamed}
use vweb.Server.Sites.Effective.{is_some, latest, owner, IsIdentified, Shows}
use vweb.Server.Sites.Gathered.{Gathered, Gathered-update_all}
use vweb.Server.Sites.Dropped.{lookup-dropped, pool-drop_sites, man-drop_sites, heap-drop_sites}

module _ (se : SiteSettings) where
  -- What an update makes of the site of an identity, by the last setting that is on, if there is one,
  -- and by the number that the pool had before: a setting is followed, by the same site if there is one.
  abbrev pub SiteOf : Option (Site se) → (old new : Option ℕ) → (ℕ → SiteData se) → Type 0
  SiteOf none old new heap = new ≡ none
  SiteOf (some c) none new heap = (p : ℕ) × ((new ≡ some p) × Shows se (merged se c) (heap p))
  SiteOf (some c) (some p) new heap = (new ≡ some p) × Shows se (merged se c) (heap p)

  -- A host has the site of the last setting that is on and lists it.
  pub record Serves (confs : List (Site se)) (g s : Sites se) : Type 0 where
    pub host :
        (h : Bytes)
        → lookup h s.man ≡ elim (owner se confs h) [ none ↦ none | some i ↦ lookup i s.pool ]
    pub site : (i : Bytes) → SiteOf (latest se confs i) (lookup i g.pool) (lookup i s.pool) s.heap

  module _ (confs : List (Site se)) (g : Sites se) (r : Round se)
      (all : Gathered se confs [] [] g r) where
    after : Sites se
    after = update_site_pool_del se r.idents r.hosts r.sites

    pool-after :
        (i : Bytes)
        → lookup i after.pool
          ≡ (if is_some (latest se confs i) then lookup i r.sites.pool else none)
    unfolding after update_site_pool_del str_slice_contains
    pool-after i =
        ap (lookup i) (pool-drop_sites se (visits ℕ r.sites.pool) r.idents _)
        ∙ lookup-dropped se r.sites.pool r.idents i
        ∙ ap (λ b. if b then lookup i r.sites.pool else none) (all.all_idents i)

    man-after :
        (h : Bytes)
        → lookup h after.man ≡ (if is_some (owner se confs h) then lookup h r.sites.man else none)
    unfolding after update_site_pool_del str_slice_contains
    man-after h =
        ap (lookup h) (man-drop_sites se (visits ℕ r.sites.pool) r.idents _)
        ∙ lookup-dropped se r.sites.man r.hosts h
        ∙ ap (λ b. if b then lookup h r.sites.man else none) (all.all_hosts h)

    heap-after :
        (i : Bytes) (c : Site se) (p : ℕ)
        → latest se confs i ≡ some c
        → lookup i r.sites.pool ≡ some p
        → after.heap p ≡ r.sites.heap p
    unfolding after update_site_pool_del str_slice_contains
    heap-after i c p last at_i =
        heap-drop_sites se (visits ℕ r.sites.pool) r.idents _ p
          (named_all (visits ℕ r.sites.pool) (All-visits ℕ r.sites.pool))
          (ap (str_slice_contains r.idents) (all.made.named i p at_i).0
            ∙ all.all_idents i
            ∙ ap is_some last)
      where
        named_all :
            (es : List (Bytes × ℕ))
            → All (IsOf ℕ r.sites.pool) es
            → All (λ e. (r.sites.heap e.1).identity ≡ e.0) es
        named_all [] h = tt
        named_all ((k, q) ∷ es) (h, hs) = ((all.made.named k q h).0, named_all es hs)

    host-after :
        (h : Bytes)
        → lookup h after.man
          ≡ elim (owner se confs h) [ none ↦ none | some i ↦ lookup i after.pool ]
    host-after h = elim (Option-cases (owner se confs h)) [
      | inl e ↦ man-after h ∙ rw e
      | inr (i, e) ↦
          let (c, last) = all.made.exists h i e in
          man-after h ∙ rw e (all.made.hosts h ∙ rw e (sym (pool-after i ∙ rw last)))
    ]

    site-after :
        (i : Bytes) → SiteOf (latest se confs i) (lookup i g.pool) (lookup i after.pool) after.heap
    site-after i = elim (Option-cases (latest se confs i)) [
      | inl e ↦ rw e (pool-after i ∙ rw e)
      | inr (c, e) ↦
          let found = all.made.asked i c e in
          let now = pool-after i ∙ rw e found.1.0 in
          let shows =
            subst (Shows se (merged se c)) (sym (heap-after i c found.0 e found.1.0)) found.1.1 in
          rw e (
            by_old c found.0 (lookup i after.pool) (lookup i g.pool) now shows
              (λ q was. some_inj (sym found.1.0 ∙ all.made.pooled i q was)))
    ]
      where
        by_old :
            (c : Site se) (p : ℕ) (new old : Option ℕ)
            → new ≡ some p
            → Shows se (merged se c) (after.heap p)
            → ((q : ℕ) → old ≡ some q → p ≡ q)
            → SiteOf (some c) old new after.heap
        by_old c p new none e shows l = (p, (e, shows))
        by_old c p new (some q) e shows l =
            let pq = l q refl in
            (e ∙ ap some pq, subst (λ x. Shows se (merged se c) (after.heap x)) pq shows)

  -- A configuration whose sites all have an identity is followed: a host has the site of the last
  -- setting that is on and lists it, and no site if there is none; an identity has a site exactly
  -- if a setting of it that is on exists, the same one as before if there was one, and that site
  -- shows what the last of these settings is merged to.
  pub Serves-update_config_sites :
      (confs : List (Site se)) (g : Sites se)
      → IsIdentified se confs
      → IsNamed se g
      → Serves confs g (update_config_sites se confs g).0
  unfolding update_config_sites after
  Serves-update_config_sites confs g ids named =
      let r = update_all se confs [] [] g in
      let all = Gathered-update_all se confs [] [] g ids named in
      let done : Serves confs g (after confs g r all) = record {
        host = host-after confs g r all;
        site = site-after confs g r all;
      } in
      subst (Serves confs g) (sym (update_ok r.ok all.ok _)) done
    where
      update_ok :
          (b : Bool)
          → b ≡ true
          → {x : Sites se} (y : Sites se)
          → (if◌then◌else◌ {A = Sites se × Bool} b (x, true) (y, false)).0 ≡ x
      update_ok b e y = rw e
