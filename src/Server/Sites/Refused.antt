-- ===== src/Server/Sites/Refused.antt =====
-- A configuration that is refused takes no site away.
use vweb.Common.{
  ℕ, ◌≡◌, refl, sym, ap, ◌∙◌, subst, Bool, true, false, inl, inr, Option, some, List, [], ◌∷◌, ◌++◌,
  Bytes, lookup, is_empty, if◌then◌else◌, Bool-cases, Option-cases,
}
use vweb.Server.Sites.{
  SiteSettings, Site, Sites, Round, merged, update_site_pool_add, update_ext_info, update_all,
  update_config_sites,
}
use vweb.Server.Sites.Touched.{IsNamed}
use vweb.Server.Sites.Effective.{is_some, Made}
use vweb.Server.Sites.Dropped.{IsNamed-update_site_pool_del}
use vweb.Server.Sites.Rounds.{Made-update_ext_info, Made-update_site_pool_add}
use vweb.Server.Sites.Gathered.{taken, passed}

module _ (se : SiteSettings) where
  record Grows (g s : Sites se) : Type 0 where
    named : IsNamed se s
    pooled : (i : Bytes) (p : ℕ) → lookup i g.pool ≡ some p → lookup i s.pool ≡ some p
    hosts : (h : Bytes) → is_some (lookup h g.man) ≡ true → is_some (lookup h s.man) ≡ true

  Grows-Made :
      (own : Bytes → Option Bytes) (last : Bytes → Option (Site se)) (g s : Sites se)
      → Made se own last g s
      → Grows g s
  Grows-Made own last g s m = record {
    named = m.named;
    pooled = m.pooled;
    hosts = λ h e. elim (Option-cases (own h)) [
      | inl o ↦ ap is_some (m.hosts h ∙ rw o) ∙ e
      | inr (i, o) ↦
          let (c, last_i) = m.exists h i o in
          let found = m.asked i c last_i in
          let q : lookup h s.man ≡ some found.0 = m.hosts h ∙ rw o found.1.0 in ap is_some q
    ];
  }

  Grows-trans : (g s r : Sites se) → Grows g s → Grows s r → Grows g r
  Grows-trans g s r a b = record {
    named = b.named;
    pooled = λ i p e. b.pooled i p (a.pooled i p e);
    hosts = λ h e. b.hosts h (a.hosts h e);
  }

  Grows-update_all :
      (cs : List (Site se)) (idents hosts : List Bytes) (g : Sites se)
      → IsNamed se g
      → Grows g (update_all se cs idents hosts g).sites
  unfolding update_all merged
  Grows-update_all [] idents hosts g named = record {
    named = named;
    pooled = λ i p e. e;
    hosts = λ h e. e;
  }
  Grows-update_all (c ∷ cs) idents hosts g named = elim (Bool-cases (is_empty c.identity)) [
    | inl no_name ↦
        subst (λ r. Grows g r.sites) (sym (ended _ no_name))
          record { named = named; pooled = λ i p e. e; hosts = λ h e. e }
    | inr has_name ↦ elim (Bool-cases c.status) [
      | inl on ↦
          let m = merged se c in
          let s1 = update_site_pool_add se m g in
          let s2 = update_ext_info se m s1 in
          let one = Grows-Made _ _ g s1 (Made-update_site_pool_add se c g on named) in
          let two = Grows-Made _ _ s1 s2 (Made-update_ext_info se m s1 one.named) in
          let rest =
            Grows-update_all cs (idents ++ c.identity ∷ []) (hosts ++ c.host) s2 two.named in
          subst (λ r. Grows g r.sites) (sym (taken se _ _ _ has_name on))
            (Grows-trans g s1 _ one (Grows-trans s1 s2 _ two rest))
      | inr off ↦
          let s = update_ext_info se c g in
          let one = Grows-Made _ _ g s (Made-update_ext_info se c g named) in
          let rest = Grows-update_all cs idents hosts s one.named in
          subst (λ r. Grows g r.sites) (sym (passed se _ _ _ has_name off))
            (Grows-trans g s _ one rest)
    ]
  ]
    where
      ended : {a : Bool} {x : Round se} (y : Round se) → a ≡ true → (if a then x else y) ≡ x
      ended y e = rw e

  -- An update that is refused takes no site away: a host that had a site has one afterwards, and
  -- an identity that had a site has the same.
  pub update_config_sites_refused :
      (confs : List (Site se)) (g : Sites se) (h i : Bytes) (p : ℕ)
      → IsNamed se g
      → (update_config_sites se confs g).1 ≡ false
      → is_some (lookup h g.man) ≡ true
      → lookup i g.pool ≡ some p
      → (is_some (lookup h (update_config_sites se confs g).0.man) ≡ true)
        × (lookup i (update_config_sites se confs g).0.pool ≡ some p)
  unfolding update_config_sites
  update_config_sites_refused confs g h i p named refused at_h at_i =
      let r = update_all se confs [] [] g in
      let grows = Grows-update_all confs [] [] g named in
      let stopped = refusal r.ok _ r.sites refused in
      (
        ap (λ s. is_some (lookup h s.man)) stopped ∙ grows.hosts h at_h,
        ap (λ s. lookup i s.pool) stopped ∙ grows.pooled i p at_i,
      )
    where
      refusal :
          (b : Bool) (x y : Sites se)
          → (if◌then◌else◌ {A = Sites se × Bool} b (x, true) (y, false)).1 ≡ false
          → (if◌then◌else◌ {A = Sites se × Bool} b (x, true) (y, false)).0 ≡ y
      refusal true x y e = absurd (cc e)
      refusal false x y e = refl

  -- The names of the pool stay those of its sites.
  pub IsNamed-update_config_sites :
      (confs : List (Site se)) (g : Sites se)
      → IsNamed se g
      → IsNamed se (update_config_sites se confs g).0
  unfolding update_config_sites
  IsNamed-update_config_sites confs g named =
      let r = update_all se confs [] [] g in
      let grows = Grows-update_all confs [] [] g named in
      either r.ok _ r.sites (IsNamed-update_site_pool_del se r.idents r.hosts r.sites grows.named)
        grows.named
    where
      either :
          (b : Bool) (x y : Sites se)
          → IsNamed se x
          → IsNamed se y
          → IsNamed se (if◌then◌else◌ {A = Sites se × Bool} b (x, true) (y, false)).0
      either true x y m n = m
      either false x y m n = n
