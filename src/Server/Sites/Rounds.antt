-- ===== src/Server/Sites/Rounds.antt =====
-- One round of the loop of updateConfigSites brings the sites in line with the site of the round.
use vweb.Common.{
  ℕ, ◌≡◌, refl, sym, ap, ◌∙◌, subst, Bool, true, false, ◌&&◌, ◌||◌, inl, inr, Option, none, some,
  List, [], ◌∷◌, Bytes, same, same_iff, same_refl, lookup, lookup-insert, insert, some_inj,
  if◌then◌else◌, Bool-cases, Option-cases, or_false,
}
use vweb.Server.Plugins.{str_slice_contains}
use vweb.Server.Sites.{
  SiteSettings, Site, Sites, SiteData, get_site_extend, merged, add_hosts, new_site, set_site,
  set_plugins, update_site_pool_add, update_ext_info,
}
use vweb.Server.Sites.Touched.{
  IsNamed, Touched, touch, Touched-touch, Touched-update_ext_info, lookup-new_site,
  man-update_ext_info,
}
use vweb.Server.Sites.Effective.{Shows, Alike, Made}

module _ (se : SiteSettings) where
  pub contains-single : (v c : Bytes) → str_slice_contains (v ∷ []) c ≡ same v c
  unfolding str_slice_contains
  contains-single v c = sym (or_false (same v c))

  -- What one site that is on asks for.
  abbrev pub latest_one : Site se → Bytes → Option (Site se)
  latest_one c i = if c.status && same c.identity i then some c else none

  abbrev pub owner_one : Site se → Bytes → Option Bytes
  owner_one c h = if c.status && str_slice_contains c.host h then some c.identity else none

  abbrev pub nothing : {A : Type 0} → Bytes → Option A
  nothing i = none

  pub chosen :
      {A : Type 0} (x : A) {a b v : Bool}
      → a ≡ true
      → b ≡ v
      → (if a && b then some x else none) ≡ (if v then some x else none)
  chosen x h k = rw (h, k)

  pub Touched-pooled :
      (n : Bytes) (f : SiteData se → SiteData se) (g s : Sites se)
      → Touched se n f g s
      → (i : Bytes) (p : ℕ) → lookup i g.pool ≡ some p
      → lookup i s.pool ≡ some p
  Touched-pooled n f g s t i p e = elim (Bool-cases (same n i)) [
    | inl ni ↦
        let n_eq = (same_iff n i).0 ni in
        let q = (t.before p (subst (λ x. lookup x g.pool ≡ some p) (sym n_eq) e)).0 in
        subst (λ x. lookup x s.pool ≡ some p) n_eq (t.pooled ∙ ap some q)
    | inr ne ↦ t.others i ne ∙ e
  ]

  pub Alike-refl : (d : SiteData se) → Alike se d d
  Alike-refl d = (refl, refl, refl, refl)

  -- An operation that changes nothing of what a configuration says.
  pub Made-quiet :
      (n : Bytes) (f : SiteData se → SiteData se) (g s : Sites se)
      → Touched se n f g s
      → ((d : SiteData se) → Alike se d (f d))
      → ((h : Bytes) → lookup h s.man ≡ lookup h g.man)
      → Made se nothing nothing g s
  Made-quiet n f g s t quiet men = record {
    named = t.named;
    pooled = Touched-pooled n f g s t;
    asked = λ i c e. absurd (cc e);
    others = λ i p e at_i. elim (Bool-cases (same n i)) [
      | inl ni ↦
          let n_eq = (same_iff n i).0 ni in
          let (q, w) = t.before p (subst (λ x. lookup x g.pool ≡ some p) (sym n_eq) at_i) in
          let now : f (g.heap p) ≡ s.heap p = ap f (sym w) ∙ sym t.content ∙ ap (s.heap) q in
          subst (Alike se (g.heap p)) now (quiet (g.heap p))
      | inr ne ↦ subst (Alike se (g.heap p)) (sym (t.kept i p ne at_i)) (Alike-refl (g.heap p))
    ];
    hosts = men;
    exists = λ h i e. absurd (cc e);
  }

  pub Made-update_ext_info :
      (c : Site se) (g : Sites se)
      → IsNamed se g
      → Made se nothing nothing g (update_ext_info se c g)
  unfolding set_plugins get_site_extend
  Made-update_ext_info c g named =
      Made-quiet c.identity (set_plugins se c) g (update_ext_info se c g)
        (Touched-update_ext_info se c g named) (λ d. (refl, refl, refl, refl))
        (λ h. ap (lookup h) (man-update_ext_info se c g))

  pub lookup-add_hosts :
      (hosts : List Bytes) (p : ℕ) (man : List (Bytes × ℕ)) (h : Bytes)
      → lookup h (add_hosts se hosts p man)
        ≡ (if str_slice_contains hosts h then some p else lookup h man)
  unfolding add_hosts str_slice_contains
  lookup-add_hosts [] p man h = refl
  lookup-add_hosts (k ∷ hosts) p man h =
      lookup-add_hosts hosts p (insert k p man) h
      ∙ rw (lookup-insert k h p man) (both (same k h) (str_slice_contains hosts h))
    where
      both :
          (a b : Bool)
          → (if b then some p else if a then some p else lookup h man)
            ≡ (if a || b then some p else lookup h man)
      both true true = refl
      both true false = refl
      both false b = refl

  -- The site of a host, by whether the host was added.
  pub by_owner :
      {a : Bool} (b : Bool) (id : Bytes) (pool : Bytes → Option ℕ) (p : ℕ) (old : Option ℕ)
      → a ≡ true
      → pool id ≡ some p
      → (if b then some p else old)
        ≡ elim (if a && b then some id else none) [ some i ↦ pool i | none ↦ old ]
  by_owner true id pool p old h k = rw h (sym k)
  by_owner false id pool p old h k = rw h

  pub man-new_site : (n : Bytes) (g : Sites se) → (new_site se n g).1.man ≡ g.man
  unfolding new_site
  man-new_site n g = elim (Option-cases (lookup n g.pool)) [
    | inl e ↦ rw (e, new_site)
    | inr (p, e) ↦ rw (e, new_site)
  ]

  pub Made-update_site_pool_add :
      (c : Site se) (g : Sites se)
      → c.status ≡ true
      → IsNamed se g
      → Made se (owner_one c) (latest_one c) g (update_site_pool_add se (merged se c) g)
  unfolding set_site merged get_site_extend update_site_pool_add
  Made-update_site_pool_add c g on named =
      let m = merged se c in
      let t = Touched-touch se c.identity (set_site se m) g (λ d. refl) named in
      let s = touch se c.identity (set_site se m) g in
      let p = (new_site se c.identity g).0 in
      record {
        named = t.named;
        pooled = Touched-pooled c.identity (set_site se m) g s t;
        asked = λ i d e. elim (Bool-cases (same c.identity i)) [
          | inr ne ↦ absurd (let f = sym (chosen c on ne) ∙ e in cc f)
          | inl ni ↦
              let is_c : c ≡ d = some_inj (sym (chosen c on ni) ∙ e) in
              let n_eq = (same_iff c.identity i).0 ni in
              let shows : Shows se m (s.heap t.site) =
                subst (Shows se m) (sym t.content) (refl, refl, refl, refl) in
              (
                t.site,
                (
                  subst (λ x. lookup x s.pool ≡ some t.site) n_eq t.pooled,
                  subst (λ x. Shows se (merged se x) (s.heap t.site)) is_c shows,
                ),
              )
        ];
        others = λ i q e at_i. elim (Bool-cases (same c.identity i)) [
          | inl ni ↦ absurd (let f = sym (chosen c on ni) ∙ e in cc f)
          | inr ne ↦ subst (Alike se (g.heap q)) (sym (t.kept i q ne at_i)) (Alike-refl (g.heap q))
        ];
        hosts = λ h.
            lookup-add_hosts c.host p (new_site se c.identity g).1.man h
            ∙ ap (λ m. if str_slice_contains c.host h then some p else lookup h m)
                (man-new_site c.identity g)
            ∙ by_owner (str_slice_contains c.host h) c.identity (λ i. lookup i s.pool) p
                (lookup h g.man) on (lookup-new_site se c.identity g);
        exists = λ h i e. elim (Bool-cases (str_slice_contains c.host h)) [
          | inr ne ↦ absurd (let f = sym (chosen c.identity on ne) ∙ e in cc f)
          | inl has ↦
              let is_id : c.identity ≡ i = some_inj (sym (chosen c.identity on has) ∙ e) in
              (c, chosen c on (subst (λ x. same c.identity x ≡ true) is_id (same_refl c.identity)))
        ];
      }
