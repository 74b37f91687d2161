-- ===== src/Server/Sites/Effective.antt =====
-- Which sites a configuration asks for, and what the loop of updateConfigSites gathers of it.
use vweb.Common.{
  ℕ, ◌≡◌, refl, sym, ◌∙◌, Bool, true, false, ◌&&◌, ◌||◌, inl, inr, Option, none, some, List, [],
  ◌∷◌, ◌++◌, arith, Bytes, same, lookup, All, is_empty, if◌then◌else◌, Option-cases,
}
use vweb.Server.Plugins.{str_slice_contains}
use vweb.Server.Sites.{SiteSettings, Site, Sites, SiteData, nanoseconds, get_site_extend, merged}
use vweb.Server.Sites.Touched.{IsNamed}

abbrev pub is_some : {A : Type 0} → Option A → Bool
is_some none = false
is_some (some a) = true

pub contains-append :
    (xs ys : List Bytes) (c : Bytes)
    → str_slice_contains (xs ++ ys) c ≡ str_slice_contains xs c || str_slice_contains ys c
unfolding str_slice_contains
contains-append [] ys c = refl
contains-append (x ∷ xs) ys c = ground (arith, contains-append xs ys c)

module _ (se : SiteSettings) where
  -- The last site of the configuration that is on and has the identity.
  abbrev pub latest : List (Site se) → Bytes → Option (Site se)
  latest [] i = none
  latest (c ∷ cs) i = elim (latest cs i) [
    | some d ↦ some d
    | none ↦ if c.status && same c.identity i then some c else none
  ]

  -- The identity of the last site that is on and has the host.
  abbrev pub owner : List (Site se) → Bytes → Option Bytes
  owner [] h = none
  owner (c ∷ cs) h = elim (owner cs h) [
    | some i ↦ some i
    | none ↦ if c.status && str_slice_contains c.host h then some c.identity else none
  ]

  -- Each site has an identity.
  abbrev pub IsIdentified : List (Site se) → Type 0
  IsIdentified = All (λ c. is_empty c.identity ≡ false)

  -- The content of a site follows the configuration c.
  abbrev pub Shows : Site se → SiteData se → Type 0
  Shows c d =
      (d.root_dir ≡ c.root_dir)
      × (d.expired ≡ nanoseconds c.session.expired)
      × (d.options ≡ c.session.options)
      × ((get_site_extend se d).config_site ≡ some c)

  -- Two contents follow the same configuration.
  abbrev pub Alike : SiteData se → SiteData se → Type 0
  Alike d e =
      (e.root_dir ≡ d.root_dir)
      × (e.expired ≡ d.expired)
      × (e.options ≡ d.options)
      × ((get_site_extend se e).config_site ≡ (get_site_extend se d).config_site)

  Shows-Alike : (c : Site se) (d e : SiteData se) → Shows c d → Alike d e → Shows c e
  Shows-Alike c d e (a, b, x, y) (a', b', x', y') = (a' ∙ a, b' ∙ b, x' ∙ x, y' ∙ y)

  Alike-trans : (d e f : SiteData se) → Alike d e → Alike e f → Alike d f
  Alike-trans d e f (a, b, x, y) (a', b', x', y') = (a' ∙ a, b' ∙ b, x' ∙ x, y' ∙ y)

  -- From g to s, the hosts in `own` came to the sites that it names, and the sites in `last` follow
  -- their configuration.
  pub record Made (own : Bytes → Option Bytes) (last : Bytes → Option (Site se)) (g s : Sites se)
      : Type 0 where
    pub named : IsNamed se s
    pub pooled : (i : Bytes) (p : ℕ) → lookup i g.pool ≡ some p → lookup i s.pool ≡ some p
    pub asked :
        (i : Bytes) (c : Site se)
        → last i ≡ some c
        → (p : ℕ) × ((lookup i s.pool ≡ some p) × Shows (merged se c) (s.heap p))
    pub others :
        (i : Bytes) (p : ℕ) → last i ≡ none → lookup i g.pool ≡ some p → Alike (g.heap p) (s.heap p)
    pub hosts :
        (h : Bytes)
        → lookup h s.man ≡ elim (own h) [ some i ↦ lookup i s.pool | none ↦ lookup h g.man ]
    pub exists : (h i : Bytes) → own h ≡ some i → (c : Site se) × (last i ≡ some c)

  abbrev pub over : {A : Type 0} → (later earlier : Bytes → Option A) → Bytes → Option A
  over later earlier i = elim (later i) [ some a ↦ some a | none ↦ earlier i ]

  pub Made-over :
      (own1 own2 : Bytes → Option Bytes) (last1 last2 : Bytes → Option (Site se)) (g s r : Sites se)
      → Made own1 last1 g s
      → Made own2 last2 s r
      → Made (over own2 own1) (over last2 last1) g r
  Made-over own1 own2 last1 last2 g s r a b = record {
    named = b.named;
    pooled = λ i p e. b.pooled i p (a.pooled i p e);
    asked = λ i c e. elim (Option-cases (last2 i)) [
      | inr (d, e2) ↦ b.asked i c (e2 ∙ (rw (e2, over) at e))
      | inl e2 ↦
          let found = a.asked i c (rw (e2, over) at e) in
          let p = found.0 in
          (
            p,
            (
              b.pooled i p found.1.0,
              Shows-Alike (merged se c) (s.heap p) (r.heap p) found.1.1 (b.others i p e2 found.1.0),
            ),
          )
    ];
    others = λ i p e q. elim (Option-cases (last2 i)) [
      | inr (d, e2) ↦ absurd (let f = rw (e2, over) at e in cc f)
      | inl e2 ↦
          Alike-trans (g.heap p) (s.heap p) (r.heap p) (a.others i p (rw (e2, over) at e) q)
            (b.others i p e2 (a.pooled i p q))
    ];
    hosts = λ h. elim (Option-cases (own2 h)) [
      | inr (i, e2) ↦ b.hosts h ∙ rw e2
      | inl e2 ↦
          b.hosts h
          ∙ rw e2 (elim (Option-cases (own1 h)) [
            | inl e1 ↦ a.hosts h ∙ rw e1
            | inr (i, e1) ↦
                let (c, is_last) = a.exists h i e1 in
                let found = a.asked i c is_last in
                a.hosts h ∙ rw e1 (found.1.0 ∙ sym (b.pooled i found.0 found.1.0))
          ])
    ];
    exists = λ h i e. elim (Option-cases (own2 h)) [
      | inr (j, e2) ↦
          let (c, is_last) = b.exists h i (e2 ∙ (rw (e2, over) at e)) in (c, rw (is_last, over))
      | inl e2 ↦
          let (c, is_last) = a.exists h i (rw (e2, over) at e) in
          elim (Option-cases (last2 i)) [
            | inl e3 ↦ (c, rw (e3, over) is_last)
            | inr (d, e3) ↦ (d, rw (e3, over))
          ]
    ];
  }
