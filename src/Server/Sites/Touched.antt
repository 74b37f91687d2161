-- ===== src/Server/Sites/Touched.antt =====
-- What one operation on the site of an identity makes of the sites.
use vweb.Common.{
  ℕ, ◌+◌, ◌<◌, ◌≡◌, refl, sym, ap, ◌∙◌, subst, false, inl, inr, none, some, arith, Bytes, ◌==◌,
  ==_iff, same, same_iff, same_refl, lookup, insert, lookup-insert, Bool-cases, Option-cases,
  some_inj,
}
use vweb.Server.Sites.{
  SiteSettings, Site, SiteData, Sites, write, fresh, new_site, set_site, set_plugins,
  update_site_pool_add, update_ext_info, add_hosts,
}

module _ (se : SiteSettings) where
  -- Each name of the pool is that of its site, which is a number given before.
  abbrev pub IsNamed : Sites se → Type 0
  IsNamed g =
      (i : Bytes) (p : ℕ) → lookup i g.pool ≡ some p → ((g.heap p).identity ≡ i) × (p < g.next)

  abbrev pub touch : Bytes → (SiteData se → SiteData se) → Sites se → Sites se
  touch n f g = record (new_site se n g).1 {
    heap =
        write se (new_site se n g).0 (f ((new_site se n g).1.heap (new_site se n g).0))
          (new_site se n g).1.heap;
  }

  -- `site` is the number of the site n afterwards, and `was` its content before.
  pub record Touched (n : Bytes) (f : SiteData se → SiteData se) (g s : Sites se) : Type 0 where
    pub site : ℕ
    pub was : SiteData se
    pub pooled : lookup n s.pool ≡ some site
    pub content : s.heap site ≡ f was
    pub before : (q : ℕ) → lookup n g.pool ≡ some q → (site ≡ q) × (was ≡ g.heap q)
    pub others : (i : Bytes) → same n i ≡ false → lookup i s.pool ≡ lookup i g.pool
    pub kept :
        (i : Bytes) (q : ℕ) → same n i ≡ false → lookup i g.pool ≡ some q → s.heap q ≡ g.heap q
    pub named : IsNamed s

  write_self : (p : ℕ) (d : SiteData se) (h : ℕ → SiteData se) → write se p d h p ≡ d
  unfolding write
  write_self p d h = rw ((==_iff p p).1 refl)

  pub write_other :
      (p q : ℕ) (d : SiteData se) (h : ℕ → SiteData se) → (p == q) ≡ false → write se p d h q ≡ h q
  unfolding write
  write_other p q d h e = rw e

  pub write-identity :
      (p : ℕ) (d : SiteData se) (h : ℕ → SiteData se)
      → d.identity ≡ (h p).identity
      → (q : ℕ) → (write se p d h q).identity ≡ (h q).identity
  write-identity p d h e q = elim (Bool-cases (p == q)) [
    | inl same_number ↦
        let q_eq = (==_iff p q).0 same_number in
        subst (λ r. (write se p d h r).identity ≡ (h r).identity) q_eq
          (ap (λ x. x.identity) (write_self p d h) ∙ e)
    | inr ne ↦ ap (λ x. x.identity) (write_other p q d h ne)
  ]

  -- Two sites of the pool with different names have different numbers.
  IsNamed-apart :
      (g : Sites se)
      → IsNamed g
      → (i j : Bytes) (p q : ℕ) → same i j ≡ false
      → lookup i g.pool ≡ some p
      → lookup j g.pool ≡ some q
      → (p == q) ≡ false
  IsNamed-apart g named i j p q e a b = elim (Bool-cases (p == q)) [
    | inr ne ↦ ne
    | inl same_number ↦
        let ids : i ≡ j =
          sym (named i p a).0
          ∙ ap (λ r. (g.heap r).identity) ((==_iff p q).0 same_number)
          ∙ (named j q b).0 in
        absurd (cc (e, (same_iff i j).1 ids))
  ]

  changed : ℕ → (SiteData se → SiteData se) → Sites se → Sites se
  changed p f g = record g { heap = write se p (f (g.heap p)) g.heap }

  made : Bytes → (SiteData se → SiteData se) → Sites se → Sites se
  made n f g =
      let h = write se g.next (fresh se n) g.heap in
      record g {
        pool = insert n g.next g.pool;
        heap = write se g.next (f (h g.next)) h;
        next = g.next + 1;
      }

  Touched-changed :
      (n : Bytes) (f : SiteData se → SiteData se) (g : Sites se)
      → ((d : SiteData se) → (f d).identity ≡ d.identity)
      → IsNamed g
      → (p : ℕ) → lookup n g.pool ≡ some p
      → Touched n f g (changed p f g)
  unfolding changed
  Touched-changed n f g ids named p e = record {
    site = p;
    was = g.heap p;
    pooled = e;
    content = write_self p (f (g.heap p)) g.heap;
    before = λ q a. let q_eq : p ≡ q = some_inj (sym e ∙ a) in (q_eq, ap (g.heap) q_eq);
    others = λ i ne. refl;
    kept = λ i q ne a. write_other p q (f (g.heap p)) g.heap (IsNamed-apart g named n i p q ne e a);
    named = λ i q a. (
      write-identity p (f (g.heap p)) g.heap (ids (g.heap p)) q ∙ (named i q a).0,
      (named i q a).1,
    );
  }

  IsNamed-made :
      (n : Bytes) (f : SiteData se → SiteData se) (g : Sites se)
      → ((d : SiteData se) → (f d).identity ≡ d.identity)
      → IsNamed g
      → IsNamed (made n f g)
  unfolding made
  IsNamed-made n f g ids named i q a =
      let h = write se g.next (fresh se n) g.heap in
      let there = sym (lookup-insert n i g.next g.pool) ∙ a in
      elim (Bool-cases (same n i)) [
        | inl ni ↦
            let q_eq : g.next ≡ q = some_inj (rw ni at there) in
            let at_next : (h g.next).identity ≡ i =
              ap (λ d. d.identity) (write_self g.next (fresh se n) g.heap) ∙ (same_iff n i).0 ni in
            let last = write-identity g.next (f (h g.next)) h (ids (h g.next)) q in
            (last ∙ subst (λ r. (h r).identity ≡ i) q_eq at_next, omega (arith, q_eq))
        | inr ne ↦
            let (id, below) = named i q (rw ne at there) in
            let away : (g.next == q) ≡ false = ground arith in
            let one = write_other g.next q (f (h g.next)) h away in
            let two = write_other g.next q (fresh se n) g.heap away in
            (ap (λ d. d.identity) (one ∙ two) ∙ id, omega arith)
      ]

  Touched-made :
      (n : Bytes) (f : SiteData se → SiteData se) (g : Sites se)
      → ((d : SiteData se) → (f d).identity ≡ d.identity)
      → IsNamed g
      → lookup n g.pool ≡ none
      → Touched n f g (made n f g)
  unfolding made
  Touched-made n f g ids named e =
      let h = write se g.next (fresh se n) g.heap in
      record {
        site = g.next;
        was = h g.next;
        pooled = lookup-insert n n g.next g.pool ∙ rw (same_refl n);
        content = write_self g.next (f (h g.next)) h;
        before = λ q a. absurd (cc (e, a));
        others = λ i ne. lookup-insert n i g.next g.pool ∙ rw ne;
        kept = λ i q ne a.
            let below = (named i q a).1 in
            let away : (g.next == q) ≡ false = ground arith in
            write_other g.next q (f (h g.next)) h away
            ∙ write_other g.next q (fresh se n) g.heap away;
        named = IsNamed-made n f g ids named;
      }

  pub Touched-touch :
      (n : Bytes) (f : SiteData se → SiteData se) (g : Sites se)
      → ((d : SiteData se) → (f d).identity ≡ d.identity)
      → IsNamed g
      → Touched n f g (touch n f g)
  unfolding new_site
  Touched-touch n f g ids named = elim (Option-cases (lookup n g.pool)) [
    | inl e ↦
        let q : touch n f g ≡ made n f g = unfold made in rw (e, new_site) in
        subst (Touched n f g) (sym q) (Touched-made n f g ids named e)
    | inr (p, e) ↦
        let q : touch n f g ≡ changed p f g = unfold changed in rw (e, new_site) in
        subst (Touched n f g) (sym q) (Touched-changed n f g ids named p e)
  ]

  pub Touched-update_ext_info :
      (c : Site se) (g : Sites se)
      → IsNamed g
      → Touched c.identity (set_plugins se c) g (update_ext_info se c g)
  unfolding update_ext_info set_plugins
  Touched-update_ext_info c g named =
      Touched-touch c.identity (set_plugins se c) g (λ d. refl) named

  pub touch-update_site_pool_add :
      (c : Site se) (g : Sites se)
      → update_site_pool_add se c g ≡ record (touch c.identity (set_site se c) g) {
        man =
            add_hosts se c.host
              (new_site se c.identity g).0
              (touch c.identity (set_site se c) g).man;
      }
  unfolding update_site_pool_add
  touch-update_site_pool_add c g = refl

  pub lookup-new_site :
      (n : Bytes) (g : Sites se) → lookup n (new_site se n g).1.pool ≡ some (new_site se n g).0
  unfolding new_site
  lookup-new_site n g = elim (Option-cases (lookup n g.pool)) [
    | inl e ↦ rw (e, new_site) (lookup-insert n n g.next g.pool ∙ rw (same_refl n))
    | inr (p, e) ↦ rw (e, new_site) e
  ]

  pub man-update_ext_info : (c : Site se) (g : Sites se) → (update_ext_info se c g).man ≡ g.man
  unfolding update_ext_info new_site
  man-update_ext_info c g = elim (Option-cases (lookup c.identity g.pool)) [
    | inl e ↦ rw (e, update_ext_info, new_site)
    | inr (p, e) ↦ rw (e, update_ext_info, new_site)
  ]
