-- ===== src/Server/Sites/Gathered.antt =====
-- What the whole loop of updateConfigSites gathers and makes.
use vweb.Common.{
  ◌≡◌, refl, sym, ap, ◌∙◌, subst, Bool, true, false, ◌&&◌, ◌||◌, inl, inr, Option, none, some, List,
  [], ◌∷◌, ◌++◌, Bytes, same, if◌then◌else◌, Bool-cases, or_false, fun_ext,
}
use vweb.Server.Plugins.{str_slice_contains}
use vweb.Server.Sites.{
  SiteSettings, Site, Sites, Round, merged, update_site_pool_add, update_ext_info, update_all,
}
use vweb.Server.Sites.Touched.{IsNamed}
use vweb.Server.Sites.Effective.{
  is_some, latest, owner, IsIdentified, Made, over, Made-over, contains-append,
}
use vweb.Server.Sites.Rounds.{
  contains-single, latest_one, owner_one, nothing, Alike-refl, Made-update_ext_info,
  Made-update_site_pool_add,
}

module _ (se : SiteSettings) where
  -- What the loop gathers.
  pub record Gathered (cs : List (Site se)) (idents hosts : List Bytes) (g : Sites se)
      (r : Round se) : Type 0 where
    pub ok : r.ok ≡ true
    pub made : Made se (owner se cs) (latest se cs) g r.sites
    pub all_idents :
        (i : Bytes)
        → str_slice_contains r.idents i ≡ str_slice_contains idents i || is_some (latest se cs i)
    pub all_hosts :
        (h : Bytes)
        → str_slice_contains r.hosts h ≡ str_slice_contains hosts h || is_some (owner se cs h)

  -- What was gathered before, and of the site at hand, and of the later ones.
  gather :
      {A : Type 0} (x : Bool) {a : Bool} (b : Bool) (one : A) (later : Option A)
      → a ≡ true
      → (x || b) || is_some later
        ≡ x || is_some (elim later [ some d ↦ some d | none ↦ if a && b then some one else none ])
  gather true b one later h = refl
  gather false true one none h = rw h
  gather false true one (some d) h = refl
  gather false false one none h = rw h
  gather false false one (some d) h = refl

  -- A site that is off is passed over.
  pass :
      {A : Type 0} {a : Bool} (b : Bool) (one : A) (later : Option A)
      → a ≡ false
      → later ≡ elim later [ some d ↦ some d | none ↦ if a && b then some one else none ]
  pass b one none h = rw h
  pass b one (some d) h = refl

  skip :
      {A : Type 0} {a : Bool} (b : Bool) (one : A) (later : Option A)
      → a ≡ false
      → elim later [ some d ↦ some d | none ↦ none ]
        ≡ elim later [ some d ↦ some d | none ↦ if a && b then some one else none ]
  skip b one none h = rw h
  skip b one (some d) h = refl

  Gathered-on :
      (c : Site se) (cs : List (Site se)) (idents hosts : List Bytes) (g s : Sites se)
      (r : Round se)
      → c.status ≡ true
      → Made se (owner_one se c) (latest_one se c) g s
      → Gathered cs (idents ++ c.identity ∷ []) (hosts ++ c.host) s r
      → Gathered (c ∷ cs) idents hosts g r
  Gathered-on c cs idents hosts g s r on a b = record {
    ok = b.ok;
    made =
        Made-over se (owner_one se c) (owner se cs) (latest_one se c) (latest se cs) g s r.sites a
          b.made;
    all_idents = λ i.
        b.all_idents i
        ∙ ap (λ x. x || is_some (latest se cs i))
            (contains-append idents (c.identity ∷ []) i
              ∙ ap (λ x. str_slice_contains idents i || x) (contains-single se c.identity i))
        ∙ gather (str_slice_contains idents i) (same c.identity i) c (latest se cs i) on;
    all_hosts = λ h.
        b.all_hosts h
        ∙ ap (λ x. x || is_some (owner se cs h)) (contains-append hosts c.host h)
        ∙ gather (str_slice_contains hosts h) (str_slice_contains c.host h) c.identity
            (owner se cs h) on;
  }

  Gathered-off :
      (c : Site se) (cs : List (Site se)) (idents hosts : List Bytes) (g s : Sites se)
      (r : Round se)
      → c.status ≡ false
      → Made se (nothing se) (nothing se) g s
      → Gathered cs idents hosts s r
      → Gathered (c ∷ cs) idents hosts g r
  Gathered-off c cs idents hosts g s r off a b = record {
    ok = b.ok;
    made =
        subst (λ own. Made se own (latest se (c ∷ cs)) g r.sites)
          (fun_ext (λ h. skip (str_slice_contains c.host h) c.identity (owner se cs h) off))
          (subst (λ last. Made se (over se (owner se cs) (nothing se)) last g r.sites)
            (fun_ext (λ i. skip (same c.identity i) c (latest se cs i) off))
            (Made-over se (nothing se) (owner se cs) (nothing se) (latest se cs) g s r.sites a
              b.made));
    all_idents = λ i.
        b.all_idents i
        ∙ ap (λ o. str_slice_contains idents i || is_some o)
            (pass (same c.identity i) c (latest se cs i) off);
    all_hosts = λ h.
        b.all_hosts h
        ∙ ap (λ o. str_slice_contains hosts h || is_some o)
            (pass (str_slice_contains c.host h) c.identity (owner se cs h) off);
  }

  pub Made-refl : (g : Sites se) → IsNamed se g → Made se (nothing se) (nothing se) g g
  Made-refl g named = record {
    named = named;
    pooled = λ i p e. e;
    asked = λ i c e. absurd (cc e);
    others = λ i p e q. Alike-refl se (g.heap p);
    hosts = λ h. refl;
    exists = λ h i e. absurd (cc e);
  }

  pub taken :
      {a b : Bool} (x y z : Round se)
      → a ≡ false
      → b ≡ true
      → (if a then x else if b then y else z) ≡ y
  taken x y z h k = rw (h, k)

  pub passed :
      {a b : Bool} (x y z : Round se)
      → a ≡ false
      → b ≡ false
      → (if a then x else if b then y else z) ≡ z
  passed x y z h k = rw (h, k)

  pub Gathered-update_all :
      (cs : List (Site se)) (idents hosts : List Bytes) (g : Sites se)
      → IsIdentified se cs
      → IsNamed se g
      → Gathered cs idents hosts g (update_all se cs idents hosts g)
  unfolding update_all merged
  Gathered-update_all [] idents hosts g d named = record {
    ok = refl;
    made = Made-refl g named;
    all_idents = λ i. or_false (str_slice_contains idents i);
    all_hosts = λ h. or_false (str_slice_contains hosts h);
  }
  Gathered-update_all (c ∷ cs) idents hosts g (d, ds) named = elim (Bool-cases c.status) [
    | inl on ↦
        let m = merged se c in
        let s1 = update_site_pool_add se m g in
        let s2 = update_ext_info se m s1 in
        let made1 = Made-update_site_pool_add se c g on named in
        let made2 = Made-update_ext_info se m s1 made1.named in
        let both =
          Made-over se (owner_one se c) (nothing se) (latest_one se c) (nothing se) g s1 s2 made1
            made2 in
        let rest =
          Gathered-update_all cs (idents ++ c.identity ∷ []) (hosts ++ c.host) s2 ds both.named in
        subst (Gathered (c ∷ cs) idents hosts g) (sym (taken _ _ _ d on))
          (Gathered-on c cs idents hosts g s2 _ on both rest)
    | inr off ↦
        let s = update_ext_info se c g in
        let made = Made-update_ext_info se c g named in
        let rest = Gathered-update_all cs idents hosts s ds made.named in
        subst (Gathered (c ∷ cs) idents hosts g) (sym (passed _ _ _ d off))
          (Gathered-off c cs idents hosts g s _ off made rest)
  ]
