-- ===== src/Server/Life/Consistent.antt =====
-- What holds of a group between any two of its calls.
use vweb.Common.{
  ℕ, ◌≡◌, refl, sym, subst, Bool, true, false, not, ◌&&◌, ◌⊎◌, inl, inr, Option, none, some, List,
  [], ◌∷◌, Bytes, ◌==◌, lookup, is_empty, if◌then◌else◌, Bool-cases, Option-cases,
}
use vweb.Vmap.{VMap, IsMap}
use vweb.Server.Listeners.{Settings, Server}
use vweb.Server.Sites.{SiteSettings, Site, Sites, SiteData, merged, update_config_sites}
use vweb.Server.Sites.Touched.{IsNamed}
use vweb.Server.Sites.Effective.{owner, latest, Shows, IsIdentified}
use vweb.Server.Sites.Serves.{SiteOf, Serves-update_config_sites}
use vweb.Server.Sites.Refused.{IsNamed-update_config_sites}
use vweb.Server.Life.{Config, Disk, Life, apply, update_config, load_config_file}

module _ (se : SiteSettings) where
  abbrev pub all_named : List (Site se) → Bool
  all_named [] = true
  all_named (c ∷ cs) = not (is_empty c.identity) && all_named cs

  pub all_named-IsIdentified : (cs : List (Site se)) → all_named cs ≡ true → IsIdentified se cs
  all_named-IsIdentified [] e = tt
  all_named-IsIdentified (c ∷ cs) e = elim (Bool-cases (is_empty c.identity)) [
    | inl h ↦ absurd (let f = rw h at e in cc f)
    | inr h ↦ (h, all_named-IsIdentified cs (rw h at e))
  ]

module _ (se : SiteSettings) where
  -- The pool has a site for an identity exactly if there is a setting for it that is on, and this site
  -- shows what is merged of the setting.
  abbrev pub PooledAs : Option (Site se) → Option ℕ → (ℕ → SiteData se) → Type 0
  PooledAs none new heap = new ≡ none
  PooledAs (some c) new heap = (p : ℕ) × ((new ≡ some p) × Shows se (merged se c) (heap p))

  PooledAs-SiteOf :
      (o : Option (Site se)) (old new : Option ℕ) (heap : ℕ → SiteData se)
      → SiteOf se o old new heap
      → PooledAs o new heap
  PooledAs-SiteOf none old new heap h = h
  PooledAs-SiteOf (some c) none new heap h = h
  PooledAs-SiteOf (some c) (some p) new heap (e, shows) = (p, (e, shows))

  -- The sites are those that the settings ask for.
  pub record Answering (confs : List (Site se)) (s : Sites se) : Type 0 where
    pub host :
        (h : Bytes)
        → lookup h s.man ≡ elim (owner se confs h) [ none ↦ none | some i ↦ lookup i s.pool ]
    pub site : (i : Bytes) → PooledAs (latest se confs i) (lookup i s.pool) s.heap

module _ (conf : Settings) (lib : VMap (Server (conf.ConnConf) (conf.ServerConf)))
    (laws : IsMap lib) (se : SiteSettings) where
  -- The hosts have the sites of the configuration, if each of these has an identity.
  abbrev pub Answers : Option (Config conf lib se) → Sites se → Type 0
  Answers none s = Unit
  Answers (some c) s = (all_named se c.site ≡ false) ⊎ Answering se c.site s

  -- A group that does not run has no server and no host, and one that runs answers.
  pub data Phase (g : Life conf lib se) : Type 0 where
    idle :
        g.run ≡ false
        → ((j : Bytes) → lib.get_has (g.servers.srv_man) j ≡ none)
        → ((h : Bytes) → lookup h g.sites.man ≡ none)
        → Phase g
    running : g.run ≡ true → g.has_pool ≡ true → Answers g.config g.sites → Phase g

  pub record IsConsistent (g : Life conf lib se) : Type 0 where
    pub waits : g.waits ≡ g.run
    pub named : IsNamed se g.sites
    pub phase : Phase g

  pub Answers-update_config_sites :
      (c : Config conf lib se) (s : Sites se)
      → IsNamed se s
      → Answers (some c) (update_config_sites se c.site s).0
  Answers-update_config_sites c s named = elim (Bool-cases (all_named se c.site)) [
    | inr e ↦ inl e
    | inl e ↦
        let served =
          Serves-update_config_sites se c.site s (all_named-IsIdentified se c.site e) named in
        inr (record { host = served.host; site = λ i. PooledAs-SiteOf se _ _ _ _ (served.site i) })
  ]

  pub IsConsistent-apply :
      (c : Config conf lib se) (g : Life conf lib se)
      → g.waits ≡ g.run
      → IsNamed se g.sites
      → g.run ≡ true
      → g.has_pool ≡ true
      → IsConsistent (apply conf lib se c g)
  unfolding apply
  IsConsistent-apply c g waits named run pool = record {
    waits = waits;
    named = IsNamed-update_config_sites se c.site g.sites named;
    phase = running run pool (Answers-update_config_sites c g.sites named);
  }

  pub IsConsistent-update_config :
      (c : Option (Config conf lib se)) (g : Life conf lib se)
      → IsConsistent g
      → IsConsistent (update_config conf lib se c g).0
  unfolding update_config
  IsConsistent-update_config none g h = h
  IsConsistent-update_config (some c) g h = by_run g.run h.phase refl
    where
      s : Life conf lib se
      s = record g { config = some c }

      by_run :
          (b : Bool) → Phase g → b ≡ g.run → IsConsistent (if b then apply conf lib se c s else s)
      by_run true (idle e a k) r = absurd (cc (r, e))
      by_run false (running e a k) r = absurd (cc (r, e))
      by_run true (running e pool k) r = IsConsistent-apply c s h.waits h.named e pool
      by_run false (idle e a k) r = record { waits = h.waits; named = h.named; phase = idle e a k }

  -- A load changes nothing, or it is an update after the time of the file is written down.
  pub load_config_file-cases :
      (disk : Disk conf lib se) (p : Bytes) (g : Life conf lib se)
      → ((load_config_file conf lib se disk p g).0 ≡ g)
        ⊎ ((time : ℕ) × ((c : Config conf lib se) × ((load_config_file conf lib se disk p g).0
                ≡ (update_config conf lib se
                    (some c)
                    (record g { config_file_mod_time = time })).0)))
  unfolding load_config_file
  load_config_file-cases disk p g = elim (Option-cases (disk.stat p)) [
    | inl e ↦ inl (rw (e, load_config_file))
    | inr (time, e) ↦ elim (Bool-cases (time == g.config_file_mod_time)) [
      | inl t ↦ inl (rw (e, load_config_file, t))
      | inr t ↦ elim (Option-cases (disk.parse_files p)) [
        | inl q ↦ inl (rw (e, load_config_file, t, q))
        | inr (c, q) ↦ inr (time, (c, rw (e, load_config_file, t, q)))
      ]
    ]
  ]

  pub IsConsistent-load_config_file :
      (disk : Disk conf lib se) (p : Bytes) (g : Life conf lib se)
      → IsConsistent g
      → IsConsistent (load_config_file conf lib se disk p g).0
  IsConsistent-load_config_file disk p g h = elim (load_config_file-cases disk p g) [
    | inl e ↦ subst IsConsistent (sym e) h
    | inr (time, rest) ↦ subst IsConsistent (sym rest.1) (
        IsConsistent-update_config (some rest.0) (record g { config_file_mod_time = time })
          (timed time))
  ]
    where
      timed_phase : (time : ℕ) → Phase g → Phase (record g { config_file_mod_time = time })
      timed_phase time (idle e a k) = idle e a k
      timed_phase time (running e a k) = running e a k

      timed : (time : ℕ) → IsConsistent (record g { config_file_mod_time = time })
      timed time = record { waits = h.waits; named = h.named; phase = timed_phase time h.phase }
