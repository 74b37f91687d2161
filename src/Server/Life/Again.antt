-- ===== src/Server/Life/Again.antt =====
-- A file that is loaded again, and a group that is started again.
use vweb.Common.{
  ◌≡◌, refl, sym, ap, ◌∙◌, subst, Bool, true, false, inl, inr, Option, none, some, Bytes, ◌==◌,
  ==_iff, lookup, if◌then◌else◌, Bool-cases, Option-cases,
}
use mathlib.Core.Option
use vweb.Vmap.{VMap, IsMap}
use vweb.Server.Listeners.{Settings, Server, merged, merge_all, update_config_servers}
use vweb.Server.Listeners.Settled.{update_config_servers_twice}
use vweb.Server.Listeners.Rounds.{IsDistinct}
use vweb.Server.Listeners.Follows.{Updates, Updates-update_config_servers}
use vweb.Server.Sites.{SiteSettings}
use vweb.Server.Life.{
  Config, Disk, Life, Loaded, no_file, unchanged, no_parse, loaded, apply, update_config,
  load_config_file, init_group_resources, start, close, closed,
}
use vweb.Server.Life.Consistent.{Answers, Answers-update_config_sites}

-- What the second of two loads of a file tells.
abbrev pub again : Loaded → Loaded
again loaded = unchanged
again unchanged = unchanged
again no_file = no_file
again no_parse = no_parse

module _ (conf : Settings) (lib : VMap (Server (conf.ConnConf) (conf.ServerConf)))
    (se : SiteSettings) where
  time-update_config :
      (c : Option (Config conf lib se)) (g : Life conf lib se)
      → (update_config conf lib se c g).0.config_file_mod_time ≡ g.config_file_mod_time
  unfolding update_config apply
  time-update_config none g = refl
  time-update_config (some c) g = by_run g.run
    where
      s : Life conf lib se
      s = record g { config = some c }

      by_run :
          (b : Bool)
          → (if b then apply conf lib se c s else s).config_file_mod_time ≡ g.config_file_mod_time
      by_run true = refl
      by_run false = refl

  -- A load that changes nothing tells the same again.
  load_same :
      (disk : Disk conf lib se) (p : Bytes) (g : Life conf lib se) (o : Loaded)
      → again o ≡ o
      → load_config_file conf lib se disk p g ≡ (g, o)
      → load_config_file conf lib se disk p (load_config_file conf lib se disk p g).0 ≡ (
        (load_config_file conf lib se disk p g).0,
        again (load_config_file conf lib se disk p g).1,
      )
  load_same disk p g o e q =
      subst (λ r. load_config_file conf lib se disk p r.0 ≡ (r.0, again r.1)) (sym q)
        (q ∙ ap (λ x. (g, x)) (sym e))

  -- A group that runs applies the configuration that it is given.
  given :
      (c : Config conf lib se) (g : Life conf lib se)
      → g.run ≡ true
      → (update_config conf lib se (some c) g).0
        ≡ apply conf lib se c (record g { config = some c })
  unfolding update_config
  given c g run = rw run

  servers-kept :
      (c : Config conf lib se) (s : Life conf lib se)
      → s.run ≡ true
      → (update_config conf lib se (apply conf lib se c s).config (apply conf lib se c s)).0.servers
        ≡ update_config_servers conf lib
            (merge_all conf lib c.listen)
            (update_config_servers conf lib c.listen s.servers)
  unfolding update_config apply
  servers-kept c s run = rw run

  -- For a group that runs and a configuration with distinct addresses, if equal settings are found to
  -- be equal, every TLS file can be loaded, and merging the public settings into settings that have them
  -- already changes nothing: when the group is given this configuration, each address has what an update
  -- makes of its old server and of its merged settings, or no server if the configuration does not have
  -- it; and when it is then given the configuration that it keeps, with the merged listeners written
  -- back, nothing of its servers changes. The second time starts and stops none.
  pub update_config-kept :
      (laws : IsMap lib)
      → ((c : conf.ConnConf) → conf.same_conn c c ≡ true)
      → ((s : conf.ServerConf) → conf.same_server s s ≡ true)
      → ((s : conf.ServerConf) → conf.tls_fails s ≡ false)
      → ((c : conf.ConnConf) → conf.merge_conn (conf.merge_conn c) ≡ conf.merge_conn c)
      → ((s : conf.ServerConf) → conf.merge_server (conf.merge_server s) ≡ conf.merge_server s)
      → (c : Config conf lib se) (g : Life conf lib se) → g.run ≡ true
      → IsDistinct c.listen
      → ((j : Bytes)
          → Updates conf lib laws g.servers.next
              (Option.map (merged conf lib) (lookup j c.listen))
              (lib.get_has g.servers.srv_man j)
              (lib.get_has (update_config conf lib se (some c) g).0.servers.srv_man j))
        × ((update_config conf lib se
              (update_config conf lib se (some c) g).0.config
              (update_config conf lib se (some c) g).0).0.servers
            ≡ (update_config conf lib se (some c) g).0.servers)
  unfolding apply
  update_config-kept laws conn_refl server_refl loads conn server c g run d =
      let s = record g { config = some c } in
      subst
        (λ t.
          ((j : Bytes)
            → Updates conf lib laws g.servers.next
                (Option.map (merged conf lib) (lookup j c.listen)) (lib.get_has g.servers.srv_man j)
                (lib.get_has t.servers.srv_man j))
          × ((update_config conf lib se t.config t).0.servers ≡ t.servers))
        (sym (given c g run))
        (
          λ j. Updates-update_config_servers conf lib laws c.listen g.servers j d,
          servers-kept c s run
              ∙ update_config_servers_twice conf lib laws conn_refl server_refl loads conn server
                  c.listen g.servers d,
        )

  -- A file that is loaded a second time with nothing changed leaves the group as the first load did. It
  -- tells that the file is unchanged if the first load applied it or told so, and the same error as the
  -- first if the file is not there or cannot be parsed.
  pub load_config_file-again :
      (disk : Disk conf lib se) (p : Bytes) (g : Life conf lib se)
      → load_config_file conf lib se disk p (load_config_file conf lib se disk p g).0 ≡ (
        (load_config_file conf lib se disk p g).0,
        again (load_config_file conf lib se disk p g).1,
      )
  unfolding load_config_file
  load_config_file-again disk p g = elim (Option-cases (disk.stat p)) [
    | inl e ↦ load_same disk p g no_file refl (rw (e, load_config_file))
    | inr (time, e) ↦ elim (Bool-cases (time == g.config_file_mod_time)) [
      | inl t ↦ load_same disk p g unchanged refl (rw (e, load_config_file, t))
      | inr t ↦ elim (Option-cases (disk.parse_files p)) [
        | inl q ↦ load_same disk p g no_parse refl (rw (e, load_config_file, t, q))
        | inr (c, q) ↦
            let s = record g { config_file_mod_time = time } in
            let x = (update_config conf lib se (some c) s).0 in
            let first : load_config_file conf lib se disk p g ≡ (x, loaded) =
              rw (e, load_config_file, t, q) in
            let known : (time == x.config_file_mod_time) ≡ true =
              (==_iff time x.config_file_mod_time).1 (sym (time-update_config (some c) s)) in
            subst (λ r. load_config_file conf lib se disk p r.0 ≡ (r.0, again r.1)) (sym first)
              (rw (e, load_config_file, known))
      ]
    ]
  ]

module _ (conf : Settings) (lib : VMap (Server (conf.ConnConf) (conf.ServerConf)))
    (laws : IsMap lib) (se : SiteSettings) where
  -- A group that runs with the configuration c, has the sites that c asks for, and at each address
  -- what an update makes of no server.
  pub record Restarted (c : Config conf lib se) (g s : Life conf lib se) : Type 0 where
    pub run : s.run ≡ true
    pub waits : s.waits ≡ true
    pub sites : Answers conf lib laws se (some c) s.sites
    pub servers :
        (j : Bytes)
        → Updates conf lib laws g.servers.next
            (Option.map (merged conf lib) (lookup j c.listen))
            none
            (lib.get_has (s.servers.srv_man) j)

  Restarted-closed :
      (c : Config conf lib se) (g : Life conf lib se)
      → IsDistinct c.listen
      → Restarted c g (start conf lib se (record (closed conf lib se g) { config = some c })).0
  unfolding start closed init_group_resources update_config apply lookup
  Restarted-closed c g d = record {
    run = refl;
    waits = refl;
    sites = Answers-update_config_sites conf lib laws se c _ (λ i p e. absurd (cc e));
    servers = λ j.
        let old = record (g.servers) {
          srv_man = lib.empty;
          stopped = (closed conf lib se g).servers.stopped;
        } in
        subst
          (λ o.
            Updates conf lib laws g.servers.next (Option.map (merged conf lib) (lookup j c.listen))
              o (lib.get_has ((update_config_servers conf lib c.listen old).srv_man) j))
          (laws.get_has-empty j) (Updates-update_config_servers conf lib laws c.listen old j d);
  }

  -- A group that runs with a configuration of distinct addresses can be closed and then started again,
  -- both without an error, and the Start waits. If all sites have an identity, the pool then has a site
  -- for an identity exactly if a setting of it is on, this site shows what is merged of the last of these,
  -- and each host has the site of the last setting that is on and lists it, or none. Each address has a
  -- fresh server with its merged settings, none if it is off or its TLS files cannot be loaded, and no
  -- other address has one.
  pub close-start :
      (c : Config conf lib se) (g : Life conf lib se)
      → g.run ≡ true
      → g.config ≡ some c
      → IsDistinct c.listen
      → ((close conf lib se g).1 ≡ true)
        × ((start conf lib se (close conf lib se g).0).1 ≡ true)
        × Restarted c g (start conf lib se (close conf lib se g).0).0
  unfolding close start closed
  close-start c g run conf_eq d =
      let ended : close conf lib se g ≡ (closed conf lib se g, true) = rw (run, close) in
      subst
        (λ r.
          (r.1 ≡ true)
          × ((start conf lib se r.0).1 ≡ true)
          × Restarted c g (start conf lib se r.0).0)
        (sym ended)
        (
          refl,
          refl,
          subst
              (λ o.
                Restarted c g (start conf lib se (record (closed conf lib se g) { config = o })).0)
              (sym conf_eq) (Restarted-closed c g d),
        )
