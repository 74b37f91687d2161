-- ===== src/Server/Listeners/Changes.antt =====
-- Whether the settings of a server changed, by its settings.
use vweb.Common.{
  Bool, not, ◌||◌, ◌≡◌, refl, ap, ◌∙◌, true, false, ◌⊎◌, inl, inr, Option, none, some,
}
use vweb.Vmap.{VMap}
use vweb.Server.Listeners.{Settings, Server, Srv, Lis, is_changed}

module _ (conf : Settings) (lib : VMap (Server (conf.ConnConf) (conf.ServerConf))) where
  -- The settings of a server, and the zero values where it has none.
  abbrev pub server_of : Srv conf lib → conf.ServerConf
  server_of srv = elim srv.c_server [ some cs ↦ cs | none ↦ conf.no_server ]

  abbrev pub conn_of : Srv conf lib → conf.ConnConf
  conn_of srv = elim srv.c_conn [ some cc ↦ cc | none ↦ conf.no_conn ]

  abbrev pub HasSettings : Lis conf lib → Srv conf lib → Type 0
  HasSettings cl srv =
      (conf.same_server (server_of srv) cl.cs ≡ true) × (conf.same_conn (conn_of srv) cl.cc ≡ true)

  abbrev pub HasOther : Lis conf lib → Srv conf lib → Type 0
  HasOther cl srv =
      (conf.same_server (server_of srv) cl.cs ≡ false)
      ⊎ (conf.same_conn (conn_of srv) cl.cc ≡ false)

  pub is_changed-settings :
      (cl : Lis conf lib) (srv : Srv conf lib)
      → is_changed conf lib srv cl
        ≡ not (conf.same_server (server_of srv) cl.cs) || not (conf.same_conn (conn_of srv) cl.cc)
  unfolding is_changed
  is_changed-settings cl srv = by_parts srv.c_server srv.c_conn
    where
      by_parts :
          (s : Option (conf.ServerConf)) (c : Option (conf.ConnConf))
          → not (elim s [
            | some cs ↦ conf.same_server cs cl.cs
            | none ↦ conf.same_server conf.no_server cl.cs
          ])
              || not (elim c [
                | some cc ↦ conf.same_conn cc cl.cc
                | none ↦ conf.same_conn conf.no_conn cl.cc
              ])
            ≡ not (conf.same_server (elim s [ some cs ↦ cs | none ↦ conf.no_server ]) cl.cs)
              || not (conf.same_conn (elim c [ some cc ↦ cc | none ↦ conf.no_conn ]) cl.cc)
      by_parts none none = refl
      by_parts none (some cc) = refl
      by_parts (some cs) none = refl
      by_parts (some cs) (some cc) = refl

  pub neither : (a b : Bool) → not a || not b ≡ false → (a ≡ true) × (b ≡ true)
  neither true true e = (refl, refl)
  neither true false e = absurd (cc e)
  neither false b e = absurd (cc e)

  pub one_of : (a b : Bool) → not a || not b ≡ true → (a ≡ false) ⊎ (b ≡ false)
  one_of true true e = absurd (cc e)
  one_of true false e = inr refl
  one_of false b e = inl refl

  pub HasSettings-is_changed :
      (cl : Lis conf lib) (srv : Srv conf lib)
      → HasSettings cl srv
      → is_changed conf lib srv cl ≡ false
  HasSettings-is_changed cl srv (a, b) =
      is_changed-settings cl srv
      ∙ ap (λ x. not x || not (conf.same_conn (conn_of srv) cl.cc)) a
      ∙ ap not b
