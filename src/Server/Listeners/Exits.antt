-- ===== src/Server/Listeners/Exits.antt =====
-- The goroutine of a server that was replaced does not take the new one out of the map.
use mathlib.Core.Option
use vweb.Common.{
  inl, inr, ℕ, ◌<◌, ◌≡◌, sym, ◌∙◌, subst, false, Option, none, some, List, arith, Bytes, ◌==◌,
  lookup, some_inj,
}
use vweb.Vmap.{VMap, IsMap}
use vweb.Server.Listeners.{
  Settings, Server, Srv, Lis, State, merged, update_config_servers, serve_exit,
}
use vweb.Server.Listeners.Rounds.{IsDistinct, Follows, off, kept, failed, fresh, at}
use vweb.Server.Listeners.Follows.{Updates, Updates-update_config_servers}
use vweb.Server.Listeners.Changes.{HasSettings, HasOther}

module _ (conf : Settings) (lib : VMap (Server (conf.ConnConf) (conf.ServerConf)))
    (laws : IsMap lib) where
  pub serve_exit-none :
      (j : Bytes) (id : ℕ) (g : State conf lib)
      → at conf lib laws j g ≡ none
      → serve_exit conf lib j id g ≡ g
  unfolding serve_exit
  serve_exit-none j id g e = rw (e, serve_exit)

  serve_exit-other :
      (j : Bytes) (id : ℕ) (g : State conf lib) (cur : Srv conf lib)
      → at conf lib laws j g ≡ some cur
      → id < cur.id
      → serve_exit conf lib j id g ≡ g
  unfolding serve_exit
  serve_exit-other j id g cur e h =
      let d : (cur.id == id) ≡ false = ground arith in rw (e, serve_exit, d)

  serve_exit-Follows :
      (j : Bytes) (n : ℕ) (srv : Srv conf lib) (cl : Lis conf lib) (old : Option (Srv conf lib))
      (g : State conf lib)
      → old ≡ some srv
      → srv.id < n
      → HasOther conf lib cl srv
      → Follows conf lib laws n cl old (at conf lib laws j g)
      → serve_exit conf lib j srv.id g ≡ g
  serve_exit-Follows j n srv cl old g o h c (off s e) = serve_exit-none j srv.id g e
  serve_exit-Follows j n srv cl old g o h c (kept srv' s o' c' e) =
      let same_srv : srv ≡ srv' = some_inj (sym o ∙ o') in
      let has = subst (HasSettings conf lib cl) (sym same_srv) c' in
      absurd (elim c [ inl x ↦ cc (x, has.0) | inr y ↦ cc (y, has.1) ])
  serve_exit-Follows j n srv cl old g o h c (failed s k t e) = serve_exit-none j srv.id g e
  serve_exit-Follows j n srv cl old g o h c (fresh id s k t l e) =
      serve_exit-other j srv.id g
        (record { id = id; c_conn = some cl.cc; c_server = some cl.cs; running = false }) e
        (omega arith)

  -- For a configuration with distinct addresses, and a server of an address with other settings than
  -- the merged ones of the configuration: when the goroutine of that server ends after the update,
  -- nothing of the new state changes.
  pub serve_exit-update_config_servers :
      (listen : List (Bytes × Lis conf lib)) (g : State conf lib) (j : Bytes) (cl : Lis conf lib)
      (srv : Srv conf lib)
      → IsDistinct listen
      → lookup j listen ≡ some cl
      → lib.get_has g.srv_man j ≡ some srv
      → srv.id < g.next
      → HasOther conf lib (merged conf lib cl) srv
      → serve_exit conf lib j srv.id (update_config_servers conf lib listen g)
        ≡ update_config_servers conf lib listen g
  serve_exit-update_config_servers listen g j cl srv d l o h c =
      serve_exit-Follows j g.next srv (merged conf lib cl) (lib.get_has g.srv_man j)
        (update_config_servers conf lib listen g) o h c
        (subst
          (λ x.
            Updates conf lib laws g.next (Option.map (merged conf lib) x) (at conf lib laws j g)
              (at conf lib laws j (update_config_servers conf lib listen g)))
          l (Updates-update_config_servers conf lib laws listen g j d))
