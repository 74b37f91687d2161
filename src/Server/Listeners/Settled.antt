-- ===== src/Server/Listeners/Settled.antt =====
-- A configuration that is applied again restarts nothing.
use vweb.Common.{
  ℕ, ◌≡◌, refl, ap, ◌∙◌, subst, Bool, true, false, inl, inr, ◌⊎◌, Option, none, some, List, [], ◌∷◌,
  Bytes, same, same_iff, same_refl, lookup, All, Bool-cases, Option-cases,
}
use vweb.Vmap.{VMap, IsMap}
use vweb.Server.Listeners.{
  Settings, Server, Srv, Lis, State, listen_stop, merged, merge_all, stop_missing, is_changed,
  follow, follow_all, update_config_servers,
}
use vweb.Server.Listeners.Rounds.{IsDistinct, Follows, off, kept, failed, fresh, at}
use vweb.Server.Listeners.Follows.{Updates, Updates-merged, IsDistinct-merge_all}
use vweb.Server.Listeners.Changes.{HasSettings-is_changed}

module _ (conf : Settings) (lib : VMap (Server (conf.ConnConf) (conf.ServerConf)))
    (laws : IsMap lib) where
  -- The server at an address, if there is one, is what the setting asks for.
  abbrev IsSettled : Option (Lis conf lib) → Option (Srv conf lib) → Type 0
  IsSettled none old = old ≡ none
  IsSettled (some cl) old =
      ((cl.status ≡ false) × (old ≡ none))
      ⊎ ((srv : Srv conf lib) × (cl.status ≡ true)
          × (old ≡ some srv)
          × (is_changed conf lib srv cl ≡ false))

  module _ (conn_refl : (c : conf.ConnConf) → conf.same_conn c c ≡ true)
      (server_refl : (s : conf.ServerConf) → conf.same_server s s ≡ true)
      (loads : (s : conf.ServerConf) → conf.tls_fails s ≡ false) where
    IsSettled-of_Follows :
        (n : ℕ) (cl : Lis conf lib) (old new : Option (Srv conf lib))
        → Follows conf lib laws n cl old new
        → IsSettled (some cl) new
    unfolding is_changed
    IsSettled-of_Follows n cl old new (off s e) = inl (s, e)
    IsSettled-of_Follows n cl old new (kept srv s o c e) =
        inr (srv, s, e, HasSettings-is_changed conf lib cl srv c)
    IsSettled-of_Follows n cl old new (failed s o t e) =
        let c : conf.tls_fails cl.cs ≡ false = loads cl.cs in absurd (cc)
    IsSettled-of_Follows n cl old new (fresh id s o t h e) = inr (
      record { id = id; c_conn = some cl.cc; c_server = some cl.cs; running = false },
      s,
      e,
      rw (server_refl cl.cs, conn_refl cl.cc),
    )

    IsSettled-of_Updates :
        (n : ℕ) (o : Option (Lis conf lib)) (old new : Option (Srv conf lib))
        → Updates conf lib laws n o old new
        → IsSettled o new
    IsSettled-of_Updates n none old new u = u
    IsSettled-of_Updates n (some cl) old new u = IsSettled-of_Follows n cl old new u

  follow-IsSettled :
      (k : Bytes) (cl : Lis conf lib) (g : State conf lib)
      → IsSettled (some cl) (at conf lib laws k g)
      → follow conf lib k cl g ≡ g
  unfolding follow listen_stop
  follow-IsSettled k cl g (inl (s, e)) = rw s (rw (e, listen_stop))
  follow-IsSettled k cl g (inr (srv, s, e, c)) = rw (s, follow, e, c)

  follow_all-IsSettled :
      (listen : List (Bytes × Lis conf lib)) (g : State conf lib)
      → IsDistinct listen
      → ((j : Bytes) (cl : Lis conf lib)
          → lookup j listen ≡ some cl
          → IsSettled (some cl) (at conf lib laws j g))
      → follow_all conf lib listen g ≡ g
  unfolding follow_all lookup
  follow_all-IsSettled [] g d h = refl
  follow_all-IsSettled ((k, cl) ∷ listen) g (d, ds) h =
      ap (follow_all conf lib listen) (follow-IsSettled k cl g (h k cl (rw (same_refl k))))
      ∙ follow_all-IsSettled listen g ds (λ j c e. h j c (later j c e (Bool-cases (same k j))))
    where
      later :
          (j : Bytes) (c : Lis conf lib)
          → lookup j listen ≡ some c
          → (same k j ≡ true) ⊎ (same k j ≡ false)
          → lookup j ((k, cl) ∷ listen) ≡ some c
      later j c e (inl s) =
          let n : lookup j listen ≡ none =
            subst (λ x. lookup x listen ≡ none) ((same_iff k j).0 s) d in
          absurd (cc)
      later j c e (inr s) = rw s e

  stop_missing-IsSettled :
      (es : List (Bytes × Srv conf lib)) (listen : List (Bytes × Lis conf lib)) (g : State conf lib)
      → All (λ e. at conf lib laws e.0 g ≡ some e.1) es
      → ((j : Bytes) → lookup j listen ≡ none → at conf lib laws j g ≡ none)
      → stop_missing conf lib es listen g ≡ g
  unfolding stop_missing
  stop_missing-IsSettled [] listen g s h = refl
  stop_missing-IsSettled ((ip, srv) ∷ es) listen g (s, ss) h =
      elim (Option-cases (lookup ip listen)) [
        | inl e ↦ let c = h ip e in absurd (cc)
        | inr (cl, e) ↦ rw (e, stop_missing) (stop_missing-IsSettled es listen g ss h)
      ]

  -- Merging settings that are merged changes nothing.
  merge_all-merge_all :
      ((c : conf.ConnConf) → conf.merge_conn (conf.merge_conn c) ≡ conf.merge_conn c)
      → ((s : conf.ServerConf) → conf.merge_server (conf.merge_server s) ≡ conf.merge_server s)
      → (listen : List (Bytes × Lis conf lib))
      → merge_all conf lib (merge_all conf lib listen) ≡ merge_all conf lib listen
  unfolding merge_all
  merge_all-merge_all conn server [] = refl
  merge_all-merge_all conn server ((k, cl) ∷ listen) =
      ap (λ l. (k, l) ∷ merge_all conf lib (merge_all conf lib listen))
        (merged_again cl.status cl.cc cl.cs)
      ∙ ap (λ ls. (k, merged conf lib cl) ∷ ls) (merge_all-merge_all conn server listen)
    where
      merged_again :
          (b : Bool) (c : conf.ConnConf) (s : conf.ServerConf)
          → merged conf lib (merged conf lib (record { status = b; cc = c; cs = s }))
            ≡ merged conf lib (record { status = b; cc = c; cs = s })
      merged_again true c s =
          ap (λ x. record { status = true; cc = x; cs = conf.merge_server (conf.merge_server s) })
            (conn c)
          ∙ ap (λ x. record { status = true; cc = conf.merge_conn c; cs = x }) (server s)
      merged_again false c s = refl

  -- If equal settings are found to be equal, every TLS file can be loaded, and merging the public
  -- settings into settings that have them already changes nothing: an update with the configuration
  -- that another update leaves, whose merged listeners are written back into it, changes nothing at
  -- all, if the addresses are distinct. It starts and stops no server.
  pub update_config_servers_twice :
      ((c : conf.ConnConf) → conf.same_conn c c ≡ true)
      → ((s : conf.ServerConf) → conf.same_server s s ≡ true)
      → ((s : conf.ServerConf) → conf.tls_fails s ≡ false)
      → ((c : conf.ConnConf) → conf.merge_conn (conf.merge_conn c) ≡ conf.merge_conn c)
      → ((s : conf.ServerConf) → conf.merge_server (conf.merge_server s) ≡ conf.merge_server s)
      → (listen : List (Bytes × Lis conf lib)) (g : State conf lib) → IsDistinct listen
      → update_config_servers conf lib
          (merge_all conf lib listen)
          (update_config_servers conf lib listen g)
        ≡ update_config_servers conf lib listen g
  unfolding update_config_servers
  update_config_servers_twice conn_refl server_refl loads conn server listen g d =
      let ls = merge_all conf lib listen in
      let ds = IsDistinct-merge_all conf lib laws listen d in
      let g' = update_config_servers conf lib listen g in
      let settled = λ (j : Bytes).
        IsSettled-of_Updates conn_refl server_refl loads g.next (lookup j ls) (at conf lib laws j g)
          (at conf lib laws j g') (Updates-merged conf lib laws ls g j ds) in
      ap
        (λ again.
          follow_all conf lib again (stop_missing conf lib (lib.entries g'.srv_man) again g'))
        (merge_all-merge_all conn server listen)
      ∙ ap (follow_all conf lib ls) (
          stop_missing-IsSettled (lib.entries g'.srv_man) ls g' (laws.entries-sound g'.srv_man)
            (λ j e. subst (λ o. IsSettled o (at conf lib laws j g')) e (settled j)))
      ∙ follow_all-IsSettled ls g' ds
          (λ j cl e. subst (λ o. IsSettled o (at conf lib laws j g')) e (settled j))
