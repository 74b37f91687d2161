-- ===== src/Server/Listeners/Tests.antt =====
-- Listeners: runs, and the theorems at concrete inputs.
use mathlib.Core.Option
use vweb.Common.{
  max, ℕ, ◌≡◌, refl, inl, true, false, some, List, [], ◌∷◌, arith, Bytes, codes, ◌==◌, lookup,
  insert, erase, same,
}
use vweb.Vmap.Assoc.{visits, assoc, assoc-IsMap}
use vweb.Server.Listeners.{
  Settings, Server, Listen, Group, merged, is_changed, listen_start, follow, restart,
  update_config_servers, serve_exit,
}
use vweb.Server.Listeners.Rounds.{IsDistinct}
use vweb.Server.Listeners.Follows.{Updates, Updates-update_config_servers}
use vweb.Server.Listeners.Exits.{serve_exit-update_config_servers}

-- Settings are numbers; the public setting of a connection is 1, which stands for 0.
abbrev settings : Settings
settings = record {
  ConnConf = ℕ;
  ServerConf = ℕ;
  no_conn = 0;
  no_server = 0;
  same_conn = λ a b. a == b;
  same_server = λ a b. a == b;
  merge_conn = λ c. max c 1;
  merge_server = λ s. s;
  tls_fails = λ s. false;
  shutdown_conn = λ s. s == 7;
}

abbrev servers : List (Bytes × Server ℕ ℕ)
servers =
    (codes ":80", record { id = 0; c_conn = some 1; c_server = some 7; running = true })
    ∷ (codes ":81", record { id = 1; c_conn = some 1; c_server = some 1; running = true })
    ∷ (codes ":82", record { id = 2; c_conn = some 1; c_server = some 1; running = true })
    ∷ []

abbrev group : Group (List (Bytes × Server ℕ ℕ))
group = record { srv_man = servers; next = 3; started = []; stopped = [] }

-- :80 has other settings, :81 the same after the merging, :82 is gone and :83 is new.
abbrev listen : List (Bytes × Listen ℕ ℕ)
listen =
    (codes ":80", record { status = true; cc = 1; cs = 2 })
    ∷ (codes ":81", record { status = true; cc = 0; cs = 1 })
    ∷ (codes ":83", record { status = true; cc = 1; cs = 1 })
    ∷ []

listen-IsDistinct : IsDistinct listen
unfolding lookup same
listen-IsDistinct = (refl, (refl, (refl, tt)))

update_test :
    ((update_config_servers settings (assoc (Server ℕ ℕ)) listen group).started ≡ 4 ∷ 3 ∷ [])
    × ((update_config_servers settings (assoc (Server ℕ ℕ)) listen group).stopped
        ≡ (0, true) ∷ (2, false) ∷ [])
unfolding update_config_servers listen_start follow restart visits lookup insert erase same
update_test = (refl, refl)

Updates-update_config_servers_example :
    Updates settings
      (assoc (Server ℕ ℕ))
      (assoc-IsMap (Server ℕ ℕ))
      3
      (Option.map (merged settings (assoc (Server ℕ ℕ))) (lookup (codes ":80") listen))
      (lookup (codes ":80") servers)
      (lookup
        (codes ":80")
        (update_config_servers settings (assoc (Server ℕ ℕ)) listen group).srv_man)
Updates-update_config_servers_example =
    Updates-update_config_servers settings (assoc (Server ℕ ℕ)) (assoc-IsMap (Server ℕ ℕ)) listen
      group (codes ":80") listen-IsDistinct

serve_exit-update_config_servers_example :
    serve_exit settings
      (assoc (Server ℕ ℕ))
      (codes ":80")
      0
      (update_config_servers settings (assoc (Server ℕ ℕ)) listen group)
    ≡ update_config_servers settings (assoc (Server ℕ ℕ)) listen group
unfolding lookup same is_changed
serve_exit-update_config_servers_example =
    serve_exit-update_config_servers settings (assoc (Server ℕ ℕ)) (assoc-IsMap (Server ℕ ℕ)) listen
      group (codes ":80") (record { status = true; cc = 1; cs = 2 })
      (record { id = 0; c_conn = some 1; c_server = some 7; running = true }) listen-IsDistinct refl
      refl (omega arith) (inl refl)
