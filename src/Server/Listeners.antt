-- ===== src/Server/Listeners.antt =====
-- server/Server.go: the listeners of a Group. A configuration is applied by stopping what it does not
-- have and by starting or restarting what it has otherwise. `srv_man` is a vmap.Map of servers that
-- are not nil; what goes to the log is left out.
pub mod Changes
pub mod Rounds
pub mod Follows
pub mod Settled
pub mod Exits
mod Tests
use vweb.Common.{
  ℕ, ◌+◌, Bool, true, false, not, ◌||◌, Option, none, some, List, [], ◌∷◌, Bytes, ◌==◌, lookup,
  if◌then◌else◌,
}
use vweb.Vmap.{VMap}

-- Package config: the settings of connections and of a server with their zero values, reflect.DeepEqual
-- on them, what merging the public settings makes of them, whether their TLS files cannot be
-- loaded, and ShutdownConn.
pub record Settings : Type 1 where
  pub ConnConf : Type 0
  pub ServerConf : Type 0
  pub no_conn : ConnConf
  pub no_server : ServerConf
  pub same_conn : ConnConf → ConnConf → Bool
  pub same_server : ServerConf → ServerConf → Bool
  pub merge_conn : ConnConf → ConnConf
  pub merge_server : ServerConf → ServerConf
  pub tls_fails : ServerConf → Bool
  pub shutdown_conn : ServerConf → Bool

-- A *Server; `id` tells the pointers apart, `running` is `status`.
pub record Server (C S : Type 0) : Type 0 where
  pub id : ℕ
  pub c_conn : Option C
  pub c_server : Option S
  pub running : Bool

pub record Listen (C S : Type 0) : Type 0 where
  pub status : Bool
  pub cc : C
  pub cs : S

-- `started` and `stopped` list the servers whose goroutine was started and that were shut down or
-- closed, the last one first; `stopped` with whether it waits for the requests in progress.
pub record Group (M : Type 0) : Type 0 where
  pub srv_man : M
  pub next : ℕ
  pub started : List ℕ
  pub stopped : List (ℕ × Bool)

module _ (conf : Settings) (lib : VMap (Server (conf.ConnConf) (conf.ServerConf))) where
  abbrev pub Srv : Type 0
  Srv = Server (conf.ConnConf) (conf.ServerConf)

  abbrev pub Lis : Type 0
  Lis = Listen (conf.ConnConf) (conf.ServerConf)

  abbrev pub State : Type 0
  State = Group lib.Map

  unfoldable pub new_server : Bytes → State → Srv × State
  new_server laddr g = elim (lib.get_has g.srv_man laddr) [
    | some srv ↦ (srv, g)
    | none ↦ (
      record { id = g.next; c_conn = none; c_server = none; running = false },
      record g { next = g.next + 1 },
    )
  ]

  -- ConfigConn and ConfigServer of a server that does not run.
  abbrev pub configured : Lis → Srv → Srv
  configured cl srv = record srv { c_conn = some cl.cc; c_server = some cl.cs }

  -- The write to a server that is in the map already, which is a pointer.
  abbrev pub write_back : Bytes → Srv → State → State
  write_back laddr srv g = elim (lib.get_has g.srv_man laddr) [
    | none ↦ g
    | some old ↦ record g { srv_man = lib.set g.srv_man laddr srv }
  ]

  abbrev pub start_with : Bytes → Lis → Srv × State → State × Bool
  start_with laddr cl (srv, g) =
      if srv.running
      then (g, false)
      else if conf.tls_fails cl.cs
      then (write_back laddr (configured cl srv) g, false)
      else (
        record g {
          srv_man = lib.set g.srv_man laddr (configured cl srv);
          started = srv.id ∷ g.started;
        },
        true,
      )

  -- listenStart; `false` is an error.
  unfoldable pub listen_start : Bytes → Lis → State → State × Bool
  unfolding new_server
  listen_start laddr cl g = start_with laddr cl (new_server laddr g)

  abbrev pub is_graceful : Srv → Bool
  is_graceful srv = elim srv.c_server [ none ↦ false | some cs ↦ conf.shutdown_conn cs ]

  unfoldable pub listen_stop : Bytes → State → State
  listen_stop laddr g = elim (lib.get_has g.srv_man laddr) [
    | none ↦ g
    | some srv ↦ record g {
      srv_man = lib.del g.srv_man laddr;
      stopped = (srv.id, is_graceful srv) ∷ g.stopped;
    }
  ]

  -- The end of the goroutine of a server: it leaves the map if it is still the one there. `addr` is
  -- what its field Addr is by then.
  unfoldable pub serve_exit : Bytes → ℕ → State → State
  serve_exit addr id g = elim (lib.get_has g.srv_man addr) [
    | none ↦ g
    | some cur ↦ if cur.id == id then record g { srv_man = lib.del g.srv_man addr } else g
  ]

  -- The first loop: the public settings, for the listeners that are on.
  abbrev pub merged : Lis → Lis
  merged cl =
      if cl.status
      then record cl { cc = conf.merge_conn cl.cc; cs = conf.merge_server cl.cs }
      else cl

  unfoldable pub merge_all : List (Bytes × Lis) → List (Bytes × Lis)
  merge_all [] = []
  merge_all ((laddr, cl) ∷ listen) = (laddr, merged cl) ∷ merge_all listen

  -- The second: the servers of which the configuration has no address.
  unfoldable pub stop_missing : List (Bytes × Srv) → List (Bytes × Lis) → State → State
  unfolding listen_stop
  stop_missing [] listen g = g
  stop_missing ((ip, srv) ∷ es) listen g = elim (lookup ip listen) [
    | none ↦ stop_missing es listen (listen_stop ip g)
    | some cl ↦ stop_missing es listen g
  ]

  unfoldable pub is_changed : Srv → Lis → Bool
  is_changed srv cl =
      not (elim srv.c_server [
        | some cs ↦ conf.same_server cs cl.cs
        | none ↦ conf.same_server conf.no_server cl.cs
      ])
      || not (elim srv.c_conn [
        | some cc ↦ conf.same_conn cc cl.cc
        | none ↦ conf.same_conn conf.no_conn cl.cc
      ])

  unfoldable pub restart : Bytes → Lis → State → State
  unfolding listen_stop listen_start
  restart ip cl g = (listen_start ip cl (listen_stop ip g)).0

  -- One round of the third loop.
  unfoldable pub follow : Bytes → Lis → State → State
  unfolding is_changed
  follow laddr cl g =
      if cl.status
      then elim (lib.get_has g.srv_man laddr) [
        | none ↦ (listen_start laddr cl g).0
        | some srv ↦ if is_changed srv cl then restart laddr cl g else g
      ]
      else listen_stop laddr g

  unfoldable pub follow_all : List (Bytes × Lis) → State → State
  follow_all [] g = g
  follow_all ((laddr, cl) ∷ listen) g = follow_all listen (follow laddr cl g)

  -- It writes the merged settings back: the configuration that it leaves has the listeners of
  -- `merge_all listen`.
  unfoldable pub update_config_servers : List (Bytes × Lis) → State → State
  unfolding merge_all stop_missing follow_all
  update_config_servers listen g =
      follow_all (merge_all listen) (stop_missing (lib.entries g.srv_man) (merge_all listen) g)
