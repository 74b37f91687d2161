-- ===== src/Server/Life.antt =====
-- server/Server.go: the life of a Group, from Start over new configurations to Close. `waits` says
-- whether a Start waits at its channel; each operation runs without another one in between.
pub mod Consistent
pub mod Starts
pub mod Again
mod Tests
use vweb.Common.{
  ℕ, Bool, true, false, Option, none, some, List, [], ◌∷◌, ◌++◌, Bytes, ◌==◌, map, if◌then◌else◌,
}
use vweb.Vmap.{VMap}
use vweb.Server.Listeners.{
  Settings, Server, State, Lis, Srv, merge_all, update_config_servers, serve_exit,
}
use vweb.Server.Sites.{SiteSettings, Site, Sites, fresh, update_site_pool_del, update_config_sites}

-- How a load of a file ended.
pub data Loaded : Type 0 where
  no_file : Loaded
  unchanged : Loaded
  no_parse : Loaded
  loaded : Loaded

module _ (conf : Settings) (lib : VMap (Server (conf.ConnConf) (conf.ServerConf)))
    (se : SiteSettings) where
  pub record Config : Type 0 where
    pub listen : List (Bytes × Lis conf lib)
    pub site : List (Site se)

  -- What os.Stat gives of a file, its time, counted from the zero of package time, and what
  -- ParseFiles reads of it.
  pub record Disk : Type 0 where
    pub stat : Bytes → Option ℕ
    pub parse_files : Bytes → Option Config

  -- `has_pool` is whether sitePool and siteMan are not nil.
  pub record Life : Type 0 where
    pub servers : State conf lib
    pub sites : Sites se
    pub has_pool : Bool
    pub config : Option Config
    pub config_file_mod_time : ℕ
    pub run : Bool
    pub waits : Bool

  -- NewGroup
  abbrev pub new_group : Life
  new_group = record {
    servers = record { srv_man = lib.empty; next = 0; started = []; stopped = [] };
    sites = record { pool = []; man = []; heap = λ p. fresh se []; next = 0 };
    has_pool = true;
    config = none;
    config_file_mod_time = 0;
    run = false;
    waits = false;
  }

  -- The part of UpdateConfig for a group that runs; an error of the sites goes to the log. The
  -- configuration is a pointer, so the group keeps the merged listeners, which are written back into
  -- it; of its sites it keeps the settings as they were given.
  unfoldable pub apply : Config → Life → Life
  unfolding update_config_sites update_config_servers merge_all
  apply c g = record g {
    config = some (record c { listen = merge_all conf lib c.listen });
    sites = (update_config_sites se c.site g.sites).0;
    servers = update_config_servers conf lib c.listen g.servers;
  }

  -- `false` is an error.
  unfoldable pub update_config : Option Config → Life → Life × Bool
  unfolding apply
  update_config none g = (g, false)
  update_config (some c) g =
      let s = record g { config = some c } in (if g.run then apply c s else s, true)

  unfoldable pub load_config_file : Disk → Bytes → Life → Life × Loaded
  unfolding update_config
  load_config_file disk p g = elim (disk.stat p) [
    | none ↦ (g, no_file)
    | some time ↦
        if time == g.config_file_mod_time then (g, unchanged) else elim (disk.parse_files p) [
          | none ↦ (g, no_parse)
          | some c ↦
              let s = record g { config_file_mod_time = time } in
              ((update_config (some c) s).0, loaded)
        ]
  ]

  unfoldable pub init_group_resources : Life → Life
  init_group_resources g =
      if g.has_pool
      then g
      else record g { has_pool = true; sites = record (g.sites) { pool = []; man = [] } }

  -- Start, up to where it waits; `false` is an error.
  unfoldable pub start : Life → Life × Bool
  unfolding init_group_resources update_config
  start g =
      let s = init_group_resources (record g { run = true }) in
      if g.run then (g, false) else (record (update_config s.config s).0 { waits = true }, true)

  -- Close of a group that runs: the servers are closed at once, and all sites are dropped; a Start that waits returns.
  unfoldable pub closed : Life → Life
  unfolding update_site_pool_del
  closed g =
      let ended =
        map (λ (e : Bytes × Srv conf lib). (e.1.id, false)) (lib.entries (g.servers.srv_man)) in
      let servers = record (g.servers) {
        srv_man = lib.empty;
        stopped = ended ++ g.servers.stopped;
      } in
      let sites =
        if g.has_pool
        then record (update_site_pool_del se [] [] g.sites) { man = [] }
        else g.sites in
      record g { run = false; servers = servers; sites = sites; has_pool = false; waits = false }

  -- `false` is an error.
  unfoldable pub close : Life → Life × Bool
  unfolding closed
  close g = if g.run then (closed g, true) else (g, false)

  -- What happens to a group, one call after the other.
  pub data Event : Type 0 where
    updates : Option Config → Event
    loads : Disk → Bytes → Event
    starts : Event
    closes : Event
    exits : Bytes → ℕ → Event

  unfoldable pub happen : Event → Life → Life
  unfolding update_config load_config_file start close serve_exit
  happen (updates c) g = (update_config c g).0
  happen (loads disk p) g = (load_config_file disk p g).0
  happen starts g = (start g).0
  happen closes g = (close g).0
  happen (exits addr id) g = record g { servers = serve_exit conf lib addr id g.servers }

  unfoldable pub happen_all : List Event → Life → Life
  unfolding happen
  happen_all [] g = g
  happen_all (e ∷ es) g = happen_all es (happen e g)
