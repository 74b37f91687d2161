-- ===== src/Server/Sites.antt =====
-- server/Server.go: the sites of a Group, and Site.go: SitePool and the sites in it. A *Site is a
-- number, which `heap` gives the content of; what goes to the log is left out.
pub mod Touched
pub mod Effective
pub mod Rounds
pub mod Gathered
pub mod Dropped
pub mod Serves
pub mod Refused
mod Tests
use vweb.Common.{
  ℕ, ◌+◌, ◌*◌, ◌%◌, ◌^◌, Bool, true, false, ◌||◌, ◌&&◌, not, Option, none, some, List, [], ◌∷◌,
  ◌++◌, Bytes, ◌==◌, same, lookup, insert, erase, is_empty, if◌then◌else◌,
}
use vweb.Vmap.Assoc.{visits}
use vweb.Domain
use vweb.Server.Plugins.{Plugin, PluginKind, str_slice_contains, merge_plugins, update_plugins}

pub record SiteSession (A : Type 0) : Type 0 where
  pub expired : ℕ
  pub options : A

pub record SiteDynamic (A : Type 0) : Type 0 where
  pub cache_parse_timeout : ℕ
  pub cache_static_timeout : ℕ
  pub options : A

-- The types of package config and what merging the public settings makes of them; `merge_forward` is
-- none where there is nothing to merge or it fails. `Rest` is what is not read here.
pub record SiteSettings : Type 1 where
  pub Session : Type 0
  pub Header : Type 0
  pub Forward : Type 0
  pub Dynamic : Type 0
  pub Rest : Type 0
  pub new_session : Session
  pub merge_session : SiteSession Session → SiteSession Session
  pub merge_header : Header → Header
  pub merge_forward : Forward → Option Forward
  pub merge_dynamic : SiteDynamic Dynamic → SiteDynamic Dynamic
  pub http : PluginKind
  pub rpc : PluginKind

-- An int64 is its bits here: seconds are multiplied by time.Second and wrap around.
unfoldable pub nanoseconds : ℕ → ℕ
nanoseconds s = s * 1000000000 % 2 ^ 64

-- The method Directory.RootDir of a configuration is told apart by a name, `root_dir`.
pub record Site (se : SiteSettings) : Type 0 where
  pub status : Bool
  pub identity : Bytes
  pub host : List Bytes
  pub root_dir : Bytes
  pub session : SiteSession (se.Session)
  pub header : se.Header
  pub http : List (Bytes × Plugin (se.http.Conf))
  pub rpc : List (Bytes × Plugin (se.rpc.Conf))
  pub forward : List (Bytes × se.Forward)
  pub dynamic : SiteDynamic (se.Dynamic)
  pub rest : se.Rest

-- siteExtendInfo; `dynamic_cache` holds the names of the pages.
pub record Extend (se : SiteSettings) : Type 0 where
  pub config_site : Option (Site se)
  pub http : List (Bytes × se.http.Client)
  pub rpc : List (Bytes × se.rpc.Client)
  pub dynamic_cache : List Bytes

-- What a *vweb.Site points to; `sessions` and `global` hold the names in these tables, and `expired`
-- and `options` the settings of the sessions.
pub record SiteData (se : SiteSettings) : Type 0 where
  pub identity : Bytes
  pub root_dir : Bytes
  pub expired : ℕ
  pub options : se.Session
  pub sessions : List Bytes
  pub global : List Bytes
  pub extend : Option (Extend se)

-- The fields of a Group that these operations use: sitePool, siteMan, and the sites themselves.
pub record Sites (se : SiteSettings) : Type 0 where
  pub pool : List (Bytes × ℕ)
  pub man : List (Bytes × ℕ)
  pub heap : ℕ → SiteData se
  pub next : ℕ

-- Where the loop of updateConfigSites ends, with what it gathered; `ok` is false where it ended
-- early, at a site without an identity.
pub record Round (se : SiteSettings) : Type 0 where
  pub sites : Sites se
  pub ok : Bool
  pub idents : List Bytes
  pub hosts : List Bytes

module _ (se : SiteSettings) where
  unfoldable pub write : ℕ → SiteData se → (ℕ → SiteData se) → ℕ → SiteData se
  write p d heap q = if p == q then d else heap q

  abbrev pub fresh : Bytes → SiteData se
  fresh name = record {
    identity = name;
    root_dir = [];
    expired = 1200 * 1000000000;
    options = se.new_session;
    sessions = [];
    global = [];
    extend = none;
  }

  -- SitePool.NewSite
  unfoldable pub new_site : Bytes → Sites se → ℕ × Sites se
  unfolding write
  new_site name g = elim (lookup name g.pool) [
    | some p ↦ (p, g)
    | none ↦ (
      g.next,
      record g {
        pool = insert name g.next g.pool;
        heap = write g.next (fresh name) g.heap;
        next = g.next + 1;
      },
    )
  ]

  abbrev pub new_extend : Extend se
  new_extend = record { config_site = none; http = []; rpc = []; dynamic_cache = [] }

  unfoldable pub get_site_extend : SiteData se → Extend se
  get_site_extend d = elim d.extend [ none ↦ new_extend | some e ↦ e ]

  -- The loop that merges the forwards of a site.
  unfoldable pub merge_forwards : List (Bytes × se.Forward) → List (Bytes × se.Forward)
  merge_forwards [] = []
  merge_forwards ((name, f) ∷ fs) = elim (se.merge_forward f) [
    | none ↦ (name, f) ∷ merge_forwards fs
    | some q ↦ (name, q) ∷ merge_forwards fs
  ]

  abbrev pub timeouts : SiteDynamic (se.Dynamic) → SiteDynamic (se.Dynamic)
  timeouts d = record d {
    cache_parse_timeout = nanoseconds d.cache_parse_timeout;
    cache_static_timeout = nanoseconds d.cache_static_timeout;
  }

  -- What the settings of a site that is on are merged to.
  unfoldable pub merged : Site se → Site se
  unfolding nanoseconds merge_plugins merge_forwards
  merged c = record c {
    session = se.merge_session c.session;
    header = se.merge_header c.header;
    rpc = merge_plugins se.rpc c.rpc;
    http = merge_plugins se.http c.http;
    forward = merge_forwards c.forward;
    dynamic = timeouts (se.merge_dynamic c.dynamic);
  }

  -- The loop over the hosts of a site.
  unfoldable pub add_hosts : List Bytes → ℕ → List (Bytes × ℕ) → List (Bytes × ℕ)
  unfolding Domain.add
  add_hosts [] site man = man
  add_hosts (host ∷ hosts) site man = add_hosts hosts site (Domain.add man host (some site))

  -- The fields of a site that follow its configuration.
  unfoldable pub set_site : Site se → SiteData se → SiteData se
  unfolding nanoseconds get_site_extend
  set_site c d = record d {
    options = c.session.options;
    expired = nanoseconds c.session.expired;
    root_dir = c.root_dir;
    extend = some (record (get_site_extend d) { config_site = some c });
  }

  unfoldable pub update_site_pool_add : Site se → Sites se → Sites se
  update_site_pool_add c g =
      let (p, s) = new_site c.identity g in
      record s { man = add_hosts c.host p s.man; heap = write p (set_site c (s.heap p)) s.heap }

  -- The plugins and the cached pages of a site; those of a site that is off are dropped.
  unfoldable pub set_plugins : Site se → SiteData se → SiteData se
  unfolding get_site_extend
  set_plugins c d =
      let e = get_site_extend d in
      record d {
        extend = some (record e {
          http = update_plugins se.http c.status c.http e.http;
          rpc = update_plugins se.rpc c.status c.rpc e.rpc;
          dynamic_cache = if c.status then e.dynamic_cache else [];
        });
      }

  unfoldable pub update_ext_info : Site se → Sites se → Sites se
  update_ext_info c g =
      let (p, s) = new_site c.identity g in
      record s { heap = write p (set_plugins c (s.heap p)) s.heap }

  -- The loop of updateSitePoolDel over the hosts.
  unfoldable pub drop_hosts : List (Bytes × ℕ) → List Bytes → List (Bytes × ℕ) → List (Bytes × ℕ)
  unfolding Domain.add
  drop_hosts [] hosts man = man
  drop_hosts ((host, site) ∷ es) hosts man =
      drop_hosts es hosts (if str_slice_contains hosts host then man else Domain.add man host none)

  -- A site that left the pool: the sessions, the global data and the extension are emptied.
  abbrev pub emptied : SiteData se → SiteData se
  emptied d = record d { sessions = []; global = []; extend = none }

  unfoldable pub drop_site : Bytes → ℕ → List Bytes → Sites se → Sites se
  drop_site name p idents g =
      if str_slice_contains idents name
      then g
      else record g { pool = erase name g.pool; heap = write p (emptied (g.heap p)) g.heap }

  -- Its loop over the sites of the pool.
  unfoldable pub drop_sites : List (Bytes × ℕ) → List Bytes → Sites se → Sites se
  unfolding drop_site
  drop_sites [] idents g = g
  drop_sites ((name, p) ∷ es) idents g = drop_sites es idents (drop_site name p idents g)

  unfoldable pub update_site_pool_del : List Bytes → List Bytes → Sites se → Sites se
  unfolding drop_hosts drop_sites
  update_site_pool_del idents hosts g =
      drop_sites (visits ℕ g.pool) idents
        (record g { man = drop_hosts (visits ℕ g.man) hosts g.man })

  -- The loop of updateConfigSites; `idents` and `hosts` are what it gathered before.
  unfoldable pub update_all : List (Site se) → List Bytes → List Bytes → Sites se → Round se
  unfolding merged update_site_pool_add update_ext_info
  update_all [] idents hosts g = record { sites = g; ok = true; idents = idents; hosts = hosts }
  update_all (c ∷ cs) idents hosts g =
      let m = merged c in
      let on =
        update_all cs (idents ++ m.identity ∷ []) (hosts ++ m.host)
          (update_ext_info m (update_site_pool_add m g)) in
      let off = update_all cs idents hosts (update_ext_info c g) in
      if is_empty c.identity
      then record { sites = g; ok = false; idents = idents; hosts = hosts }
      else if c.status
      then on
      else off

  -- `false` is an error.
  unfoldable pub update_config_sites : List (Site se) → Sites se → Sites se × Bool
  unfolding update_all update_site_pool_del
  update_config_sites confs g =
      let r = update_all confs [] [] g in
      if r.ok then (update_site_pool_del r.idents r.hosts r.sites, true) else (r.sites, false)
