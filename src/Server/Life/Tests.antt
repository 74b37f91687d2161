-- ===== src/Server/Life/Tests.antt =====
-- The life of a group: runs, and the theorems at concrete inputs.
use mathlib.Core.Option
use vweb.Server.Listeners.Follows.{Updates}
use vweb.Common.{
  Bytes, arith, max, ℕ, ◌≡◌, refl, true, false, none, some, [], ◌∷◌, codes, ◌==◌, lookup,
}
use vweb.Vmap.Assoc.{assoc, assoc-IsMap}
use vweb.Server.Listeners.{Settings, Server, merged}
use vweb.Server.Plugins.{PluginKind}
use vweb.Server.Sites.{SiteSettings}
use vweb.Server.Life.{
  Config, Disk, Life, unchanged, no_parse, loaded, new_group, update_config, load_config_file,
  start, close,
}
use vweb.Server.Life.Again.{update_config-kept, load_config_file-again, Restarted, close-start}

abbrev listeners : Settings
listeners = record {
  ConnConf = Unit;
  ServerConf = ℕ;
  no_conn = tt;
  no_server = 0;
  same_conn = λ a b. true;
  same_server = λ a b. a == b;
  merge_conn = λ c. c;
  merge_server = λ s. max s 6;
  tls_fails = λ s. false;
  shutdown_conn = λ s. false;
}

abbrev kind : PluginKind
kind = record {
  Conf = Unit;
  Client = Unit;
  new_client = tt;
  merge = λ p. none;
  configure = λ p c. (c, true);
}

abbrev settings : SiteSettings
settings = record {
  Session = Unit;
  Header = Unit;
  Forward = Unit;
  Dynamic = Unit;
  Rest = Unit;
  new_session = tt;
  merge_session = λ s. s;
  merge_header = λ h. h;
  merge_forward = λ f. none;
  merge_dynamic = λ d. d;
  http = kind;
  rpc = kind;
}

abbrev config : Config listeners (assoc (Server Unit ℕ)) settings
config = record {
  listen = (codes ":80", record { status = true; cc = tt; cs = 5 }) ∷ [];
  site =
      record {
        status = true;
        identity = codes "a";
        host = codes "x.com" ∷ [];
        root_dir = codes "/www";
        session = record { expired = 60; options = tt };
        header = tt;
        http = [];
        rpc = [];
        forward = [];
        dynamic = record { cache_parse_timeout = 1; cache_static_timeout = 0; options = tt };
        rest = tt;
      }
      ∷ [];
}

-- The configuration file cannot be parsed at time 1, and can at time 2.
abbrev broken : Disk listeners (assoc (Server Unit ℕ)) settings
broken = record { stat = λ p. some 1; parse_files = λ p. none }

abbrev mended : Disk listeners (assoc (Server Unit ℕ)) settings
mended = record { stat = λ p. some 2; parse_files = λ p. some config }

abbrev idle_group : Life listeners (assoc (Server Unit ℕ)) settings
idle_group = new_group listeners (assoc (Server Unit ℕ)) settings

abbrev running_group : Life listeners (assoc (Server Unit ℕ)) settings
running_group = record idle_group { run = true; waits = true; config = some config }

load_test :
    ((load_config_file listeners (assoc (Server Unit ℕ)) settings broken (codes "f") idle_group).1
      ≡ no_parse)
    × ((load_config_file listeners (assoc (Server Unit ℕ)) settings mended (codes "f") idle_group).1
        ≡ loaded)
    × ((close listeners (assoc (Server Unit ℕ)) settings idle_group).1 ≡ false)
    × ((start listeners (assoc (Server Unit ℕ)) settings running_group).1 ≡ false)
unfolding load_config_file close start
load_test = (refl, refl, refl, refl)

load_config_file-again_example :
    load_config_file listeners
      (assoc (Server Unit ℕ))
      settings
      mended
      (codes "f")
      (load_config_file listeners (assoc (Server Unit ℕ)) settings mended (codes "f") idle_group).0
    ≡ (
      (load_config_file listeners (assoc (Server Unit ℕ)) settings mended (codes "f") idle_group).0,
      unchanged,
    )
unfolding load_config_file
load_config_file-again_example =
    load_config_file-again listeners (assoc (Server Unit ℕ)) settings mended (codes "f") idle_group

abbrev given_group : Life listeners (assoc (Server Unit ℕ)) settings
given_group =
    (update_config listeners (assoc (Server Unit ℕ)) settings (some config) running_group).0

update_config-kept_example :
    ((j : Bytes)
      → Updates listeners
          (assoc (Server Unit ℕ))
          (assoc-IsMap (Server Unit ℕ))
          0
          (Option.map (merged listeners (assoc (Server Unit ℕ))) (lookup j config.listen))
          (lookup j running_group.servers.srv_man)
          (lookup j given_group.servers.srv_man))
    × ((update_config listeners
          (assoc (Server Unit ℕ))
          settings
          given_group.config
          given_group).0.servers
        ≡ given_group.servers)
unfolding lookup
update_config-kept_example =
    update_config-kept listeners (assoc (Server Unit ℕ)) settings (assoc-IsMap (Server Unit ℕ))
      (λ c. refl) (λ s. ground arith) (λ s. refl) (λ c. refl) (λ s. omega arith) config
      running_group refl (refl, tt)

close-start_example :
    ((close listeners (assoc (Server Unit ℕ)) settings running_group).1 ≡ true)
    × ((start listeners
          (assoc (Server Unit ℕ))
          settings
          (close listeners (assoc (Server Unit ℕ)) settings running_group).0).1
        ≡ true)
    × Restarted listeners
        (assoc (Server Unit ℕ))
        (assoc-IsMap (Server Unit ℕ))
        settings
        config
        running_group
        (start listeners
          (assoc (Server Unit ℕ))
          settings
          (close listeners (assoc (Server Unit ℕ)) settings running_group).0).0
unfolding lookup
close-start_example =
    close-start listeners (assoc (Server Unit ℕ)) (assoc-IsMap (Server Unit ℕ)) settings config
      running_group refl refl (refl, tt)
