-- ===== src/Server/Life/Starts.antt =====
-- Start and Close keep a group consistent, and so does every sequence of calls.
use vweb.Common.{◌≡◌, true}
use vweb.Vmap.{VMap, IsMap}
use vweb.Server.Listeners.{Settings, Server}
use vweb.Server.Sites.{SiteSettings, Sites}
use vweb.Server.Sites.Touched.{IsNamed}
use vweb.Server.Life.{Life}

module _ (conf : Settings) (lib : VMap (Server (conf.ConnConf) (conf.ServerConf)))
    (laws : IsMap lib) (se : SiteSettings) where
  -- What Start finds after it has set up what the group needs.
  record IsReady (g s : Life conf lib se) : Type 0 where
    run : s.run ≡ true
    pool : s.has_pool ≡ true
    named : IsNamed se s.sites
