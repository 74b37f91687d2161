-- ===== src/Server/Sites/Tests.antt =====
-- Sites: runs, and the theorems at concrete inputs.
use vweb.Common.{
  ℕ, ◌≡◌, refl, sym, ◌∙◌, true, false, inl, inr, none, some, List, [], ◌∷◌, arith, Bytes, codes,
  same, same_iff, lookup, insert, is_empty, Bool-cases, some_inj,
}
use vweb.Vmap.Assoc.{visits}
use vweb.Server.Plugins.{PluginKind, str_slice_contains}
use vweb.Server.Sites.{
  SiteSettings, Site, Sites, new_site, add_hosts, update_all, update_config_sites,
}
use vweb.Server.Sites.Touched.{IsNamed}
use vweb.Server.Sites.Effective.{is_some}
use vweb.Server.Sites.Serves.{Serves, Serves-update_config_sites}
use vweb.Server.Sites.Refused.{update_config_sites_refused}

abbrev kind : PluginKind
kind = record {
  Conf = Unit;
  Client = ℕ;
  new_client = 0;
  merge = λ p. none;
  configure = λ p c. (c, true);
}

-- There are no public settings.
abbrev settings : SiteSettings
settings = record {
  Session = Unit;
  Header = Unit;
  Forward = Unit;
  Dynamic = Unit;
  Rest = Unit;
  new_session = tt;
  merge_session = λ s. s;
  merge_header = λ h. h;
  merge_forward = λ f. none;
  merge_dynamic = λ d. d;
  http = kind;
  rpc = kind;
}

abbrev site : Bytes → List Bytes → Site settings
site name hosts = record {
  status = true;
  identity = name;
  host = hosts;
  root_dir = codes "/www";
  session = record { expired = 60; options = tt };
  header = tt;
  http = [];
  rpc = [];
  forward = [];
  dynamic = record { cache_parse_timeout = 1; cache_static_timeout = 0; options = tt };
  rest = tt;
}

-- The site a has the host x.com.
abbrev before : Sites settings
before = record {
  pool = (codes "a", 0) ∷ [];
  man = (codes "x.com", 0) ∷ [];
  heap = λ p. record {
    identity = codes "a";
    root_dir = [];
    expired = 0;
    options = tt;
    sessions = [];
    global = [];
    extend = none;
  };
  next = 1;
}

before-IsNamed : IsNamed settings before
unfolding lookup
before-IsNamed i p e = elim (Bool-cases (same (codes "a") i)) [
  | inl a ↦
      let q : some 0 ≡ some p = sym (rw a) ∙ e in
      let zero : 0 ≡ p = some_inj q in ((same_iff (codes "a") i).0 a, omega (arith, zero))
  | inr ne ↦ let q : none ≡ some p = sym (rw ne) ∙ e in absurd (cc q)
]

-- x.com moves to the site b, and y.com is listed by both sites.
abbrev confs : List (Site settings)
confs =
    site (codes "a") (codes "y.com" ∷ codes "z.com" ∷ [])
    ∷ site (codes "b") (codes "x.com" ∷ codes "y.com" ∷ [])
    ∷ []

hosts_test :
    lookup (codes "z.com") (update_config_sites settings confs before).0.man ≡ some 0
    × lookup (codes "y.com") (update_config_sites settings confs before).0.man ≡ some 1
    × (update_config_sites settings (site [] [] ∷ []) before).1 ≡ false
unfolding update_config_sites lookup is_empty visits new_site same insert str_slice_contains
    add_hosts
hosts_test = (refl, refl, refl)

Serves-update_config_sites_example :
    Serves settings confs before (update_config_sites settings confs before).0
unfolding is_empty
Serves-update_config_sites_example =
    Serves-update_config_sites settings confs before (refl, (refl, tt)) before-IsNamed

update_config_sites_refused_example :
    (is_some (lookup (codes "x.com") (update_config_sites settings (site [] [] ∷ []) before).0.man)
      ≡ true)
    × (lookup (codes "a") (update_config_sites settings (site [] [] ∷ []) before).0.pool ≡ some 0)
unfolding update_config_sites update_all is_empty lookup same
update_config_sites_refused_example =
    update_config_sites_refused settings (site [] [] ∷ []) before (codes "x.com") (codes "a") 0
      before-IsNamed refl refl refl
