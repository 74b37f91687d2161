-- ===== src/Server/Requests.antt =====
-- server/Server.go, serveHTTP: which page answers a request, or what else; func.go, PagePath; and
-- server/func.go, the names of a host and the headers of a kind of file. Left out are what is
-- written to the connection, and the cache of the handlers of dynamic pages.
pub mod Files
pub mod Forwards
mod Tests
use vweb.Common.{
  ℕ, ◌+◌, ◌-◌, Bool, true, false, not, ◌||◌, ◌&&◌, Option, none, some, List, [], ◌∷◌, ◌++◌, Bytes,
  codes, ◌==◌, ltb, leb, length, take, drop, get_elem?, lookup, is_empty, same, split, has_suffix,
  if◌then◌else◌,
}
use vweb.Regexps.{Regexps}
use vweb.Domain
use vweb.Domain.{visit}
use vweb.Rewrite.{Forward, ForwardRewriter, compile, rewrite}
use vweb.Server.Plugins.{str_slice_contains}

pub record FileInfo : Type 0 where
  pub is_dir : Bool
  pub mod_time : ℕ

-- Packages os, path, filepath, mime and net: os.Stat, where `none` is an error, path.Clean and
-- path.Join, filepath.IsAbs, path.Ext, mime.TypeByExtension, net.SplitHostPort, and whether
-- net.ParseIP takes a text for an address.
pub record Os : Type 0 where
  pub stat : Bytes → Option FileInfo
  pub clean : Bytes → Bytes
  pub join : List Bytes → Bytes
  pub is_abs : Bytes → Bool
  pub ext : Bytes → Bytes
  pub type_by_extension : Bytes → Bytes
  pub split_address : Bytes → Option (Bytes × Bytes)
  pub is_address : Bytes → Bool

pub record SiteForward : Type 0 where
  pub status : Bool
  pub forward : Forward
  pub redirect_code : ℕ
  pub end : Bool

pub record SiteHeaderType : Type 0 where
  pub header : List (Bytes × List Bytes)
  pub page_expired : ℕ

-- What serveHTTP reads of the configuration of a site. The timeout is not negative here.
pub record SiteConf : Type 0 where
  pub root_dir : Bytes → Bytes
  pub index_file : List Bytes
  pub forward : List (Bytes × List SiteForward)
  pub dynamic_ext : List Bytes
  pub cache : Bool
  pub cache_static_file_dir : Bytes
  pub cache_static_timeout : ℕ
  pub header_static : List (Bytes × SiteHeaderType)
  pub header_dynamic : List (Bytes × SiteHeaderType)
  pub mime : List (Bytes × Bytes)

pub record Served : Type 0 where
  pub root_path : Bytes
  pub page_path : Bytes
  pub is_dynamic : Bool
  pub content_type : Bytes
  pub header : List (Bytes × Bytes)
  pub page_expired : ℕ

pub data Outcome : Type 0 where
  no_site : Outcome
  no_config : Outcome
  redirected : Bytes → ℕ → Outcome
  not_found : Bytes → Outcome
  served : Served → Outcome

-- Where the forwards of a site lead.
pub data Forwarded : Type 0 where
  redirects : Bytes → ℕ → Forwarded
  goes : Bytes → Forwarded

-- siteHeaderType: the headers of the extension, else of "*", else none.
unfoldable pub site_header_type : List (Bytes × SiteHeaderType) → Bytes → SiteHeaderType
site_header_type mht file_ext = elim (lookup file_ext mht) [
  | some h ↦ h
  | none ↦ elim (lookup (codes "*") mht) [
    | some h ↦ h
    | none ↦ record { header = []; page_expired = 0 }
  ]
]

abbrev pub add_values : Bytes → List Bytes → List (Bytes × Bytes) → List (Bytes × Bytes)
add_values k [] rest = rest
add_values k (v ∷ vs) rest = (k, v) ∷ add_values k vs rest

abbrev pub added : List (Bytes × List Bytes) → List (Bytes × Bytes)
added [] = []
added ((k, vs) ∷ header) = add_values k vs (added header)

abbrev pub has_at : Bytes → ℕ → ℕ → Bool
has_at s i b = elim (get_elem? s i) [ none ↦ false | some c ↦ c == b ]

module _ (os : Os) where
  unfoldable pub split_host_port : Bytes → Bytes × Bytes
  split_host_port hostport = elim (os.split_address hostport) [
    | some (h, p) ↦ (h, b':' ∷ p)
    | none ↦
        let n = length hostport in
        if leb 2 n && (has_at hostport 0 b'[' && has_at hostport (n - 1) b']')
        then (take (n - 2) (drop 1 hostport), [])
        else (hostport, [])
  ]

  -- The first name of the host that f accepts; an address has no names but itself.
  unfoldable pub derogatory_domain : Bytes → (Bytes → Bool) → Option Bytes
  unfolding split_host_port visit
  derogatory_domain host f =
      let (h, port) = split_host_port host in
      if f host
      then some host
      else if is_empty h || os.is_address h
      then none
      else visit f port [] (split h b'.')

  -- The loop over the index files.
  unfoldable pub find_index : Bytes → Bytes → List Bytes → Option (FileInfo × Bytes)
  find_index root pc [] = none
  find_index root pc (v ∷ index) =
      let rest = find_index root pc index in
      let pi = os.join (pc ∷ v ∷ []) in
      elim (os.stat (os.join (root ∷ pi ∷ []))) [
        | none ↦ rest
        | some fi ↦ if fi.is_dir then rest else some (fi, pi)
      ]

  -- PagePath; `none` is an error.
  unfoldable pub page_path : Bytes → Bytes → List Bytes → Option (FileInfo × Bytes)
  unfolding find_index
  page_path root p index =
      let pc = os.clean p in
      if has_suffix p (codes "/")
      then find_index root pc index
      else elim (os.stat (os.join (root ∷ pc ∷ []))) [
        | none ↦ none
        | some fi ↦ if fi.is_dir then find_index root pc index else some (fi, pc)
      ]

  unfoldable pub http_type_by_extension : Bytes → List (Bytes × Bytes) → Bytes
  http_type_by_extension ext me = elim (lookup ext me) [
    | some ext_type ↦ ext_type
    | none ↦ os.type_by_extension ext
  ]

  -- The page that is stored as a static file already and is not too old.
  unfoldable pub find_static : SiteConf → Bytes → ℕ → Option (Bytes × Bytes)
  unfolding page_path
  find_static conf url_path now =
      let dir = conf.cache_static_file_dir in
      let joined = os.join (codes "/" ∷ dir ∷ url_path ∷ []) in
      let u_path = if os.is_abs dir then url_path else joined in
      let c_dir = if os.is_abs dir then dir else conf.root_dir joined in
      if not (conf.cache && not (is_empty dir))
      then none
      else elim (page_path c_dir u_path conf.index_file) [
        | none ↦ none
        | some (fi, page) ↦
            if ltb now (fi.mod_time + conf.cache_static_timeout) then some (c_dir, page) else none
      ]

  -- The last part, from the extension of the file on.
  unfoldable pub serve_page : SiteConf → Bytes → Bytes → Outcome
  unfolding http_type_by_extension site_header_type
  serve_page conf root page =
      let ext = os.ext page in
      let content_type = http_type_by_extension ext conf.mime in
      let dynamic = site_header_type conf.header_dynamic ext in
      let static = site_header_type conf.header_static ext in
      if str_slice_contains conf.dynamic_ext ext
      then served (record {
        root_path = root;
        page_path = page;
        is_dynamic = true;
        content_type =
            if is_empty content_type then codes "text/html; charset=utf-8" else content_type;
        header = added dynamic.header;
        page_expired = 0;
      })
      else served (record {
        root_path = root;
        page_path = page;
        is_dynamic = false;
        content_type =
            if is_empty content_type then codes "application/octet-stream" else content_type;
        header = added static.header;
        page_expired = static.page_expired;
      })

  module _ (lib : Regexps) where
    -- One round of the loop over the forwards: `next` is the rest of the loop, and the compiled
    -- forward is none where it is refused.
    unfoldable pub follow_one :
        SiteForward → Option (ForwardRewriter lib.Regex) → Bytes → (Bytes → Forwarded) → Forwarded
    unfolding rewrite
    follow_one fc none url_path next = next url_path
    follow_one fc (some rewriter) url_path next =
        let (rpath, rewritten) = rewrite lib (some rewriter) url_path in
        if not fc.status || not rewritten
        then next url_path
        else if not (fc.redirect_code == 0)
        then redirects rpath fc.redirect_code
        else if fc.end
        then goes rpath
        else next rpath

    -- The loop over the forwards of a host.
    unfoldable pub follow_forwards : List SiteForward → Bytes → Forwarded
    unfolding compile follow_one
    follow_forwards [] url_path = goes url_path
    follow_forwards (fc ∷ list) url_path =
        follow_one fc (compile lib (some fc.forward)) url_path (λ rpath. follow_forwards list rpath)

    abbrev pub has_forward : List (Bytes × List SiteForward) → Bytes → Bool
    has_forward forward h = elim (lookup h forward) [ none ↦ false | some list ↦ true ]

    -- The forwards of the first name of the host that has some.
    unfoldable pub forwards_of : List (Bytes × List SiteForward) → Bytes → List SiteForward
    unfolding derogatory_domain
    forwards_of forward host = elim (derogatory_domain host (has_forward forward)) [
      | none ↦ []
      | some h ↦ elim (lookup h forward) [ none ↦ [] | some list ↦ list ]
    ]

    -- The last parts: with a page or none, where the forwards lead, and for a site.
    abbrev pub serve_found : SiteConf → Bytes → Option (FileInfo × Bytes) → Outcome
    serve_found conf root none = not_found root
    serve_found conf root (some (fi, page)) = serve_page conf root page

    unfoldable pub serve_forwarded : SiteConf → Forwarded → Outcome
    unfolding page_path serve_page
    serve_forwarded conf (redirects rpath code) = redirected rpath code
    serve_forwarded conf (goes rpath) =
        let root = conf.root_dir rpath in
        serve_found conf root (page_path root rpath conf.index_file)

    unfoldable pub serve_site : SiteConf → Bytes → Bytes → ℕ → Outcome
    unfolding find_static forwards_of follow_forwards serve_forwarded serve_page
    serve_site conf host url_path now = elim (find_static conf url_path now) [
      | some (root, page) ↦ serve_page conf root page
      | none ↦ serve_forwarded conf (follow_forwards (forwards_of conf.forward host) url_path)
    ]

    -- A site of the map without a configuration is `none`.
    unfoldable pub serve_http : List (Bytes × Option SiteConf) → Bytes → Bytes → ℕ → Outcome
    unfolding Domain.get serve_site
    serve_http sites host url_path now = elim (Domain.get sites host) [
      | none ↦ no_site
      | some none ↦ no_config
      | some (some conf) ↦ serve_site conf host url_path now
    ]
