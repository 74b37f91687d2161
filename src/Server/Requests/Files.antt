-- ===== src/Server/Requests/Files.antt =====
-- What is served is a file, and a forward that is off or cannot be compiled changes nothing.
use vweb.Common.{
  ℕ, ◌≡◌, refl, sym, Bool, true, false, not, ◌&&◌, Option, none, some, List, [], ◌∷◌, Bytes, codes,
  ltb, ◌+◌, is_empty, has_suffix, if◌then◌else◌,
}
use vweb.Regexps.{Regexps}
use vweb.Domain
use vweb.Server.Plugins.{str_slice_contains}
use vweb.Server.Requests.{
  Os, FileInfo, SiteConf, Served, Outcome, no_site, no_config, redirected, not_found, served,
  Forwarded, redirects, goes, find_index, page_path, find_static, serve_page, follow_forwards,
  forwards_of, serve_found, serve_forwarded, serve_site, serve_http,
}

module _ (os : Os) where
  -- The page is a file under the root, and no directory.
  abbrev pub IsFile : Bytes → Bytes → Type 0
  IsFile root page =
      (fi : FileInfo) × ((os.stat (os.join (root ∷ page ∷ [])) ≡ some fi) × (fi.is_dir ≡ false))

  abbrev IsFound : Bytes → Option (FileInfo × Bytes) → Type 0
  IsFound root none = Unit
  IsFound root (some (fi, page)) =
      (os.stat (os.join (root ∷ page ∷ [])) ≡ some fi) × (fi.is_dir ≡ false)

  IsFound-if :
      (root page : Bytes) (fi : FileInfo) (rest : Option (FileInfo × Bytes))
      → os.stat (os.join (root ∷ page ∷ [])) ≡ some fi
      → IsFound root rest
      → IsFound root (if fi.is_dir then rest else some (fi, page))
  IsFound-if root page fi rest e h = by_dir fi.is_dir refl
    where
      by_dir : (b : Bool) → b ≡ fi.is_dir → IsFound root (if b then rest else some (fi, page))
      by_dir true d = h
      by_dir false d = (e, sym d)

  find_index-IsFound :
      (root pc : Bytes) (index : List Bytes) → IsFound root (find_index os root pc index)
  unfolding find_index
  find_index-IsFound root pc [] = tt
  find_index-IsFound root pc (v ∷ index) =
      by_stat (os.stat (os.join (root ∷ pi ∷ []))) refl (find_index-IsFound root pc index)
    where
      pi : Bytes
      pi = os.join (pc ∷ v ∷ [])

      rest : Option (FileInfo × Bytes)
      rest = find_index os root pc index

      by_stat :
          (o : Option FileInfo)
          → o ≡ os.stat (os.join (root ∷ pi ∷ []))
          → IsFound root rest
          → IsFound root
              (elim o [ none ↦ rest | some fi ↦ if fi.is_dir then rest else some (fi, pi) ])
      by_stat none e ih = ih
      by_stat (some fi) e ih = IsFound-if root pi fi rest (sym e) ih

  page_path-IsFound :
      (root p : Bytes) (index : List Bytes) → IsFound root (page_path os root p index)
  unfolding page_path
  page_path-IsFound root p index =
      by_suffix (has_suffix p (codes "/")) (os.stat (os.join (root ∷ pc ∷ []))) refl
    where
      pc : Bytes
      pc = os.clean p

      rest : Option (FileInfo × Bytes)
      rest = find_index os root pc index

      by_suffix :
          (b : Bool) (o : Option FileInfo)
          → o ≡ os.stat (os.join (root ∷ pc ∷ []))
          → IsFound root (
              if b
              then rest
              else elim o [ none ↦ none | some fi ↦ if fi.is_dir then rest else some (fi, pc) ])
      by_suffix true o e = find_index-IsFound root pc index
      by_suffix false none e = tt
      by_suffix false (some fi) e =
          IsFound-if root pc fi rest (sym e) (find_index-IsFound root pc index)

  abbrev IsStored : Option (Bytes × Bytes) → Type 0
  IsStored none = Unit
  IsStored (some (root, page)) = IsFile root page

  find_static-IsStored :
      (conf : SiteConf) (url_path : Bytes) (now : ℕ) → IsStored (find_static os conf url_path now)
  unfolding find_static
  find_static-IsStored conf url_path now =
      by_page (conf.cache && not (is_empty dir)) (page_path os c_dir u_path conf.index_file)
        (page_path-IsFound c_dir u_path conf.index_file)
    where
      dir : Bytes
      dir = conf.cache_static_file_dir

      joined : Bytes
      joined = os.join (codes "/" ∷ dir ∷ url_path ∷ [])

      u_path : Bytes
      u_path = if os.is_abs dir then url_path else joined

      c_dir : Bytes
      c_dir = if os.is_abs dir then dir else conf.root_dir joined

      fresh_enough :
          (b : Bool) (page : Bytes) (fi : FileInfo)
          → IsFound c_dir (some (fi, page))
          → IsStored (if b then some (c_dir, page) else none)
      fresh_enough true page fi (e, d) = (fi, (e, d))
      fresh_enough false page fi (e, d) = tt

      by_page :
          (b : Bool) (o : Option (FileInfo × Bytes))
          → IsFound c_dir o
          → IsStored (
              if not b then none else elim o [
                | none ↦ none
                | some (fi, page) ↦
                    if ltb now (fi.mod_time + conf.cache_static_timeout)
                    then some (c_dir, page)
                    else none
              ])
      by_page false o h = tt
      by_page true none h = tt
      by_page true (some (fi, page)) h =
          fresh_enough (ltb now (fi.mod_time + conf.cache_static_timeout)) page fi h

  -- The page of an answer that serves one is a file.
  abbrev pub IsOfFile : Outcome → Type 0
  IsOfFile (served s) = IsFile s.root_path s.page_path
  IsOfFile no_site = Unit
  IsOfFile no_config = Unit
  IsOfFile (redirected path code) = Unit
  IsOfFile (not_found root) = Unit

  serve_page-IsOfFile :
      (conf : SiteConf) (root page : Bytes)
      → IsFile root page
      → IsOfFile (serve_page os conf root page)
  unfolding serve_page
  serve_page-IsOfFile conf root page h =
      by_ext (str_slice_contains conf.dynamic_ext (os.ext page)) _ _ h h
    where
      by_ext :
          (b : Bool) (s t : Served)
          → IsFile s.root_path s.page_path
          → IsFile t.root_path t.page_path
          → IsOfFile (if b then served s else served t)
      by_ext true s t h k = h
      by_ext false s t h k = k

  module _ (lib : Regexps) where
    serve_found-IsOfFile :
        (conf : SiteConf) (root : Bytes) (o : Option (FileInfo × Bytes))
        → IsFound root o
        → IsOfFile (serve_found os lib conf root o)
    serve_found-IsOfFile conf root none h = tt
    serve_found-IsOfFile conf root (some (fi, page)) (e, d) =
        serve_page-IsOfFile conf root page (fi, (e, d))

    serve_forwarded-IsOfFile :
        (conf : SiteConf) (f : Forwarded) → IsOfFile (serve_forwarded os lib conf f)
    unfolding serve_forwarded
    serve_forwarded-IsOfFile conf (redirects rpath code) = tt
    serve_forwarded-IsOfFile conf (goes rpath) =
        let root = conf.root_dir rpath in
        serve_found-IsOfFile conf root (page_path os root rpath conf.index_file)
          (page_path-IsFound root rpath conf.index_file)

    serve_site-IsOfFile :
        (conf : SiteConf) (host url_path : Bytes) (now : ℕ)
        → IsOfFile (serve_site os lib conf host url_path now)
    unfolding serve_site
    serve_site-IsOfFile conf host url_path now =
        by_static (find_static os conf url_path now) (find_static-IsStored conf url_path now)
      where
        f : Forwarded
        f = follow_forwards os lib (forwards_of os lib conf.forward host) url_path

        by_static :
            (o : Option (Bytes × Bytes))
            → IsStored o
            → IsOfFile (elim o [
              | some (root, page) ↦ serve_page os conf root page
              | none ↦ serve_forwarded os lib conf f
            ])
        by_static (some (root, page)) h = serve_page-IsOfFile conf root page h
        by_static none h = serve_forwarded-IsOfFile conf f

    -- Whatever the sites, the host and the path are: if the request is answered with a page, then
    -- that page, under the root that it is answered from, is a file that exists and is no
    -- directory.
    pub serve_http-IsOfFile :
        (sites : List (Bytes × Option SiteConf)) (host url_path : Bytes) (now : ℕ)
        → IsOfFile (serve_http os lib sites host url_path now)
    unfolding serve_http
    serve_http-IsOfFile sites host url_path now = by_site (Domain.get sites host)
      where
        by_site :
            (o : Option (Option SiteConf))
            → IsOfFile (elim o [
              | none ↦ no_site
              | some none ↦ no_config
              | some (some conf) ↦ serve_site os lib conf host url_path now
            ])
        by_site none = tt
        by_site (some none) = tt
        by_site (some (some conf)) = serve_site-IsOfFile conf host url_path now
