-- ===== src/Server/Requests/Forwards.antt =====
-- A forward that is off or cannot be compiled changes nothing.
use vweb.Common.{
  ◌≡◌, refl, sym, ap, ◌∙◌, Bool, true, false, not, ◌||◌, ◌&&◌, Option, none, some, List, [], ◌∷◌,
  Bytes, ◌==◌, fun_ext, if◌then◌else◌,
}
use vweb.Regexps.{Regexps}
use vweb.Rewrite.{ForwardRewriter, compile, rewrite}
use vweb.Server.Requests.{Os, SiteForward, Forwarded, redirects, goes, follow_one, follow_forwards}

module _ (os : Os) (lib : Regexps) where
  abbrev pub is_active : SiteForward → Bool
  is_active fc = fc.status && elim (compile lib (some fc.forward)) [ none ↦ false | some t ↦ true ]

  abbrev pub active : List SiteForward → List SiteForward
  active [] = []
  active (fc ∷ list) = let rest = active list in if is_active fc then fc ∷ rest else rest

  -- A forward that is not active passes the path on.
  follow_one_passive :
      (fc : SiteForward) (o : Option (ForwardRewriter lib.Regex)) (url_path : Bytes)
      (next : Bytes → Forwarded)
      → fc.status && elim o [ none ↦ false | some t ↦ true ] ≡ false
      → follow_one os lib fc o url_path next ≡ next url_path
  unfolding follow_one
  follow_one_passive fc none url_path next e = refl
  follow_one_passive fc (some t) url_path next e = by_status fc.status e
    where
      by_status :
          (b : Bool)
          → b && true ≡ false
          → (if not b || not (rewrite lib (some t) url_path).1
              then next url_path
              else if not (fc.redirect_code == 0)
              then redirects (rewrite lib (some t) url_path).0 fc.redirect_code
              else if fc.end
              then goes (rewrite lib (some t) url_path).0
              else next (rewrite lib (some t) url_path).0)
            ≡ next url_path
      by_status false h = refl
      by_status true h = absurd (cc h)

  -- The forwards that are off or cannot be compiled change nothing: without them the loop
  -- redirects, or goes on with a path, just as with them.
  pub follow_forwards-active :
      (list : List SiteForward) (url_path : Bytes)
      → follow_forwards os lib (active list) url_path ≡ follow_forwards os lib list url_path
  unfolding follow_forwards
  follow_forwards-active [] url_path = refl
  follow_forwards-active (fc ∷ list) url_path =
      by_active (is_active fc) refl (λ p. follow_forwards-active list p)
    where
      by_active :
          (b : Bool)
          → b ≡ is_active fc
          → ((p : Bytes) → follow_forwards os lib (active list) p ≡ follow_forwards os lib list p)
          → follow_forwards os lib (if b then fc ∷ active list else active list) url_path
            ≡ follow_one os lib fc
                (compile lib (some fc.forward))
                url_path
                (λ rpath. follow_forwards os lib list rpath)
      by_active true e ih =
          ap (follow_one os lib fc (compile lib (some fc.forward)) url_path) (fun_ext ih)
      by_active false e ih =
          ih url_path
          ∙ sym (
              follow_one_passive fc (compile lib (some fc.forward)) url_path
                (λ rpath. follow_forwards os lib list rpath) (sym e))
