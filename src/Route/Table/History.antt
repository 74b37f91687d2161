-- ===== src/Route/Table/History.antt =====
-- Every table that calls of HandleFunc build.
use vweb.Common.{
  ◌≡◌, refl, Option, none, some, List, [], ◌∷◌, Bytes, Checked, returns, panics, subst_returns,
}
use vweb.Regexps.{Regexps}
use vweb.Route.Table.{RouteState, handle_func}
use vweb.Route.Table.Consistent.{IsConsistent, add_handle-IsConsistent, remove_handle-IsConsistent}

module _ (lib : Regexps) {H E S : Type 0} where
  -- A Route that has no route yet, with any error handler and site manager.
  abbrev pub new_route : Option E → Option S → RouteState lib.Regex H E S
  new_route error_handler site_man = record {
    handler_error = error_handler;
    rt = [];
    list = [];
    site_man = site_man;
  }

  -- Calls of HandleFunc one after the other; a panic ends them.
  unfoldable pub register :
      RouteState lib.Regex H E S → List (Bytes × Option H) → Checked (RouteState lib.Regex H E S)
  unfolding handle_func
  register route [] = returns route
  register route ((url, handler) ∷ calls) = elim (handle_func lib route url handler) [
    | panics msg ↦ panics msg
    | returns route' ↦ register route' calls
  ]

  handle_func-IsConsistent :
      (route : RouteState lib.Regex H E S) (url : Bytes) (handler : Option H)
      (route' : RouteState lib.Regex H E S)
      → IsConsistent lib route
      → handle_func lib route url handler ≡ returns route'
      → IsConsistent lib route'
  unfolding handle_func
  handle_func-IsConsistent route url none route' v h =
      subst_returns (IsConsistent lib) h (remove_handle-IsConsistent lib route url v)
  handle_func-IsConsistent route url (some handler) route' v h =
      add_handle-IsConsistent lib route url handler route' v h

  register-IsConsistent :
      (calls : List (Bytes × Option H)) (route route' : RouteState lib.Regex H E S)
      → IsConsistent lib route
      → register route calls ≡ returns route'
      → IsConsistent lib route'
  unfolding register
  register-IsConsistent [] route route' v h = subst_returns (IsConsistent lib) h v
  register-IsConsistent ((url, handler) ∷ calls) route route' v h =
      step (handle_func lib route url handler) refl (λ mid e k.
        register-IsConsistent calls mid route' (handle_func-IsConsistent route url handler mid v e)
          k)
    where
      step :
          (r : Checked (RouteState lib.Regex H E S))
          → handle_func lib route url handler ≡ r
          → ((mid : RouteState lib.Regex H E S)
              → handle_func lib route url handler ≡ returns mid
              → register mid calls ≡ returns route'
              → IsConsistent lib route')
          → IsConsistent lib route'
      step (panics msg) e next = absurd (cc (rw (e, register) at h))
      step (returns mid) e next = next mid e (rw (e, register) at h)

  new_route-IsConsistent :
      (error_handler : Option E) (site_man : Option S)
      → IsConsistent lib (new_route error_handler site_man)
  unfolding vweb.Route.Table.Consistent.find_url vweb.Common.lookup
  new_route-IsConsistent error_handler site_man = record {
    distinct = tt;
    agree = λ url. refl;
    made = tt;
  }

-- Whatever handlers are registered and removed, if no call panics, the map and the list of the
-- router hold the same entries, no URL twice, and each entry is what its URL makes it: its
-- segments, whether it is a directory, its kind (regular expression, symbol, placeholder or
-- literal), the expression that the URL compiles to in its leftmost-longest form, and, of each
-- segment with a brace, the parts that parsePlaceholderSegment gives.
pub register_invariant :
    (lib : Regexps) {H E S : Type 0} (error_handler : Option E) (site_man : Option S)
    (calls : List (Bytes × Option H)) (route : RouteState lib.Regex H E S)
    → register lib (new_route lib error_handler site_man) calls ≡ returns route
    → IsConsistent lib route
register_invariant lib error_handler site_man calls route =
    register-IsConsistent lib calls (new_route lib error_handler site_man) route
      (new_route-IsConsistent lib error_handler site_man)
