-- ===== src/Sessions/Tests.antt =====
-- Sessions: a map of which the laws hold, runs, and the theorems at concrete inputs.
use vweb.Common.{
  ℕ, ◌≡◌, refl, none, some, [], ◌∷◌, arith, Bytes, codes, same, lookup, insert, erase,
  if◌then◌else◌,
}
use vweb.Vmap.{VMap}
use vweb.Vmap.Assoc.{visits, assoc, assoc-IsMap}
use vweb.Sessions.{
  Sessioner, ManageSession, Table, get_session, set_session, del_session, check_dead_all,
}
use vweb.Sessions.Lookup.{kept_until, get_session-set_session, get_session-renewed}
use vweb.Sessions.Expiry.{get_session-check_dead_all}

-- Sessions that are told apart by a number; the token is the identifier.
abbrev numbered : Sessioner
numbered = record { Session = ℕ × Bytes; token = λ s. s.1; with_id = λ id s. (s.0, id) }

abbrev map_of_sessions : VMap (ManageSession (ℕ × Bytes))
map_of_sessions = assoc (ManageSession (ℕ × Bytes))

abbrev blank : Table numbered map_of_sessions
blank = record { expired = 10; ss = []; freed = [] }

-- One session, stored at 5.
abbrev table : Table numbered map_of_sessions
table = (set_session numbered map_of_sessions 5 (codes "a") (1, []) blank).0

lookup_tests :
    ((get_session numbered map_of_sessions 15 (codes "a") table).1 ≡ some (1, codes "a"))
    × ((get_session numbered map_of_sessions 16 (codes "a") table).1 ≡ none)
    × ((get_session numbered map_of_sessions 16 (codes "a") table).0.freed ≡ (1, codes "a") ∷ [])
    × ((get_session numbered map_of_sessions 6 (codes "b") table).1 ≡ none)
    × ((check_dead_all numbered map_of_sessions 15 table).1 ≡ [])
    × ((check_dead_all numbered map_of_sessions 16 table).1 ≡ codes "a" ∷ [])
    × ((del_session numbered map_of_sessions (codes "a") table).freed ≡ (1, codes "a") ∷ [])
unfolding get_session set_session check_dead_all del_session visits lookup insert erase same
lookup_tests = (refl, refl, refl, refl, refl, refl, refl)

get_session-set_session_example :
    (get_session numbered map_of_sessions 20
      (codes "b")
      (set_session numbered map_of_sessions 12 (codes "b") (2, []) table).0).1
    ≡ (if same (codes "b") (codes "b")
        then kept_until numbered map_of_sessions
            (assoc-IsMap (ManageSession (ℕ × Bytes)))
            table.expired
            12
            20
            (2, codes "b")
        else (get_session numbered map_of_sessions 20 (codes "b") table).1)
unfolding set_session lookup insert same
get_session-set_session_example =
    get_session-set_session numbered map_of_sessions (assoc-IsMap (ManageSession (ℕ × Bytes))) 12 20
      (codes "b") (codes "b") (2, []) table refl

get_session-renewed_example :
    (get_session numbered map_of_sessions 20
      (codes "a")
      (get_session numbered map_of_sessions 12 (codes "a") table).0).1
    ≡ (if same (codes "a") (codes "a")
        then kept_until numbered map_of_sessions
            (assoc-IsMap (ManageSession (ℕ × Bytes)))
            table.expired
            12
            20
            (1, codes "a")
        else (get_session numbered map_of_sessions 20 (codes "a") table).1)
unfolding get_session set_session lookup insert same
get_session-renewed_example =
    get_session-renewed numbered map_of_sessions (assoc-IsMap (ManageSession (ℕ × Bytes))) 12 20
      (codes "a") (codes "a") (1, codes "a") table refl

get_session-check_dead_all_example :
    (get_session numbered map_of_sessions 20
      (codes "a")
      (check_dead_all numbered map_of_sessions 16 table).0).1
    ≡ (get_session numbered map_of_sessions 20 (codes "a") table).1
get_session-check_dead_all_example =
    get_session-check_dead_all numbered map_of_sessions (assoc-IsMap (ManageSession (ℕ × Bytes))) 16
      20 (omega arith) table (codes "a")
