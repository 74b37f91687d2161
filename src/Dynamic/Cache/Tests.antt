-- ===== src/Dynamic/Cache/Tests.antt =====
-- The cache of pages: runs, and the theorem at a concrete input.
use vweb.Common.{◌≡◌, refl, true, none, some, [], arith, codes, same, lookup, insert, erase}
use vweb.Vmap.Assoc.{visits}
use vweb.Dynamic.Templater.{close, acquire, release}
use vweb.Dynamic.Cache.{
  Handler, new_handler, change, let_go, close_exec, find, store, get_or_create_executor, file,
  no_file, close_handler, stores, ends, closes_handler, closes_entry, Reachable, start, turn,
}
use vweb.Dynamic.Cache.Released.{closes-Reachable}

-- A page is parsed, and its request ends.
abbrev one_page : Handler
one_page = (store (codes "p") 1 new_handler).0

abbrev served : Handler
served = record one_page { execs = change 0 (let_go 0 (one_page.execs 0)) one_page.execs }

abbrev shut : Handler
shut = close_handler served

abbrev finished : Handler
finished = close_exec 0 (record shut { closing = [] })

finished-reachable : Reachable finished
unfolding store change acquire release close_handler visits erase insert lookup
finished-reachable =
    turn (turn (turn (turn start (stores (codes "p") 1)) (ends 0 0 refl)) closes_handler)
      (closes_entry 0 [] refl)

-- The second request finds the page, one at a later time parses it again.
executor_test :
    ((get_or_create_executor (file 1) true true (codes "p") one_page).1 ≡ some 0)
    × ((get_or_create_executor (file 2) true true (codes "p") one_page).1 ≡ some 1)
    × ((get_or_create_executor no_file true true (codes "p") one_page).1 ≡ none)
    × ((get_or_create_executor (file 1) true true (codes "p") shut).1 ≡ none)
unfolding store lookup insert same get_or_create_executor find change acquire close_handler
executor_test = (refl, refl, refl, refl)

closes-Reachable_example : (finished.execs 0).closes ≡ 1
unfolding store change acquire release close_handler close_exec close lookup
closes-Reachable_example =
    closes-Reachable finished 0 finished-reachable refl refl (omega arith) refl
