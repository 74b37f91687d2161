-- ===== src/Dynamic/Cache.antt =====
-- serverHandlerDynamic.go, ServerHandlerDynamic: the cache of the parsed pages. A *refCountedTemplater
-- is a number, which `execs` gives the state of. What stands between Lock and Unlock of T.mu, and each
-- call of a templater elsewhere, is one step. Left out are the locks by page, which only keep two
-- requests from parsing one page at the same time, and the path of the page, which is given.
pub mod Kept
pub mod Released
mod Tests
use vweb.Common.{
  ℕ, suc, ◌+◌, ◌≡◌, Bool, true, false, ◌&&◌, Option, none, some, List, [], ◌∷◌, ◌++◌, Bytes, ◌==◌,
  lookup, insert, erase, map, if◌then◌else◌,
}
use vweb.Vmap.Assoc.{visits}
use vweb.Dynamic.Templater.{Shared, new_shared, count, close, acquire, release}

pub record PageCacheEntry : Type 0 where
  pub exec : ℕ
  pub mode_time : ℕ

-- `closing` are the templaters that Close took out of the cache and has not closed yet.
pub record Handler : Type 0 where
  pub page_cache : List (Bytes × PageCacheEntry)
  pub closed : Bool
  pub execs : ℕ → Shared
  pub next : ℕ
  pub closing : List ℕ

abbrev pub new_handler : Handler
new_handler = record {
  page_cache = [];
  closed = false;
  execs = λ i. new_shared;
  next = 0;
  closing = [];
}

unfoldable pub change : ℕ → Shared → (ℕ → Shared) → ℕ → Shared
change i s execs j = if i == j then s else execs j

-- Close, acquire and release of a templater, with its users and the closings of the template itself.
abbrev pub closed_once : Shared → Shared
closed_once s = record s { exec = (close s.exec).0; closes = s.closes + count (close s.exec).1 }

abbrev pub held : Shared → Shared
held s = record s { exec = (acquire s.exec).0; holders = s.holders + 1 }

abbrev pub let_go : ℕ → Shared → Shared
let_go n s = record s {
  exec = (release s.exec).0;
  holders = n;
  closes = s.closes + count (release s.exec).1;
}

unfoldable pub close_exec : ℕ → Handler → Handler
unfolding change
close_exec i h = record h { execs = change i (closed_once (h.execs i)) h.execs }

-- The look into the cache; `none` where the page has to be parsed.
unfoldable pub find : Bytes → ℕ → Handler → Handler × Option ℕ
unfolding change
find page mode_time h = elim (lookup page h.page_cache) [
  | none ↦ (h, none)
  | some e ↦
      if e.mode_time == mode_time && (acquire (h.execs e.exec).exec).1
      then (record h { execs = change e.exec (held (h.execs e.exec)) h.execs }, some e.exec)
      else (h, none)
]

unfoldable pub cleanup_cache_entry : Bytes → Handler → Handler
unfolding close_exec
cleanup_cache_entry page h = elim (lookup page h.page_cache) [
  | none ↦ h
  | some e ↦ let s = close_exec e.exec h in record s { page_cache = erase page h.page_cache }
]

-- The page is wrapped, held by the cache and by the request.
abbrev pub cached : Bytes → ℕ → Handler → Handler
cached page mode_time h = record h {
  page_cache = insert page (record { exec = h.next; mode_time = mode_time }) h.page_cache;
  execs = change h.next (held new_shared) h.execs;
  next = h.next + 1;
}

-- The last part of parseAndCache, for a page that was parsed; a closed handler closes it at once.
unfoldable pub store : Bytes → ℕ → Handler → Handler × Option ℕ
unfolding close_exec change
store page mode_time h = if h.closed then (h, none) else elim (lookup page h.page_cache) [
  | none ↦ (cached page mode_time h, some h.next)
  | some old ↦ (cached page mode_time (close_exec old.exec h), some h.next)
]

-- `parses` is whether parseTemplate succeeds; if not, the page is closed there.
unfoldable pub parse_and_cache : Bool → Bytes → ℕ → Handler → Handler × Option ℕ
unfolding find store
parse_and_cache parses page mode_time h =
    let (s, found) = find page mode_time h in
    if h.closed then (h, none) else elim found [
      | some i ↦ (s, some i)
      | none ↦ if parses then store page mode_time s else (s, none)
    ]

-- What os.Stat or ReadFile gives of the file.
pub data Stat : Type 0 where
  no_file : Stat
  directory : Stat
  file : ℕ → Stat

-- `opens` is whether the file can be opened, and `none` an error.
unfoldable pub get_or_create_executor : Stat → Bool → Bool → Bytes → Handler → Handler × Option ℕ
unfolding find parse_and_cache cleanup_cache_entry
get_or_create_executor no_file opens parses page h = (cleanup_cache_entry page h, none)
get_or_create_executor directory opens parses page h = (h, none)
get_or_create_executor (file mode_time) opens parses page h =
    let (s, found) = find page mode_time h in
    elim found [
      | some i ↦ (s, some i)
      | none ↦ if opens then parse_and_cache parses page mode_time s else (s, none)
    ]

-- The part of Close under the lock; the closing of the entries follows.
unfoldable pub close_handler : Handler → Handler
unfolding visits
close_handler h = if h.closed then h else record h {
  closed = true;
  page_cache = [];
  closing =
      map (λ (e : Bytes × PageCacheEntry). e.1.exec) (visits PageCacheEntry h.page_cache)
      ++ h.closing;
}

-- One step of a request or of a Close; the others are between it and the next.
pub data Turn (h : Handler) : Handler → Type 0 where
  finds : (page : Bytes) (mode_time : ℕ) → Turn h (find page mode_time h).0
  cleans : (page : Bytes) → Turn h (cleanup_cache_entry page h)
  stores : (page : Bytes) (mode_time : ℕ) → Turn h (store page mode_time h).0
  ends :
      (i n : ℕ)
      → (h.execs i).holders ≡ suc n
      → Turn h (record h { execs = change i (let_go n (h.execs i)) h.execs })
  closes_handler : Turn h (close_handler h)
  closes_entry :
      (i : ℕ) (is : List ℕ) → h.closing ≡ i ∷ is → Turn h (close_exec i (record h { closing = is }))

-- What any order of such steps leads to.
pub data Reachable : Handler → Type 0 where
  start : Reachable new_handler
  turn : {h s : Handler} → Reachable h → Turn h s → Reachable s
