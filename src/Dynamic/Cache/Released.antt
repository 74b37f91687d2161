-- ===== src/Dynamic/Cache/Released.antt =====
-- Once the handler is closed and no request holds a page any more, every page was closed.
use vweb.Common.{
  ℕ, ◌<◌, ◌≡◌, ◌⊎◌, refl, sym, ◌∙◌, subst, Bool, true, false, inl, inr, Option, none, some, List,
  [], ◌∷◌, ◌++◌, arith, Bytes, lookup, map, some_inj, if◌then◌else◌, Option-cases,
}
use vweb.Vmap.Assoc.{visits, lookup-visits}
use vweb.Dynamic.Templater.{here}
use vweb.Dynamic.Templater.Lifetime.{Reach-IsClosedOnce}
use vweb.Dynamic.Cache.{
  PageCacheEntry, Handler, close_exec, cleanup_cache_entry, cached, store, close_handler, Turn,
  finds, cleans, stores, ends, closes_handler, closes_entry, Reachable, start, turn,
}
use vweb.Dynamic.Cache.Kept.{
  Among, Among-append_right, Among-map, IsDestroyed, IsKnown, destroyed, in_cache, in_closing,
  IsKept, IsKept-close_exec, close_exec-IsDestroyed, IsKept-let_go, IsKept-find, IsKept-erase,
  IsKept-cached,
}

empty_lookup : (p : Bytes) (e : PageCacheEntry) → ¬ (lookup p [] ≡ some e)
unfolding lookup
empty_lookup p e h = cc

IsKept-cleanup_cache_entry :
    (page : Bytes) (h : Handler) → IsKept h → IsKept (cleanup_cache_entry page h)
unfolding cleanup_cache_entry close_exec
IsKept-cleanup_cache_entry page h k = elim (Option-cases (lookup page h.page_cache)) [
  | inl e ↦ rw (e, cleanup_cache_entry) k
  | inr (x, e) ↦
      rw (e, cleanup_cache_entry)
        (IsKept-erase page x (close_exec x.exec h) e (close_exec-IsDestroyed x.exec h)
          (IsKept-close_exec x.exec h k))
]

IsKept-store :
    (page : Bytes) (mode_time : ℕ) (h : Handler) → IsKept h → IsKept (store page mode_time h).0
unfolding store close_exec
IsKept-store page mode_time h k = by_case h.closed (lookup page h.page_cache) refl refl
  where
    by_case :
        (b : Bool) (o : Option PageCacheEntry)
        → b ≡ h.closed
        → o ≡ lookup page h.page_cache
        → IsKept
            (if◌then◌else◌ {A = Handler × Option ℕ} b
              (h, none)
              (elim o [
                | none ↦ (cached page mode_time h, some h.next)
                | some old ↦ (cached page mode_time (close_exec old.exec h), some h.next)
              ])).0
    by_case true o c e = k
    by_case false none c e = IsKept-cached page mode_time h (λ x a. absurd (cc (e, a))) (sym c) k
    by_case false (some old) c e =
        IsKept-cached page mode_time (close_exec old.exec h)
          (λ x a.
            subst (λ y. IsDestroyed (close_exec old.exec h) y.exec) (some_inj (e ∙ a))
              (close_exec-IsDestroyed old.exec h))
          (sym c) (IsKept-close_exec old.exec h k)

IsKept-close_handler : (h : Handler) → IsKept h → IsKept (close_handler h)
unfolding close_handler
IsKept-close_handler h k = by_case h.closed
  where
    shut : Handler
    shut = record h {
      closed = true;
      page_cache = [];
      closing =
          map (λ (e : Bytes × PageCacheEntry). e.1.exec) (visits PageCacheEntry h.page_cache)
          ++ h.closing;
    }

    taken : (j : ℕ) → IsKnown h j → IsKnown shut j
    taken j (destroyed d) = destroyed d
    taken j (in_closing a) = in_closing (Among-append_right j _ h.closing a)
    taken j (in_cache p e a b) = in_closing (
        subst (λ x. Among x shut.closing) b
          (Among-map (visits PageCacheEntry h.page_cache) p e h.closing
            (lookup-visits PageCacheEntry h.page_cache p ∙ a)))

    by_case : (b : Bool) → IsKept (if b then h else shut)
    by_case true = k
    by_case false = record {
      shared = k.shared;
      known = λ j l. taken j (k.known j l);
      emptied = inr refl;
    }

IsKept-closes_entry :
    (h : Handler) (i : ℕ) (is : List ℕ)
    → h.closing ≡ i ∷ is
    → IsKept h
    → IsKept (close_exec i (record h { closing = is }))
unfolding close_exec
IsKept-closes_entry h i is e k = record {
  shared = now.shared;
  known = λ j l. rest j (now.known j l);
  emptied = k.emptied;
}
  where
    now : IsKept (close_exec i h)
    now = IsKept-close_exec i h k

    s : Handler
    s = record h { closing = is }

    closing_or : (j : ℕ) → (i ≡ j) ⊎ Among j is → IsKnown (close_exec i s) j
    closing_or j (inl q) =
        destroyed (subst (IsDestroyed (close_exec i s)) q (close_exec-IsDestroyed i s))
    closing_or j (inr a) = in_closing a

    rest : (j : ℕ) → IsKnown (close_exec i h) j → IsKnown (close_exec i s) j
    rest j (destroyed d) = destroyed d
    rest j (in_cache p x a b) = in_cache p x a b
    rest j (in_closing a) = closing_or j (subst (Among j) e a)

IsKept-Turn : {h s : Handler} → Turn h s → IsKept h → IsKept s
IsKept-Turn {h} (finds page mode_time) k = IsKept-find page mode_time h k
IsKept-Turn {h} (cleans page) k = IsKept-cleanup_cache_entry page h k
IsKept-Turn {h} (stores page mode_time) k = IsKept-store page mode_time h k
IsKept-Turn {h} (ends i n e) k = IsKept-let_go i n h e k
IsKept-Turn {h} closes_handler k = IsKept-close_handler h k
IsKept-Turn {h} (closes_entry i is e) k = IsKept-closes_entry h i is e k

pub Reachable-IsKept : {h : Handler} → Reachable h → IsKept h
Reachable-IsKept start = record {
  shared = λ i. here;
  known = λ i l. absurd (omega arith);
  emptied = inl refl;
}
Reachable-IsKept (turn r t) = IsKept-Turn t (Reachable-IsKept r)

-- In any order of the steps of requests and of Close: once the handler is closed, Close has closed
-- what it took out of the cache, and no request holds a page that was wrapped, this page itself
-- has been closed exactly once.
pub closes-Reachable :
    (h : Handler) (i : ℕ)
    → Reachable h
    → h.closed ≡ true
    → h.closing ≡ []
    → i < h.next
    → (h.execs i).holders ≡ 0
    → (h.execs i).closes ≡ 1
closes-Reachable h i r shut done made free = by_known (k.known i made)
  where
    k : IsKept h
    k = Reachable-IsKept r

    by_known : IsKnown h i → (h.execs i).closes ≡ 1
    by_known (destroyed d) = (Reach-IsClosedOnce (h.execs i) (k.shared i)).when_free.1 (d, free)
    by_known (in_closing a) = absurd (subst (Among i) done a)
    by_known (in_cache p e a b) = elim k.emptied [
      | inl o ↦ absurd (cc (o, shut))
      | inr empty ↦ absurd (empty_lookup p e (subst (λ m. lookup p m ≡ some e) empty a))
    ]
