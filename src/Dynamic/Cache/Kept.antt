-- ===== src/Dynamic/Cache/Kept.antt =====
-- No page is forgotten: a templater that was made is in the cache, or Close is about to close it, or it
-- is destroyed.
use vweb.Common.{
  ℕ, suc, ◌<◌, ◌≡◌, ◌⊎◌, refl, sym, ap, ◌∙◌, subst, Bool, true, false, ◌&&◌, inl, inr, some, List,
  [], ◌∷◌, ◌++◌, arith, Bytes, ◌==◌, ==_iff, same, same_iff, same_refl, lookup, erase, map,
  lookup-insert, lookup-erase, if◌then◌else◌, Bool-cases, Option-cases, some_inj,
}
use vweb.Dynamic.Templater.{
  RefCountedTemplater, incr, Shared, new_shared, close, acquire, release, closing, acquired,
  releasing, Reach, here, next,
}
use vweb.Dynamic.Cache.{
  PageCacheEntry, Handler, change, closed_once, held, let_go, close_exec, find, cached,
}

-- i is in the list.
abbrev pub Among : ℕ → List ℕ → Type 0
Among i [] = ⊥
Among i (x ∷ xs) = (x ≡ i) ⊎ Among i xs

pub Among-append_right : (i : ℕ) (xs ys : List ℕ) → Among i ys → Among i (xs ++ ys)
Among-append_right i [] ys h = h
Among-append_right i (x ∷ xs) ys h = inr (Among-append_right i xs ys h)

pub Among-map :
    (es : List (Bytes × PageCacheEntry)) (p : Bytes) (e : PageCacheEntry) (ys : List ℕ)
    → lookup p es ≡ some e
    → Among e.exec (map (λ (x : Bytes × PageCacheEntry). x.1.exec) es ++ ys)
unfolding lookup
Among-map [] p e ys h = absurd (cc h)
Among-map ((k, x) ∷ es) p e ys h = elim (Bool-cases (same k p)) [
  | inl s ↦ inl (ap (λ y. y.exec) (some_inj (rw s at h)))
  | inr s ↦ inr (Among-map es p e ys (rw s at h))
]

abbrev pub IsDestroyed : Handler → ℕ → Type 0
IsDestroyed h i = (h.execs i).exec.destroyed ≡ true

pub data IsKnown (h : Handler) (i : ℕ) : Type 0 where
  destroyed : IsDestroyed h i → IsKnown h i
  in_cache :
      (page : Bytes) (e : PageCacheEntry)
      → lookup page h.page_cache ≡ some e
      → e.exec ≡ i
      → IsKnown h i
  in_closing : Among i h.closing → IsKnown h i

pub record IsKept (h : Handler) : Type 0 where
  pub shared : (i : ℕ) → Reach (h.execs i)
  pub known : (i : ℕ) → i < h.next → IsKnown h i
  pub emptied : (h.closed ≡ false) ⊎ (h.page_cache ≡ [])

pub change_self : (i : ℕ) (s : Shared) (execs : ℕ → Shared) → change i s execs i ≡ s
unfolding change
change_self i s execs = rw ((==_iff i i).1 refl)

change_other :
    (i j : ℕ) (s : Shared) (execs : ℕ → Shared) → (i == j) ≡ false → change i s execs j ≡ execs j
unfolding change
change_other i j s execs e = rw e

-- What the new state and all old ones have, all states have.
change_all :
    (P : ℕ → Shared → Type 0) (i : ℕ) (s : Shared) (execs : ℕ → Shared)
    → P i s
    → (j : ℕ) → P j (execs j)
    → P j (change i s execs j)
unfolding change
change_all P i s execs new j old = elim (Bool-cases (i == j)) [
  | inl e ↦ rw e (subst (λ k. P k s) ((==_iff i j).0 e) new)
  | inr e ↦ rw e old
]

IsKnown-change :
    (i : ℕ) (s : Shared) (h : Handler)
    → ((h.execs i).exec.destroyed ≡ true → s.exec.destroyed ≡ true)
    → (j : ℕ) → IsKnown h j
    → IsKnown (record h { execs = change i s h.execs }) j
IsKnown-change i s h stays j (in_cache page e a b) = in_cache page e a b
IsKnown-change i s h stays j (in_closing a) = in_closing a
IsKnown-change i s h stays j (destroyed d) = destroyed (
    change_all (λ k x. (h.execs k).exec.destroyed ≡ true → x.exec.destroyed ≡ true) i s h.execs
      stays j (λ e. e) d)

IsKept-change :
    (i : ℕ) (s : Shared) (h : Handler)
    → Reach s
    → ((h.execs i).exec.destroyed ≡ true → s.exec.destroyed ≡ true)
    → IsKept h
    → IsKept (record h { execs = change i s h.execs })
IsKept-change i s h r stays k = record {
  shared = λ j. change_all (λ n x. Reach x) i s h.execs r j (k.shared j);
  known = λ j l. IsKnown-change i s h stays j (k.known j l);
  emptied = k.emptied;
}

-- Close destroys, and nothing else takes that back.
closed_once-destroyed : (s : Shared) → (closed_once s).exec.destroyed ≡ true
unfolding close
closed_once-destroyed s = by s.exec.destroyed refl
  where
    by : (b : Bool) → b ≡ s.exec.destroyed → (close s.exec).0.destroyed ≡ true
    by true e = rw (sym e, close)
    by false e = rw (sym e, close)

held-destroyed : (s : Shared) → (held s).exec.destroyed ≡ s.exec.destroyed
unfolding acquire
held-destroyed s = by s.exec.destroyed
  where
    by :
        (b : Bool)
        → (if◌then◌else◌ {A = RefCountedTemplater × Bool} b
            (s.exec, false)
            (record (s.exec) { refs = incr s.exec.refs }, true)).0.destroyed
          ≡ s.exec.destroyed
    by true = refl
    by false = refl

pub IsKept-close_exec : (i : ℕ) (h : Handler) → IsKept h → IsKept (close_exec i h)
unfolding close_exec
IsKept-close_exec i h k =
    IsKept-change i (closed_once (h.execs i)) h (next (k.shared i) closing)
      (λ e. closed_once-destroyed (h.execs i)) k

pub close_exec-IsDestroyed : (i : ℕ) (h : Handler) → IsDestroyed (close_exec i h) i
unfolding close_exec
close_exec-IsDestroyed i h =
    ap (λ s. s.exec.destroyed) (change_self i (closed_once (h.execs i)) h.execs)
    ∙ closed_once-destroyed (h.execs i)

IsKept-held :
    (i : ℕ) (h : Handler)
    → (acquire (h.execs i).exec).1 ≡ true
    → IsKept h
    → IsKept (record h { execs = change i (held (h.execs i)) h.execs })
IsKept-held i h a k =
    IsKept-change i (held (h.execs i)) h (next (k.shared i) (acquired a))
      (λ e. held-destroyed (h.execs i) ∙ e) k

pub IsKept-let_go :
    (i n : ℕ) (h : Handler)
    → (h.execs i).holders ≡ suc n
    → IsKept h
    → IsKept (record h { execs = change i (let_go n (h.execs i)) h.execs })
unfolding release
IsKept-let_go i n h a k =
    IsKept-change i (let_go n (h.execs i)) h (next (k.shared i) (releasing n a)) (λ e. e) k

pub IsKept-find :
    (page : Bytes) (mode_time : ℕ) (h : Handler) → IsKept h → IsKept (find page mode_time h).0
unfolding find
IsKept-find page mode_time h k = elim (Option-cases (lookup page h.page_cache)) [
  | inl e ↦ rw (e, find) k
  | inr (x, e) ↦ elim (Bool-cases (x.mode_time == mode_time && (acquire (h.execs x.exec).exec).1)) [
    | inr no_hit ↦ rw (e, find, no_hit) k
    | inl hit ↦ rw (e, find, hit) (IsKept-held x.exec h (and_right _ _ hit) k)
  ]
]
  where
    and_right : (a b : Bool) → a && b ≡ true → b ≡ true
    and_right true b e = e
    and_right false b e = absurd (cc e)

-- A page leaves the cache after its templater was closed.
pub IsKept-erase :
    (page : Bytes) (e : PageCacheEntry) (h : Handler)
    → lookup page h.page_cache ≡ some e
    → IsDestroyed h e.exec
    → IsKept h
    → IsKept (record h { page_cache = erase page h.page_cache })
unfolding erase
IsKept-erase page e h at_page gone k = record {
  shared = k.shared;
  known = λ j l. still j (k.known j l);
  emptied = elim k.emptied [ inl open_ ↦ inl open_ | inr empty ↦ inr (ap (erase page) empty) ];
}
  where
    still : (j : ℕ) → IsKnown h j → IsKnown (record h { page_cache = erase page h.page_cache }) j
    still j (destroyed d) = destroyed d
    still j (in_closing a) = in_closing a
    still j (in_cache p x a b) = elim (Bool-cases (same page p)) [
      | inl s ↦
          let p_eq = (same_iff page p).0 s in
          let x_eq : e ≡ x =
            some_inj (sym at_page ∙ subst (λ q. lookup q h.page_cache ≡ some x) (sym p_eq) a) in
          destroyed (subst (IsDestroyed h) (ap (λ y. y.exec) x_eq ∙ b) gone)
      | inr s ↦ in_cache p x (lookup-erase page p h.page_cache ∙ rw s a) b
    ]

-- A new page, in the place of one whose templater was closed.
pub IsKept-cached :
    (page : Bytes) (mode_time : ℕ) (h : Handler)
    → ((e : PageCacheEntry) → lookup page h.page_cache ≡ some e → IsDestroyed h e.exec)
    → h.closed ≡ false
    → IsKept h
    → IsKept (cached page mode_time h)
unfolding acquire
IsKept-cached page mode_time h gone is_open k = record {
  shared = λ j.
      change_all (λ n x. Reach x) h.next (held new_shared) h.execs (next here (acquired refl)) j
        (k.shared j);
  known = λ j l. elim (Bool-cases (h.next == j)) [
    | inl e ↦
        in_cache page new_entry
          (lookup-insert page page new_entry h.page_cache ∙ rw (same_refl page))
          ((==_iff h.next j).0 e)
    | inr e ↦ still j e (k.known j (ground arith))
  ];
  emptied = inl is_open;
}
  where
    new_entry : PageCacheEntry
    new_entry = record { exec = h.next; mode_time = mode_time }

    kept_of :
        (j : ℕ) → (h.next == j) ≡ false → IsDestroyed h j → IsDestroyed (cached page mode_time h) j
    kept_of j e d =
        ap (λ x. x.exec.destroyed) (change_other h.next j (held new_shared) h.execs e) ∙ d

    still : (j : ℕ) → (h.next == j) ≡ false → IsKnown h j → IsKnown (cached page mode_time h) j
    still j e (destroyed d) = destroyed (kept_of j e d)
    still j e (in_closing a) = in_closing a
    still j e (in_cache p x a b) = elim (Bool-cases (same page p)) [
      | inl s ↦
          let p_eq = (same_iff page p).0 s in
          destroyed (
            kept_of j e (
              subst (IsDestroyed h) b
                (gone x (subst (λ q. lookup q h.page_cache ≡ some x) (sym p_eq) a))))
      | inr s ↦ in_cache p x (lookup-insert page p new_entry h.page_cache ∙ rw s a) b
    ]
