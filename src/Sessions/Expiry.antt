-- ===== src/Sessions/Expiry.antt =====
-- What the regular clean-up changes.
use vweb.Common.{
  ℕ, ◌≤◌, ◌≡◌, refl, sym, ap, ◌∙◌, true, Option, none, some, List, [], ◌∷◌, ◌++◌, arith, Bytes,
  ◌==◌, same, same_iff, All, All-append, if◌then◌else◌, Bool-cases, inl, inr,
}
use vweb.Vmap.{VMap, IsMap}
use vweb.Sessions.{
  Sessioner, ManageSession, Table, is_late, get_session, mark, check_loop, del_all, check_dead_all,
}
use vweb.Sessions.Lookup.{alive, get_session-alive}

module _ (api : Sessioner) (lib : VMap (ManageSession (api.Session))) (laws : IsMap lib) where
  is_late-later :
      (expired now later : ℕ) (ms : ManageSession (api.Session))
      → now ≤ later
      → is_late api lib expired now ms ≡ true
      → is_late api lib expired later ms ≡ true
  unfolding is_late
  is_late-later expired now later ms h l = ground arith

  -- What the identifiers show at the time `later`, as a function of them.
  module _ (expired now later : ℕ) (shown : Bytes → Option (api.Session)) where
    abbrev Shows : lib.Map → Type 0
    Shows m = (j : Bytes) → alive api lib laws expired later (lib.get_has m j) ≡ shown j

    abbrev IsGone : Bytes → Type 0
    IsGone id = shown id ≡ none

    chosen :
        (id j : Bytes) (x y : Option (ManageSession (api.Session)))
        → IsGone id
        → alive api lib laws expired later x ≡ none
        → alive api lib laws expired later y ≡ shown j
        → alive api lib laws expired later (if same id j then x else y) ≡ shown j
    chosen id j x y g a b = elim (Bool-cases (same id j)) [
      | inl e ↦ rw e (a ∙ sym g ∙ ap shown ((same_iff id j).0 e))
      | inr e ↦ rw e b
    ]

    Shows-mark :
        (id : Bytes) (ms : ManageSession (api.Session)) (t : Table api lib)
        → IsGone id
        → Shows t.ss
        → Shows (mark api lib id ms t).ss
    Shows-mark id ms t g h = λ j.
        ap (alive api lib laws expired later)
          (laws.get_has-set t.ss id j (record ms { unavailable = true }))
        ∙ chosen id j (some (record ms { unavailable = true })) (lib.get_has t.ss j) g refl (h j)

    Shows-del_all :
        (ids : List Bytes) (m : lib.Map) → All IsGone ids → Shows m → Shows (del_all api lib ids m)
    unfolding del_all
    Shows-del_all [] m g h = h
    Shows-del_all (id ∷ ids) m (g, gs) h = Shows-del_all ids (lib.del m id) gs (λ j.
        ap (alive api lib laws expired later) (laws.get_has-del m id j)
        ∙ chosen id j none (lib.get_has m j) g refl (h j))

    abbrev Kept : Table api lib × List Bytes → Type 0
    Kept (t, ids) = (t.expired ≡ expired) × Shows t.ss × All IsGone ids

    -- An entry that is late now shows nothing later.
    abbrev IsGoneIfLate : Bytes × ManageSession (api.Session) → Type 0
    IsGoneIfLate (id, ms) = is_late api lib expired now ms ≡ true → IsGone id

    Kept-check_loop :
        (es : List (Bytes × ManageSession (api.Session))) (t : Table api lib) (ids : List Bytes)
        → All IsGoneIfLate es
        → Kept (t, ids)
        → Kept (check_loop api lib now es (t, ids))
    unfolding check_loop
    Kept-check_loop [] t ids g k = k
    Kept-check_loop ((id, ms) ∷ es) t ids (g, gs) (e, h, a) = elim (Bool-cases ms.unavailable) [
      | inl u ↦ rw u (Kept-check_loop es t ids gs (e, h, a))
      | inr u ↦ elim (Bool-cases (is_late api lib t.expired now ms)) [
        | inr l ↦ rw (u, l) (Kept-check_loop es t ids gs (e, h, a))
        | inl l ↦
            let gone : IsGone id = g (ap (λ x. is_late api lib x now ms) (sym e) ∙ l) in
            rw (u, l)
              (Kept-check_loop es (mark api lib id ms t) (ids ++ id ∷ []) gs
                (e, Shows-mark id ms t gone h, All-append IsGone ids (id ∷ []) a (gone, tt)))
      ]
    ]

  module _ (now later : ℕ) (h : now ≤ later) (t : Table api lib) where
    abbrev shown_by : Bytes → Option (api.Session)
    shown_by j = alive api lib laws t.expired later (lib.get_has t.ss j)

    alive-late :
        (ms : ManageSession (api.Session))
        → is_late api lib t.expired now ms ≡ true
        → alive api lib laws t.expired later (some ms) ≡ none
    unfolding is_late
    alive-late ms l = elim (Bool-cases ms.unavailable) [
      | inl u ↦ rw u
      | inr u ↦ rw (u, is_late-later t.expired now later ms h l)
    ]

    IsGoneIfLate-entries :
        (es : List (Bytes × ManageSession (api.Session)))
        → All (λ e. lib.get_has t.ss e.0 ≡ some e.1) es
        → All (IsGoneIfLate t.expired now later shown_by) es
    IsGoneIfLate-entries [] s = tt
    IsGoneIfLate-entries ((id, ms) ∷ es) (s, ss) = (
      λ l. ap (alive api lib laws t.expired later) s ∙ alive-late ms l,
      IsGoneIfLate-entries es ss,
    )

    abbrev swept : Table api lib × List Bytes
    swept = check_loop api lib now (lib.entries t.ss) (t, [])

    Kept-swept : Kept t.expired now later shown_by swept
    Kept-swept =
        Kept-check_loop t.expired now later shown_by (lib.entries t.ss) t []
          (IsGoneIfLate-entries (lib.entries t.ss) (laws.entries-sound t.ss)) (refl, λ j. refl, tt)

    get_session-swept :
        (j : Bytes)
        → (get_session api lib later j
            (record (swept.0) { ss = del_all api lib swept.1 swept.0.ss })).1
          ≡ (get_session api lib later j t).1
    get_session-swept j =
        let (e, k, a) = Kept-swept in
        get_session-alive api lib laws later j
          (record (swept.0) { ss = del_all api lib swept.1 swept.0.ss })
        ∙ ap (λ x. alive api lib laws x later (lib.get_has (del_all api lib swept.1 swept.0.ss) j))
            e
        ∙ Shows-del_all t.expired now later shown_by swept.1 swept.0.ss a k j
        ∙ sym (get_session-alive api lib laws later j t)

    -- CheckDeadAll changes the answer of no later GetSession: it drops only sessions that these would
    -- not give any more.
    pub get_session-check_dead_all :
        (j : Bytes)
        → (get_session api lib later j (check_dead_all api lib now t).0).1
          ≡ (get_session api lib later j t).1
    unfolding check_dead_all
    get_session-check_dead_all j = elim (Bool-cases (t.expired == 0)) [
      | inl e ↦ rw e
      | inr e ↦ rw e (get_session-swept j)
    ]
