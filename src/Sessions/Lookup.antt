-- ===== src/Sessions/Lookup.antt =====
-- What GetSession gives after the other calls.
use vweb.Common.{
  ℕ, ◌+◌, ◌≡◌, refl, sym, ap, ◌∙◌, subst_some, Bool, true, false, not, ◌&&◌, ◌||◌, Option, none,
  some, Bytes, ltb, ◌==◌, same, if◌then◌else◌, Bool-cases, Option-cases, inl, inr, ◌⊎◌,
}
use vweb.Vmap.{VMap, IsMap}
use vweb.Sessions.{Sessioner, ManageSession, Table, is_late, get_session, set_session, store, mark}

module _ (api : Sessioner) (lib : VMap (ManageSession (api.Session))) (laws : IsMap lib) where
  -- The session of an entry at a time, if it may be given out.
  abbrev pub alive : ℕ → ℕ → Option (ManageSession (api.Session)) → Option (api.Session)
  alive expired now none = none
  alive expired now (some ms) =
      if ms.unavailable || is_late api lib expired now ms then none else some ms.s

  pub get_session-alive :
      (now : ℕ) (id : Bytes) (t : Table api lib)
      → (get_session api lib now id t).1 ≡ alive t.expired now (lib.get_has t.ss id)
  unfolding get_session
  get_session-alive now id t = elim (Option-cases (lib.get_has t.ss id)) [
    | inl e ↦ rw (get_session, e)
    | inr (ms, e) ↦ elim (Bool-cases ms.unavailable) [
      | inl u ↦ rw (get_session, e, u)
      | inr u ↦ elim (Bool-cases (is_late api lib t.expired now ms)) [
        | inl l ↦ rw (get_session, e, u, l)
        | inr l ↦ rw (get_session, e, u, l)
      ]
    ]
  ]

  -- SetSession leaves the session as it is: there is one under the identifier with the same token.
  abbrev pub keeps : Bytes → api.Session → Table api lib → Bool
  keeps id s t = elim (lib.get_has t.ss id) [
    | none ↦ false
    | some ms ↦ not ms.unavailable && same (api.token ms.s) (api.token s)
  ]

  abbrev pub entry : ℕ → Bytes → api.Session → ManageSession (api.Session)
  entry now id s = record { s = api.with_id id s; recent = now; unavailable = false }

  -- The table after a call holds this entry under the identifier, and the others as before.
  abbrev Holds : ManageSession (api.Session) → Bytes → Table api lib → Table api lib → Type 0
  Holds ms id before after =
      (after.expired ≡ before.expired)
      × ((j : Bytes)
          → lib.get_has after.ss j ≡ (if same id j then some ms else lib.get_has before.ss j))

  Holds-store :
      (now : ℕ) (id : Bytes) (s : api.Session) (t : Table api lib)
      → Holds (entry now id s) id t (store api lib now id s t).0
  Holds-store now id s t = (refl, λ j. laws.get_has-set t.ss id j (entry now id s))

  Holds-store-mark :
      (now : ℕ) (id : Bytes) (s : api.Session) (ms : ManageSession (api.Session))
      (t : Table api lib)
      → Holds (entry now id s) id t (store api lib now id s (mark api lib id ms t)).0
  Holds-store-mark now id s ms t = (refl, λ j. overwritten j)
    where
      overwritten :
          (j : Bytes)
          → lib.get_has (store api lib now id s (mark api lib id ms t)).0.ss j
            ≡ (if same id j then some (entry now id s) else lib.get_has t.ss j)
      overwritten j = elim (Bool-cases (same id j)) [
        | inl e ↦ rw (laws.get_has-set (mark api lib id ms t).ss id j (entry now id s), e)
        | inr e ↦ rw (
          laws.get_has-set (mark api lib id ms t).ss id j (entry now id s),
          laws.get_has-set t.ss id j (record ms { unavailable = true }),
          e,
        )
      ]

  Holds-set_session :
      (now : ℕ) (id : Bytes) (s : api.Session) (t : Table api lib)
      → keeps id s t ≡ false
      → Holds (entry now id s) id t (set_session api lib now id s t).0
  unfolding set_session
  Holds-set_session now id s t k = elim (Option-cases (lib.get_has t.ss id)) [
    | inl e ↦ rw (set_session, e) (Holds-store now id s t)
    | inr (ms, e) ↦ elim (Bool-cases ms.unavailable) [
      | inl u ↦ rw (set_session, e, u) (Holds-store now id s t)
      | inr u ↦ elim (Bool-cases (same (api.token ms.s) (api.token s))) [
        | inl d ↦ let c : keeps id s t ≡ true = rw (keeps, e, u, d) in absurd (cc)
        | inr d ↦ rw (set_session, e, u, d) (Holds-store-mark now id s ms t)
      ]
    ]
  ]

  -- What the identifiers give at a later time.
  get_session-Holds :
      (ms : ManageSession (api.Session)) (id j : Bytes) (before after : Table api lib) (later : ℕ)
      → Holds ms id before after
      → (get_session api lib later j after).1 ≡ (
          if same id j
          then alive before.expired later (some ms)
          else (get_session api lib later j before).1)
  get_session-Holds ms id j before after later (e, h) =
      get_session-alive later j after
      ∙ ap (λ x. alive x later (lib.get_has after.ss j)) e
      ∙ ap (alive before.expired later) (h j)
      ∙ chosen (Bool-cases (same id j))
    where
      chosen :
          (same id j ≡ true) ⊎ (same id j ≡ false)
          → alive before.expired later (if same id j then some ms else lib.get_has before.ss j) ≡ (
              if same id j
              then alive before.expired later (some ms)
              else (get_session api lib later j before).1)
      chosen (inl d) = rw d
      chosen (inr d) = rw d (sym (get_session-alive later j before))

  Holds-get_session :
      (now : ℕ) (id : Bytes) (s : api.Session) (t : Table api lib)
      → (get_session api lib now id t).1 ≡ some s
      → Holds
          (record { s = s; recent = now; unavailable = false })
          id
          t
          (get_session api lib now id t).0
  unfolding get_session
  Holds-get_session now id s t h = elim (Option-cases (lib.get_has t.ss id)) [
    | inl e ↦ let c : (get_session api lib now id t).1 ≡ none = rw (get_session, e) in absurd (cc)
    | inr (ms, e) ↦ elim (Bool-cases ms.unavailable) [
      | inl u ↦
          let c : (get_session api lib now id t).1 ≡ none = rw (get_session, e, u) in absurd (cc)
      | inr u ↦ elim (Bool-cases (is_late api lib t.expired now ms)) [
        | inl l ↦
            let c : (get_session api lib now id t).1 ≡ none = rw (get_session, e, u, l) in
            absurd (cc)
        | inr l ↦
            let c : (get_session api lib now id t).1 ≡ some ms.s = rw (get_session, e, u, l) in
            subst_some
              (λ x.
                Holds (record { s = x; recent = now; unavailable = false }) id t
                  (get_session api lib now id t).0)
              (sym c ∙ h)
              (rw (get_session, e, u, l)
                (
                  refl,
                  λ j.
                      laws.get_has-set t.ss id j
                        (record { s = ms.s; recent = now; unavailable = false }),
                ))
      ]
    ]
  ]

  -- What a session that was used at `now` gives later: nothing once more than Expired has passed,
  -- unless Expired is 0.
  abbrev pub kept_until : ℕ → ℕ → ℕ → api.Session → Option (api.Session)
  kept_until expired now later s =
      if not (expired == 0) && ltb (now + expired) later then none else some s

  -- After a SetSession that does not find the same session in the table: GetSession gives the new
  -- session under its identifier until it expires, and under any other what it gave before.
  pub get_session-set_session :
      (now later : ℕ) (id j : Bytes) (s : api.Session) (t : Table api lib)
      → keeps id s t ≡ false
      → (get_session api lib later j (set_session api lib now id s t).0).1 ≡ (
          if same id j
          then kept_until t.expired now later (api.with_id id s)
          else (get_session api lib later j t).1)
  unfolding is_late
  get_session-set_session now later id j s t k =
      get_session-Holds (entry now id s) id j t (set_session api lib now id s t).0 later
        (Holds-set_session now id s t k)

  -- After a GetSession that gives a session: its time begins anew, so that the same identifier gives it
  -- until it expires counted from that call, and any other identifier gives what it gave before.
  pub get_session-renewed :
      (now later : ℕ) (id j : Bytes) (s : api.Session) (t : Table api lib)
      → (get_session api lib now id t).1 ≡ some s
      → (get_session api lib later j (get_session api lib now id t).0).1 ≡ (
          if same id j then kept_until t.expired now later s else (get_session api lib later j t).1)
  unfolding is_late
  get_session-renewed now later id j s t h =
      get_session-Holds (record { s = s; recent = now; unavailable = false }) id j t
        (get_session api lib now id t).0 later (Holds-get_session now id s t h)
