-- ===== src/Server/Listeners/Rounds.antt =====
-- What one round of an update makes of the servers.
use vweb.Common.{
  ℕ, ◌+◌, ◌≤◌, ◌≡◌, refl, sym, ap, ◌∙◌, subst, true, false, ◌⊎◌, inl, inr, Option, none, some, List,
  [], ◌∷◌, arith, Bytes, same, same_iff, same_refl, lookup, if◌then◌else◌, Bool-cases, Option-cases,
}
use vweb.Vmap.{VMap, IsMap}
use vweb.Server.Listeners.{
  Settings, Server, Srv, Lis, State, new_server, listen_start, start_with, listen_stop, write_back,
  is_changed, restart, follow,
}
use vweb.Server.Listeners.Changes.{HasSettings, HasOther, is_changed-settings, neither, one_of}

-- No address stands twice.
abbrev pub IsDistinct : {V : Type 0} → List (Bytes × V) → Type 0
IsDistinct [] = Unit
IsDistinct ((k, v) ∷ m) = (lookup k m ≡ none) × IsDistinct m

module _ (conf : Settings) (lib : VMap (Server (conf.ConnConf) (conf.ServerConf)))
    (laws : IsMap lib) where
  -- There is no server, or one with other settings.
  abbrev pub NeedsStart : Lis conf lib → Option (Srv conf lib) → Type 0
  NeedsStart cl old =
      (old ≡ none) ⊎ ((srv : Srv conf lib) × ((old ≡ some srv) × HasOther conf lib cl srv))

  -- What an update with the setting `cl` of an address makes of the server there; `n` is a number that
  -- no server had before.
  pub data Follows (n : ℕ) (cl : Lis conf lib) (old new : Option (Srv conf lib)) : Type 0 where
    off : cl.status ≡ false → new ≡ none → Follows n cl old new
    kept :
        (srv : Srv conf lib)
        → cl.status ≡ true
        → old ≡ some srv
        → HasSettings conf lib cl srv
        → new ≡ some srv
        → Follows n cl old new
    failed :
        cl.status ≡ true
        → NeedsStart cl old
        → conf.tls_fails cl.cs ≡ true
        → new ≡ none
        → Follows n cl old new
    fresh :
        (id : ℕ)
        → cl.status ≡ true
        → NeedsStart cl old
        → conf.tls_fails cl.cs ≡ false
        → n ≤ id
        → new
          ≡ some (record { id = id; c_conn = some cl.cc; c_server = some cl.cs; running = false })
        → Follows n cl old new

  abbrev pub at : Bytes → State conf lib → Option (Srv conf lib)
  at j g = lib.get_has g.srv_man j

  pub at-listen_stop :
      (k j : Bytes) (g : State conf lib)
      → at j (listen_stop conf lib k g) ≡ (if same k j then none else at j g)
  unfolding listen_stop
  at-listen_stop k j g = elim (Option-cases (lib.get_has g.srv_man k)) [
    | inl e ↦ rw (e, listen_stop) (unchanged (Bool-cases (same k j)) e)
    | inr (srv, e) ↦ rw (e, listen_stop) (laws.get_has-del g.srv_man k j)
  ]
    where
      unchanged :
          (same k j ≡ true) ⊎ (same k j ≡ false)
          → at k g ≡ none
          → at j g ≡ (if same k j then none else at j g)
      unchanged (inl s) e = rw s (subst (λ i. at i g ≡ none) ((same_iff k j).0 s) e)
      unchanged (inr s) e = rw s

  abbrev fresh_server : Lis conf lib → ℕ → Srv conf lib
  fresh_server cl n = record { id = n; c_conn = some cl.cc; c_server = some cl.cs; running = false }

  new_server-none :
      (k : Bytes) (g : State conf lib)
      → at k g ≡ none
      → new_server conf lib k g ≡ (
        record { id = g.next; c_conn = none; c_server = none; running = false },
        record g { next = g.next + 1 },
      )
  unfolding new_server
  new_server-none k g e = rw (e, new_server)

  -- Where there is no server, `listen_start` makes this of the state.
  abbrev started_at : Bytes → Lis conf lib → State conf lib → State conf lib
  started_at k cl g = if conf.tls_fails cl.cs then record g { next = g.next + 1 } else record g {
    srv_man = lib.set g.srv_man k (fresh_server cl g.next);
    next = g.next + 1;
    started = g.next ∷ g.started;
  }

  listen_start-none :
      (k : Bytes) (cl : Lis conf lib) (g : State conf lib)
      → at k g ≡ none
      → (listen_start conf lib k cl g).0 ≡ started_at k cl g
  unfolding listen_start
  listen_start-none k cl g e =
      ap (λ p. (start_with conf lib k cl p).0) (new_server-none k g e)
      ∙ begun (Bool-cases (conf.tls_fails cl.cs))
    where
      begun :
          (conf.tls_fails cl.cs ≡ true) ⊎ (conf.tls_fails cl.cs ≡ false)
          → (start_with conf lib k cl (
            record { id = g.next; c_conn = none; c_server = none; running = false },
            record g { next = g.next + 1 },
          )).0
            ≡ started_at k cl g
      begun (inl t) = rw (t, write_back, e)
      begun (inr t) = rw t

  -- One round of the loop: what it makes of the server at its address, and of those elsewhere.
  pub record Round (k : Bytes) (cl : Lis conf lib) (g g' : State conf lib) : Type 0 where
    pub here : Follows g.next cl (at k g) (at k g')
    pub elsewhere : (j : Bytes) → same k j ≡ false → at j g' ≡ at j g
    pub grows : g.next ≤ g'.next

  Round-started_at :
      (k : Bytes) (cl : Lis conf lib) (g : State conf lib) (old : Option (Srv conf lib))
      → cl.status ≡ true
      → NeedsStart cl old
      → at k g ≡ none
      → Follows g.next cl old (at k (started_at k cl g))
        × ((j : Bytes) → same k j ≡ false → at j (started_at k cl g) ≡ at j g)
        × (g.next ≤ (started_at k cl g).next)
  Round-started_at k cl g old s n e = elim (Bool-cases (conf.tls_fails cl.cs)) [
    | inl t ↦ rw t (failed s n t e, λ j d. refl, omega arith)
    | inr t ↦ rw t (
      fresh g.next s n t (omega arith)
          (rw (laws.get_has-set g.srv_man k k (fresh_server cl g.next), same_refl k)),
      λ j d. rw (laws.get_has-set g.srv_man k j (fresh_server cl g.next), d),
      omega arith,
    )
  ]

  pub next-listen_stop : (k : Bytes) (g : State conf lib) → (listen_stop conf lib k g).next ≡ g.next
  unfolding listen_stop
  next-listen_stop k g = elim (Option-cases (lib.get_has g.srv_man k)) [
    | inl e ↦ rw (e, listen_stop)
    | inr (srv, e) ↦ rw (e, listen_stop)
  ]

  pub at-listen_stop_self :
      (k : Bytes) (g : State conf lib) → at k (listen_stop conf lib k g) ≡ none
  at-listen_stop_self k g = at-listen_stop k k g ∙ rw (same_refl k)

  pub at-listen_stop_other :
      (k j : Bytes) (g : State conf lib)
      → same k j ≡ false
      → at j (listen_stop conf lib k g) ≡ at j g
  at-listen_stop_other k j g d = at-listen_stop k j g ∙ rw d

  Round-started :
      (k : Bytes) (cl : Lis conf lib) (g : State conf lib)
      → cl.status ≡ true
      → at k g ≡ none
      → Round k cl g (listen_start conf lib k cl g).0
  Round-started k cl g s e =
      let (h, o, n) = Round-started_at k cl g (at k g) s (inl e) e in
      subst (Round k cl g) (sym (listen_start-none k cl g e))
        (record { here = h; elsewhere = o; grows = n })

  Round-restart :
      (k : Bytes) (cl : Lis conf lib) (g : State conf lib)
      → cl.status ≡ true
      → NeedsStart cl (at k g)
      → Round k cl g (restart conf lib k cl g)
  unfolding restart
  Round-restart k cl g s c =
      let g' = listen_stop conf lib k g in
      let e = at-listen_stop_self k g in
      let (h, o, n) = Round-started_at k cl g' (at k g) s c e in
      let same_next = next-listen_stop k g in
      subst (Round k cl g) (sym (listen_start-none k cl g' e)) (record {
        here = subst (λ m. Follows m cl (at k g) (at k (started_at k cl g'))) same_next h;
        elsewhere = λ j d. o j d ∙ at-listen_stop_other k j g d;
        grows = omega (arith, n, same_next);
      })

  pub Round-follow :
      (k : Bytes) (cl : Lis conf lib) (g : State conf lib) → Round k cl g (follow conf lib k cl g)
  unfolding follow listen_start restart
  Round-follow k cl g = elim (Bool-cases cl.status) [
    | inr s ↦
        subst (Round k cl g) (let e : listen_stop conf lib k g ≡ follow conf lib k cl g = rw s in e)
          (record {
            here = off s (at-listen_stop_self k g);
            elsewhere = λ j d. at-listen_stop_other k j g d;
            grows = omega (arith, next-listen_stop k g);
          })
    | inl s ↦ elim (Option-cases (lib.get_has g.srv_man k)) [
      | inl e ↦
          subst (Round k cl g)
            (let q : (listen_start conf lib k cl g).0 ≡ follow conf lib k cl g =
                rw (s, follow, e) in
              q)
            (Round-started k cl g s e)
      | inr (srv, e) ↦ elim (Bool-cases (is_changed conf lib srv cl)) [
        | inl c ↦
            subst (Round k cl g)
              (let q : restart conf lib k cl g ≡ follow conf lib k cl g = rw (s, follow, e, c) in q)
              (Round-restart k cl g s (
                inr
                  (srv, (e, one_of conf lib _ _ (sym (is_changed-settings conf lib cl srv) ∙ c)))))
        | inr c ↦
            subst (Round k cl g) (let q : g ≡ follow conf lib k cl g = rw (s, follow, e, c) in q)
              (record {
                here =
                    kept srv s e
                      (neither conf lib _ _ (sym (is_changed-settings conf lib cl srv) ∙ c)) e;
                elsewhere = λ j d. refl;
                grows = omega arith;
              })
      ]
    ]
  ]
