-- ===== src/Server/Listeners/Follows.antt =====
-- After an update the servers are those of the configuration.
use mathlib.Core.Option
use vweb.Common.{
  ℕ, ◌≤◌, ◌≡◌, refl, sym, ap, ◌∙◌, subst, true, false, ◌⊎◌, inl, inr, Option, none, some, List, [],
  ◌∷◌, arith, Bytes, same, same_iff, lookup, if◌then◌else◌, Bool-cases, Option-cases,
}
use vweb.Vmap.{VMap, IsMap}
use vweb.Server.Listeners.{
  Settings, Server, Srv, Lis, State, listen_stop, merged, merge_all, stop_missing, follow,
  follow_all, update_config_servers,
}
use vweb.Server.Listeners.Rounds.{
  IsDistinct, Follows, off, kept, failed, fresh, at, at-listen_stop, at-listen_stop_other,
  next-listen_stop, Round, Round-follow,
}

module _ (conf : Settings) (lib : VMap (Server (conf.ConnConf) (conf.ServerConf)))
    (laws : IsMap lib) where
  Follows-weaken :
      (m n : ℕ) (cl : Lis conf lib) (old new : Option (Srv conf lib))
      → m ≤ n
      → Follows conf lib laws n cl old new
      → Follows conf lib laws m cl old new
  Follows-weaken m n cl old new h (off a b) = off a b
  Follows-weaken m n cl old new h (kept srv a b c d) = kept srv a b c d
  Follows-weaken m n cl old new h (failed a b c d) = failed a b c d
  Follows-weaken m n cl old new h (fresh id a b c d e) = fresh id a b c (omega arith) e

  -- For an address with its setting, or with none.
  abbrev pub FollowsAny : ℕ → Option (Lis conf lib) → (old new : Option (Srv conf lib)) → Type 0
  FollowsAny n none old new = new ≡ old
  FollowsAny n (some cl) old new = Follows conf lib laws n cl old new

  FollowsAny-weaken :
      (m n : ℕ) (o : Option (Lis conf lib)) (old new : Option (Srv conf lib))
      → m ≤ n
      → FollowsAny n o old new
      → FollowsAny m o old new
  FollowsAny-weaken m n none old new h f = f
  FollowsAny-weaken m n (some cl) old new h f = Follows-weaken m n cl old new h f

  FollowsAny-follow_all :
      (listen : List (Bytes × Lis conf lib)) (g : State conf lib) (j : Bytes)
      → IsDistinct listen
      → FollowsAny g.next
          (lookup j listen)
          (at conf lib laws j g)
          (at conf lib laws j (follow_all conf lib listen g))
  unfolding follow_all lookup
  FollowsAny-follow_all [] g j d = refl
  FollowsAny-follow_all ((k, cl) ∷ listen) g j (d, ds) =
      let g' = follow conf lib k cl g in
      let r = Round-follow conf lib laws k cl g in
      let rest = FollowsAny-follow_all listen g' j ds in by_case g' r rest (Bool-cases (same k j))
    where
      by_case :
          (g' : State conf lib)
          → Round conf lib laws k cl g g'
          → FollowsAny g'.next
              (lookup j listen)
              (at conf lib laws j g')
              (at conf lib laws j (follow_all conf lib listen g'))
          → (same k j ≡ true) ⊎ (same k j ≡ false)
          → FollowsAny g.next
              (if same k j then some cl else lookup j listen)
              (at conf lib laws j g)
              (at conf lib laws j (follow_all conf lib listen g'))
      by_case g' r rest (inl e) =
          let i : k ≡ j = (same_iff k j).0 e in
          let unlisted : lookup j listen ≡ none = subst (λ x. lookup x listen ≡ none) i d in
          let stays : at conf lib laws j (follow_all conf lib listen g') ≡ at conf lib laws j g' =
            subst
              (λ o.
                FollowsAny g'.next o (at conf lib laws j g')
                  (at conf lib laws j (follow_all conf lib listen g')))
              unlisted rest in
          rw e (
            subst (Follows conf lib laws g.next cl (at conf lib laws j g)) (sym stays) (
              subst
                (λ x.
                  Follows conf lib laws g.next cl (at conf lib laws x g) (at conf lib laws x g'))
                i r.here))
      by_case g' r rest (inr e) = rw e (
          FollowsAny-weaken g.next g'.next (lookup j listen) (at conf lib laws j g)
            (at conf lib laws j (follow_all conf lib listen g')) r.grows
            (subst
              (λ o.
                FollowsAny g'.next (lookup j listen) o
                  (at conf lib laws j (follow_all conf lib listen g')))
              (r.elsewhere j e) rest))

  next-stop_missing :
      (es : List (Bytes × Srv conf lib)) (listen : List (Bytes × Lis conf lib)) (g : State conf lib)
      → (stop_missing conf lib es listen g).next ≡ g.next
  unfolding stop_missing
  next-stop_missing [] listen g = refl
  next-stop_missing ((ip, srv) ∷ es) listen g = elim (Option-cases (lookup ip listen)) [
    | inl e ↦
        rw (e, stop_missing)
          (next-stop_missing es listen (listen_stop conf lib ip g)
            ∙ next-listen_stop conf lib laws ip g)
    | inr (cl, e) ↦ rw (e, stop_missing) (next-stop_missing es listen g)
  ]

  stop_missing-listed :
      (es : List (Bytes × Srv conf lib)) (listen : List (Bytes × Lis conf lib)) (g : State conf lib)
      (j : Bytes) (cl : Lis conf lib)
      → lookup j listen ≡ some cl
      → at conf lib laws j (stop_missing conf lib es listen g) ≡ at conf lib laws j g
  unfolding stop_missing
  stop_missing-listed [] listen g j cl h = refl
  stop_missing-listed ((ip, srv) ∷ es) listen g j cl h = elim (Option-cases (lookup ip listen)) [
    | inl e ↦
        rw (e, stop_missing)
          (stop_missing-listed es listen (listen_stop conf lib ip g) j cl h
            ∙ at-listen_stop_other conf lib laws ip j g (other (Bool-cases (same ip j)) e))
    | inr (cl', e) ↦ rw (e, stop_missing) (stop_missing-listed es listen g j cl h)
  ]
    where
      other : (same ip j ≡ true) ⊎ (same ip j ≡ false) → lookup ip listen ≡ none → same ip j ≡ false
      other (inl s) e =
          let c : lookup j listen ≡ none =
            subst (λ x. lookup x listen ≡ none) ((same_iff ip j).0 s) e in
          absurd (cc)
      other (inr s) e = s

  stop_missing-unlisted :
      (es : List (Bytes × Srv conf lib)) (listen : List (Bytes × Lis conf lib)) (g : State conf lib)
      (j : Bytes)
      → lookup j listen ≡ none
      → (lookup j es ≡ none → at conf lib laws j g ≡ none)
      → at conf lib laws j (stop_missing conf lib es listen g) ≡ none
  unfolding stop_missing lookup
  stop_missing-unlisted [] listen g j h k = k refl
  stop_missing-unlisted ((ip, srv) ∷ es) listen g j h k = elim (Bool-cases (same ip j)) [
    | inl s ↦
        let e : lookup ip listen ≡ none =
          subst (λ x. lookup x listen ≡ none) (sym ((same_iff ip j).0 s)) h in
        rw (e, stop_missing)
          (stop_missing-unlisted es listen (listen_stop conf lib ip g) j h
            (λ _. at-listen_stop conf lib laws ip j g ∙ rw s))
    | inr s ↦ elim (Option-cases (lookup ip listen)) [
      | inl e ↦
          rw (e, stop_missing)
            (stop_missing-unlisted es listen (listen_stop conf lib ip g) j h
              (λ u. at-listen_stop_other conf lib laws ip j g s ∙ k (rw s u)))
      | inr (cl, e) ↦ rw (e, stop_missing) (stop_missing-unlisted es listen g j h (λ u. k (rw s u)))
    ]
  ]

  lookup-merge_all :
      (listen : List (Bytes × Lis conf lib)) (j : Bytes)
      → lookup j (merge_all conf lib listen) ≡ Option.map (merged conf lib) (lookup j listen)
  unfolding merge_all lookup
  lookup-merge_all [] j = refl
  lookup-merge_all ((k, cl) ∷ listen) j = elim (Bool-cases (same k j)) [
    | inl e ↦ rw e
    | inr e ↦ rw e (lookup-merge_all listen j)
  ]

  pub IsDistinct-merge_all :
      (listen : List (Bytes × Lis conf lib))
      → IsDistinct listen
      → IsDistinct (merge_all conf lib listen)
  unfolding merge_all
  IsDistinct-merge_all [] d = tt
  IsDistinct-merge_all ((k, cl) ∷ listen) (d, ds) = (
    lookup-merge_all listen k ∙ ap (Option.map (merged conf lib)) d,
    IsDistinct-merge_all listen ds,
  )

  -- What an update makes of the server at an address, with its setting or with none.
  abbrev pub Updates : ℕ → Option (Lis conf lib) → (old new : Option (Srv conf lib)) → Type 0
  Updates n none old new = new ≡ none
  Updates n (some cl) old new = Follows conf lib laws n cl old new

  pub Updates-merged :
      (ls : List (Bytes × Lis conf lib)) (g : State conf lib) (j : Bytes)
      → IsDistinct ls
      → Updates g.next (lookup j ls) (at conf lib laws j g) (
          at conf lib laws j
            (follow_all conf lib ls (stop_missing conf lib (lib.entries g.srv_man) ls g)))
  Updates-merged ls g j d =
      let es = lib.entries g.srv_man in
      let g' = stop_missing conf lib es ls g in
      let new = at conf lib laws j (follow_all conf lib ls g') in
      let f = FollowsAny-follow_all ls g' j d in
      elim (Option-cases (lookup j ls)) [
        | inl e ↦
            subst (λ o. Updates g.next o (at conf lib laws j g) new) (sym e)
              (subst (λ o. FollowsAny g'.next o (at conf lib laws j g') new) e f
                ∙ stop_missing-unlisted es ls g j e
                    (λ u. sym (laws.entries-lookup g.srv_man j) ∙ u))
        | inr (cl, e) ↦
            subst (λ o. Updates g.next o (at conf lib laws j g) new) (sym e)
              (subst (λ n. Follows conf lib laws n cl (at conf lib laws j g) new)
                (next-stop_missing es ls g)
                (subst (λ o. Follows conf lib laws g'.next cl o new)
                  (stop_missing-listed es ls g j cl e)
                  (subst (λ o. FollowsAny g'.next o (at conf lib laws j g') new) e f)))
      ]

  -- A configuration with distinct addresses is followed at every address: where it has none, or one
  -- that is off, there is no server afterwards; where the server there has the merged settings it is
  -- the same one as before; else there is one with these settings and a number not used before, which
  -- does not run yet, or none if its TLS files cannot be loaded.
  pub Updates-update_config_servers :
      (listen : List (Bytes × Lis conf lib)) (g : State conf lib) (j : Bytes)
      → IsDistinct listen
      → Updates g.next
          (Option.map (merged conf lib) (lookup j listen))
          (at conf lib laws j g)
          (at conf lib laws j (update_config_servers conf lib listen g))
  unfolding update_config_servers
  Updates-update_config_servers listen g j d =
      subst
        (λ o.
          Updates g.next o (at conf lib laws j g)
            (at conf lib laws j (update_config_servers conf lib listen g)))
        (lookup-merge_all listen j)
        (Updates-merged (merge_all conf lib listen) g j (IsDistinct-merge_all listen d))
