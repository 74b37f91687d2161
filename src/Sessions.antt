-- ===== src/Sessions.antt =====
-- Sessions.go: the sessions of a site by their identifiers. The map that holds them is of package
-- vmap and a parameter; a session that is stored there is a pointer, so a write to it is a `set`.
-- Times and Expired are numbers of nanoseconds, Expired not negative.
pub mod Lookup
pub mod Expiry
mod Tests
use vweb.Vmap.{VMap}
use vweb.Common.{
  ℕ, ◌+◌, ◌≡◌, Bool, true, false, not, ◌&&◌, Option, none, some, List, [], ◌∷◌, ◌++◌, Bytes, ltb,
  ◌==◌, same, All, if◌then◌else◌,
}

-- Sessioner: the token, and the write of the identifier, which does nothing to a foreign type.
pub record Sessioner : Type 1 where
  pub Session : Type 0
  pub token : Session → Bytes
  pub with_id : Bytes → Session → Session

pub record ManageSession (S : Type 0) : Type 0 where
  pub s : S
  pub recent : ℕ
  pub unavailable : Bool

-- `freed` lists the sessions whose Free was started, the last one first.
pub record SessionTable (M S : Type 0) : Type 0 where
  pub expired : ℕ
  pub ss : M
  pub freed : List S

module _ (api : Sessioner) (lib : VMap (ManageSession (api.Session))) where
  abbrev pub Table : Type 0
  Table = SessionTable lib.Map (api.Session)

  -- The test of the time, in triggerDeadSession and in CheckDeadAll.
  unfoldable pub is_late : ℕ → ℕ → ManageSession (api.Session) → Bool
  is_late expired now ms = not (expired == 0) && ltb (ms.recent + expired) now

  -- ms.unavailable = true and go ms.s.Free()
  abbrev pub mark : Bytes → ManageSession (api.Session) → Table → Table
  mark id ms t = record t {
    ss = lib.set t.ss id (record ms { unavailable = true });
    freed = ms.s ∷ t.freed;
  }

  abbrev pub drop_id : Bytes → Table → Table
  drop_id id t = record t { ss = lib.del t.ss id }

  unfoldable pub get_session : ℕ → Bytes → Table → Table × Option (api.Session)
  unfolding is_late
  get_session now id t = elim (lib.get_has t.ss id) [
    | none ↦ (t, none)
    | some ms ↦
        if ms.unavailable
        then (t, none)
        else if is_late t.expired now ms
        then (drop_id id (mark id ms t), none)
        else (record t { ss = lib.set t.ss id (record ms { recent = now }) }, some ms.s)
  ]

  abbrev pub store : ℕ → Bytes → api.Session → Table → Table × api.Session
  store now id s t = (
    record t {
      ss = lib.set t.ss id (record { s = api.with_id id s; recent = now; unavailable = false });
    },
    api.with_id id s,
  )

  unfoldable pub set_session : ℕ → Bytes → api.Session → Table → Table × api.Session
  set_session now id s t = elim (lib.get_has t.ss id) [
    | none ↦ store now id s t
    | some ms ↦
        if ms.unavailable
        then store now id s t
        else if same (api.token ms.s) (api.token s)
        then (t, s)
        else store now id s (mark id ms t)
  ]

  -- `fresh` is new(Session).
  unfoldable pub new_session : ℕ → Bytes → api.Session → Table → Table × api.Session
  unfolding get_session set_session
  new_session now id fresh t =
      let (t', found) = get_session now id t in
      elim found [ some s ↦ (t', s) | none ↦ set_session now id fresh t' ]

  unfoldable pub del_session : Bytes → Table → Table
  del_session id t = elim (lib.get_has t.ss id) [
    | none ↦ t
    | some ms ↦ record t { ss = lib.del t.ss id; freed = ms.s ∷ t.freed }
  ]

  -- The visits of CheckDeadAll, with `currTime` and `expID`.
  unfoldable pub check_loop :
      ℕ → List (Bytes × ManageSession (api.Session)) → Table × List Bytes → Table × List Bytes
  unfolding is_late
  check_loop now [] (t, exp_id) = (t, exp_id)
  check_loop now ((id, ms) ∷ es) (t, exp_id) =
      let passed = check_loop now es (t, exp_id) in
      let expired = check_loop now es (mark id ms t, exp_id ++ id ∷ []) in
      if ms.unavailable then passed else if is_late t.expired now ms then expired else passed

  -- Dels
  unfoldable pub del_all : List Bytes → lib.Map → lib.Map
  del_all [] m = m
  del_all (id ∷ ids) m = del_all ids (lib.del m id)

  unfoldable pub check_dead_all : ℕ → Table → Table × List Bytes
  unfolding check_loop del_all
  check_dead_all now t =
      if t.expired == 0
      then (t, [])
      else let (t', exp_id) = check_loop now (lib.entries t.ss) (t, []) in
        (record t' { ss = del_all exp_id t'.ss }, exp_id)

  -- The visits of InstantDeadAll, and Reset.
  unfoldable pub kill_loop : List (Bytes × ManageSession (api.Session)) → Table → Table
  kill_loop [] t = t
  kill_loop ((id, ms) ∷ es) t =
      let passed = kill_loop es t in
      let killed = kill_loop es (mark id ms t) in if ms.unavailable then passed else killed

  unfoldable pub instant_dead_all : Table → Table
  unfolding kill_loop
  instant_dead_all t = record (kill_loop (lib.entries t.ss) t) { ss = lib.empty }
