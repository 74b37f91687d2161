-- ===== src/ExitCalls.antt =====
-- defer.go, `ExitCall`, and Session.go, `Defer` and `Free`: the calls that run when a session ends.
-- `func` stands for ExecCall.Func, which checks a function and its arguments by reflection; `none` is
-- its error. What runs is listed in the order of its execution.
pub mod Once
mod Tests
use vweb.Common.{Bool, true, false, Option, none, some, List, [], ◌∷◌, ◌++◌}

-- The order of the loop from the last call to the first.
unfoldable pub backwards {ℓ} : {A : Type ℓ} → List A → List A
backwards [] = []
backwards (x ∷ xs) = backwards xs ++ x ∷ []

pub record ExitCall (X : Type 0) : Type 0 where
  pub efs : List X

pub record Session (X : Type 0) : Type 0 where
  pub exit_call : ExitCall X
  pub freed : Bool

-- ExitCall.Free: what it executes, and what it leaves.
unfoldable pub free_calls : {X : Type 0} → ExitCall X → ExitCall X × List X
unfolding backwards
free_calls t = (record { efs = [] }, backwards t.efs)

-- Session.Free
unfoldable pub free : {X : Type 0} → Session X → Session X × List X
unfolding free_calls
free t =
    (record { exit_call = (free_calls t.exit_call).0; freed = true }, (free_calls t.exit_call).1)

pub data Op (C : Type 0) : Type 0 where
  deferring : C → Op C
  freeing : Op C

module _ {C X : Type 0} (func : C → Option X) where
  -- ExitCall.Defer; `none` is an error.
  unfoldable pub defer_call : C → ExitCall X → Option (ExitCall X)
  defer_call call t = elim (func call) [
    | none ↦ none
    | some df ↦ some (record { efs = t.efs ++ df ∷ [] })
  ]

  -- Session.Defer
  unfoldable pub defer : C → Session X → Option (Session X)
  unfolding defer_call
  defer call t = elim t.freed [
    | true ↦ none
    | false ↦ elim (defer_call call t.exit_call) [
      | none ↦ none
      | some e ↦ some (record t { exit_call = e })
    ]
  ]

  -- A session after a Defer, which an error leaves as it was.
  abbrev pub or_same : Session X → Option (Session X) → Session X
  or_same t none = t
  or_same t (some t') = t'

  -- The calls that run in the course of these operations.
  abbrev pub executed : List (Op C) → Session X → List X
  executed [] t = []
  executed (deferring call ∷ ops) t = executed ops (or_same t (defer call t))
  executed (freeing ∷ ops) t = (free t).1 ++ executed ops (free t).0

abbrev pub new_session : {X : Type 0} → Session X
new_session = record { exit_call = record { efs = [] }; freed = false }
