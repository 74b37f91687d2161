-- ===== src/ExitCalls/Once.antt =====
-- Every call that was deferred in time runs once, the last one first.
use mathlib.Core.List.{reverse, reverse-cons}
use vweb.Common.{
  ◌≡◌, refl, sym, ap, ◌∙◌, Bool, true, false, Option, none, some, List, [], ◌∷◌, ◌++◌, append-nil,
  append_assoc, Option-cases, inl, inr, if◌then◌else◌,
}
use vweb.ExitCalls.{
  backwards, Session, free, free_calls, Op, deferring, freeing, defer, defer_call, executed,
  new_session,
}

backwards-reverse : {X : Type 0} (xs : List X) → backwards xs ≡ reverse xs
unfolding backwards
backwards-reverse [] = refl
backwards-reverse (x ∷ xs) =
    ap (λ ys. ys ++ x ∷ []) (backwards-reverse xs) ∙ sym (reverse-cons x xs)

module _ {C X : Type 0} (func : C → Option X) where
  -- The calls that are deferred before the first Free and that Func takes, in order.
  abbrev pub deferred_in_time : List (Op C) → List X
  deferred_in_time [] = []
  deferred_in_time (deferring call ∷ ops) = elim (func call) [
    | none ↦ deferred_in_time ops
    | some df ↦ df ∷ deferred_in_time ops
  ]
  deferred_in_time (freeing ∷ ops) = []

  abbrev pub has_free : List (Op C) → Bool
  has_free [] = false
  has_free (deferring call ∷ ops) = has_free ops
  has_free (freeing ∷ ops) = true

  abbrev ended : Session X
  ended = record { exit_call = record { efs = [] }; freed = true }

  abbrev living : List X → Session X
  living efs = record { exit_call = record { efs = efs }; freed = false }

  executed-ended : (ops : List (Op C)) → executed func ops ended ≡ []
  unfolding defer free free_calls backwards
  executed-ended [] = refl
  executed-ended (deferring call ∷ ops) = executed-ended ops
  executed-ended (freeing ∷ ops) = executed-ended ops

  executed-living :
      (ops : List (Op C)) (efs : List X)
      → executed func ops (living efs)
        ≡ (if has_free ops then backwards (efs ++ deferred_in_time ops) else [])
  unfolding defer free free_calls defer_call
  executed-living [] efs = refl
  executed-living (freeing ∷ ops) efs =
      ap (λ xs. backwards efs ++ xs) (executed-ended ops)
      ∙ append-nil (backwards efs)
      ∙ ap backwards (sym (append-nil efs))
  executed-living (deferring call ∷ ops) efs = elim (Option-cases (func call)) [
    | inl e ↦ rw (e, defer, defer_call, deferred_in_time) (executed-living ops efs)
    | inr (df, e) ↦
        rw (e, defer, defer_call, deferred_in_time)
          (executed-living ops (efs ++ df ∷ [])
            ∙ ap (λ xs. if has_free ops then backwards xs else [])
                (append_assoc efs (df ∷ []) (deferred_in_time ops)))
  ]

-- Whatever calls of Defer and Free follow each other on a new session: if there is a Free, what runs
-- is the reverse of the list of the calls that were deferred without an error before the first Free,
-- each once, and otherwise nothing. A further Free runs nothing.
pub executed-new_session :
    {C X : Type 0} (func : C → Option X) (ops : List (Op C))
    → executed func ops new_session
      ≡ (if has_free func ops then reverse (deferred_in_time func ops) else [])
executed-new_session func ops =
    executed-living func ops []
    ∙ ap (λ xs. if has_free func ops then xs else [])
        (backwards-reverse (deferred_in_time func ops))
