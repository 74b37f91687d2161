-- ===== src/ExitCalls/Tests.antt =====
-- Exit calls: the theorem at a concrete input.
use mathlib.Core.List.{reverse}
use vweb.Common.{ℕ, ◌≡◌, refl, Option, none, some, List, [], ◌∷◌, if◌then◌else◌, ◌==◌}
use vweb.ExitCalls.{Op, deferring, freeing, executed, new_session, defer, free}
use vweb.ExitCalls.Once.{deferred_in_time, has_free, executed-new_session}

-- 0 is no function.
abbrev func : ℕ → Option ℕ
func n = if n == 0 then none else some n

abbrev ops : List (Op ℕ)
ops = deferring 1 ∷ deferring 0 ∷ deferring 2 ∷ freeing ∷ deferring 3 ∷ freeing ∷ []

executed_test : executed func ops new_session ≡ 2 ∷ 1 ∷ []
unfolding defer free
executed_test = refl

executed-new_session_example :
    executed func ops new_session
    ≡ (if has_free func ops then reverse (deferred_in_time func ops) else [])
executed-new_session_example = executed-new_session func ops
