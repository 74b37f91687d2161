-- ===== src/Dynamic/Templater/Tests.antt =====
-- A template that is shared: the theorem at a concrete run.
use vweb.Common.{refl, true}
use vweb.Common.Int.{pos}
use vweb.Dynamic.Templater.{
  close, acquire, release, Shared, closing, acquired, releasing, Reach, here, next,
}
use vweb.Dynamic.Templater.Lifetime.{IsClosedOnce, Reach-IsClosedOnce}

-- A request takes the template, the cache drops it, and the request ends.
abbrev ended : Shared
ended = record { exec = record { refs = pos 0; destroyed = true }; holders = 0; closes = 1 }

Reach-ended : Reach ended
unfolding close acquire release
Reach-ended = next (next (next here (acquired refl)) closing) (releasing 0 refl)

Reach-IsClosedOnce_example : IsClosedOnce ended
Reach-IsClosedOnce_example = Reach-IsClosedOnce ended Reach-ended
