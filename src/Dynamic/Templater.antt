-- ===== src/Dynamic/Templater.antt =====
-- serverHandlerDynamic.go, `refCountedTemplater`: a template that the page cache and the requests in
-- progress share. What stands between Lock and Unlock is one step; the result of `close` and
-- `release` says whether the call goes on to close the template itself.
pub mod Lifetime
mod Tests
use vweb.Common.{ℕ, zero, suc, ◌+◌, ◌<◌, ◌≡◌, Bool, true, false, ◌&&◌, if◌then◌else◌}
use vweb.Common.Int.{ℤ, pos, negsuc}

pub record RefCountedTemplater : Type 0 where
  pub refs : ℤ
  pub destroyed : Bool

-- n + 1, n - 1 and n <= 0
abbrev pub incr : ℤ → ℤ
incr (pos n) = pos (n + 1)
incr (negsuc zero) = pos 0
incr (negsuc (suc n)) = negsuc n

abbrev pub decr : ℤ → ℤ
decr (pos zero) = negsuc 0
decr (pos (suc n)) = pos n
decr (negsuc n) = negsuc (suc n)

abbrev pub is_at_most_0 : ℤ → Bool
is_at_most_0 (pos zero) = true
is_at_most_0 (pos (suc n)) = false
is_at_most_0 (negsuc n) = true

unfoldable pub close : RefCountedTemplater → RefCountedTemplater × Bool
close r =
    if r.destroyed
    then (r, false)
    else (record { refs = decr r.refs; destroyed = true }, is_at_most_0 (decr r.refs))

unfoldable pub acquire : RefCountedTemplater → RefCountedTemplater × Bool
acquire r = if r.destroyed then (r, false) else (record r { refs = incr r.refs }, true)

unfoldable pub release : RefCountedTemplater → RefCountedTemplater × Bool
release r = (record r { refs = decr r.refs }, is_at_most_0 (decr r.refs) && r.destroyed)

-- What parseAndCache wraps: the cache holds one reference.
abbrev pub wrapped : RefCountedTemplater
wrapped = record { refs = pos 1; destroyed = false }

-- A templater, the number of requests that hold it, and how often it was closed itself.
pub record Shared : Type 0 where
  pub exec : RefCountedTemplater
  pub holders : ℕ
  pub closes : ℕ

abbrev pub count : Bool → ℕ
count b = if b then 1 else 0

-- One critical section: of the cache or Close, of a request that looks the page up, or of the end of
-- a request that holds it.
pub data Step (s : Shared) : Shared → Type 0 where
  closing :
      Step s (record s { exec = (close s.exec).0; closes = s.closes + count (close s.exec).1 })
  acquired :
      (acquire s.exec).1 ≡ true
      → Step s (record s { exec = (acquire s.exec).0; holders = s.holders + 1 })
  refused : (acquire s.exec).1 ≡ false → Step s (record s { exec = (acquire s.exec).0 })
  releasing :
      (n : ℕ)
      → s.holders ≡ suc n
      → Step s (record s {
        exec = (release s.exec).0;
        holders = n;
        closes = s.closes + count (release s.exec).1;
      })

abbrev pub new_shared : Shared
new_shared = record { exec = wrapped; holders = 0; closes = 0 }

-- What any order of such steps leads to.
pub data Reach : Shared → Type 0 where
  here : Reach new_shared
  next : {s t : Shared} → Reach s → Step s t → Reach t
