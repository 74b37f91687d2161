-- ===== src/Dynamic/Templater/Lifetime.antt =====
-- A template is closed once, when the cache has let it go and no request holds it.
use vweb.Common.{
  ℕ, zero, suc, ◌+◌, ◌≤◌, ◌≡◌, ◌↔◌, refl, sym, subst, Bool, true, false, ◌&&◌, arith, if◌then◌else◌,
}
use vweb.Common.Int.{pos}
use vweb.Dynamic.Templater.{
  close, acquire, release, Shared, count, Step, closing, acquired, refused, releasing, Reach, here,
  next,
}

abbrev is_zero : ℕ → Bool
is_zero zero = true
is_zero (suc n) = false

-- The only state of a templater that is destroyed or not and that so many requests hold: its count is
-- that of the requests and of the cache, and it was closed exactly if that is 0.
abbrev shared_of : Bool → ℕ → Shared
shared_of destroyed n = record {
  exec = record { refs = pos (if destroyed then n else suc n); destroyed = destroyed };
  holders = n;
  closes = count (destroyed && is_zero n);
}

abbrev IsCounted : Shared → Type 0
IsCounted s = (destroyed : Bool) × (n : ℕ) × (s ≡ shared_of destroyed n)

IsCounted-closing :
    (d : Bool) (n : ℕ)
    → IsCounted (record (shared_of d n) {
      exec = (close (shared_of d n).exec).0;
      closes = (shared_of d n).closes + count (close (shared_of d n).exec).1;
    })
unfolding close
IsCounted-closing true zero = (true, zero, refl)
IsCounted-closing true (suc n) = (true, suc n, refl)
IsCounted-closing false zero = (true, zero, refl)
IsCounted-closing false (suc n) = (true, suc n, refl)

IsCounted-acquired :
    (d : Bool) (n : ℕ)
    → (acquire (shared_of d n).exec).1 ≡ true
    → IsCounted
        (record (shared_of d n) { exec = (acquire (shared_of d n).exec).0; holders = n + 1 })
unfolding acquire
IsCounted-acquired true n e = absurd (cc)
IsCounted-acquired false n e = (false, suc n, ground arith)

IsCounted-refused :
    (d : Bool) (n : ℕ)
    → (acquire (shared_of d n).exec).1 ≡ false
    → IsCounted (record (shared_of d n) { exec = (acquire (shared_of d n).exec).0 })
unfolding acquire
IsCounted-refused true n e = (true, n, refl)
IsCounted-refused false n e = absurd (cc)

IsCounted-releasing :
    (d : Bool) (n : ℕ)
    → IsCounted (record (shared_of d (suc n)) {
      exec = (release (shared_of d (suc n)).exec).0;
      holders = n;
      closes = (shared_of d (suc n)).closes + count (release (shared_of d (suc n)).exec).1;
    })
unfolding release
IsCounted-releasing true zero = (true, zero, refl)
IsCounted-releasing true (suc n) = (true, suc n, refl)
IsCounted-releasing false n = (false, n, refl)

abbrev released : ℕ → Shared → Shared
released m s = record s {
  exec = (release s.exec).0;
  holders = m;
  closes = s.closes + count (release s.exec).1;
}

IsCounted-released : (d : Bool) (n m : ℕ) → n ≡ suc m → IsCounted (released m (shared_of d n))
IsCounted-released d n m e =
    subst (λ k. IsCounted (released m (shared_of d k))) (sym e) (IsCounted-releasing d m)

Step-IsCounted : {s t : Shared} → Step s t → IsCounted s → IsCounted t
Step-IsCounted {s} closing (d, n, e) =
    subst
      (λ s.
        IsCounted
          (record s { exec = (close s.exec).0; closes = s.closes + count (close s.exec).1 }))
      (sym e) (IsCounted-closing d n)
Step-IsCounted (acquired a) (d, n, e) =
    subst
      (λ s.
        (acquire s.exec).1 ≡ true
        → IsCounted (record s { exec = (acquire s.exec).0; holders = s.holders + 1 }))
      (sym e) (IsCounted-acquired d n) a
Step-IsCounted (refused a) (d, n, e) =
    subst (λ s. (acquire s.exec).1 ≡ false → IsCounted (record s { exec = (acquire s.exec).0 }))
      (sym e) (IsCounted-refused d n) a
Step-IsCounted (releasing m a) (d, n, e) =
    subst (λ s. s.holders ≡ suc m → IsCounted (released m s)) (sym e) (IsCounted-released d n m) a

Reach-IsCounted : {s : Shared} → Reach s → IsCounted s
Reach-IsCounted here = (false, 0, refl)
Reach-IsCounted (next r st) = Step-IsCounted st (Reach-IsCounted r)

-- What holds of a template however the steps of its users are ordered.
pub record IsClosedOnce (s : Shared) : Type 0 where
  pub at_most_once : s.closes ≤ 1
  pub when_free : (s.closes ≡ 1) ↔ ((s.exec.destroyed ≡ true) × (s.holders ≡ 0))
  pub counted : s.exec.refs ≡ pos (if s.exec.destroyed then s.holders else suc s.holders)

IsClosedOnce-shared_of : (d : Bool) (n : ℕ) → IsClosedOnce (shared_of d n)
IsClosedOnce-shared_of true zero = record {
  at_most_once = omega arith;
  when_free = (λ e. (refl, refl), λ e. refl);
  counted = refl;
}
IsClosedOnce-shared_of true (suc n) = record {
  at_most_once = omega arith;
  when_free = ground arith;
  counted = refl;
}
IsClosedOnce-shared_of false n = record {
  at_most_once = omega arith;
  when_free = ground arith;
  counted = refl;
}

-- After any sequence of Close, acquire and release, in any order, in which only holders release: the
-- template is closed at most once, it is closed exactly if Close was called and no request holds it
-- any more, and the count is that of the holders and of the cache.
pub Reach-IsClosedOnce : (s : Shared) → Reach s → IsClosedOnce s
Reach-IsClosedOnce s r =
    let (d, n, e) = Reach-IsCounted r in subst IsClosedOnce (sym e) (IsClosedOnce-shared_of d n)
