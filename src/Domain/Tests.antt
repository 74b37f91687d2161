-- ===== src/Domain/Tests.antt =====
-- Hosts and their wildcards: tests, and the theorems at concrete inputs.
use vweb.Common.{
  ℕ, ◌≤◌, ◌≡◌, ◌↔◌, refl, true, false, ◌++◌, none, some, List, [], ◌∷◌, Bytes, arith, codes, length,
  index, split, join, same, lookup, is_empty,
}
use vweb.Domain
use vweb.Domain.{equal_domain}
use vweb.Domain.Equal.{with_stars, equal_domain_iff}
use vweb.Domain.Nearest.{IsNearest, get_iff}

abbrev sites : List (Bytes × ℕ)
sites = (codes "*.x.com", 1) ∷ (codes "x.com:80", 2) ∷ (codes "*.*.com", 3) ∷ []

get_tests :
    (Domain.get sites (codes "y.x.com") ≡ some 1)
    × (Domain.get sites (codes "x.com") ≡ none)
    × (Domain.get sites (codes "x.com:80") ≡ some 2)
    × (Domain.get sites (codes "a.b.com") ≡ some 3)
unfolding Domain.get index split join same lookup is_empty
get_tests = (refl, refl, refl, refl)

-- The port of the host belongs to the domain.
equal_domain_tests :
    (equal_domain (codes "www.x.com:900") (codes "*.x.com:900") ≡ true)
    × (equal_domain (codes "www.x.com:900") (codes "*.x.com") ≡ false)
    × (equal_domain (codes "www.x.com:900") (codes "*.x.com:901") ≡ false)
unfolding equal_domain index split join same is_empty
equal_domain_tests = (refl, refl, refl)

get_iff_example :
    (Domain.get sites (codes "y.x.com") ≡ some 1)
    ↔ ((n : ℕ) × IsNearest sites (codes "y.x.com") 1 n)
get_iff_example = get_iff sites (codes "y.x.com") 1

equal_domain_iff_example :
    (equal_domain (codes "y.x.com" ++ codes ":443") (codes "*.x.com:443") ≡ true) ↔ (
      (n : ℕ) × (n ≤ length (split (codes "y.x.com") b'.'))
      × (codes "*.x.com:443" ≡ with_stars (codes "y.x.com") (codes ":443") n))
equal_domain_iff_example =
    equal_domain_iff (codes "y.x.com") (codes ":443") (codes "*.x.com:443") (ground arith) refl
