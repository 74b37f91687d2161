-- ===== src/Static/Etag.antt =====
-- serverHandlerStatic.go, `etag` and `etagMatch`.
use vweb.Common.{
  ℕ, ◌≡◌, ◌↔◌, ◌⊎◌, Bool, true, false, List, [], ◌∷◌, ◌++◌, Bytes, codes, same, same_iff, split,
  trim_space, trim_prefix, if◌then◌else◌, ◌||◌, arith,
}
use vweb.Static.Numbers.{hexadecimal}

-- W/"%x-%x" of the time of modification in nanoseconds and the size
unfoldable pub etag : ℕ → ℕ → Bytes
unfolding hexadecimal
etag mod_nano size =
    codes "W/\"" ++ (hexadecimal mod_nano ++ (codes "-" ++ (hexadecimal size ++ codes "\"")))

-- The test of one value of the list.
unfoldable pub etag_eq : Bytes → Bytes → Bool
unfolding trim_prefix same
etag_eq v etag = same v etag || same (trim_prefix v (codes "W/")) (trim_prefix etag (codes "W/"))

unfoldable pub match_any : List Bytes → Bytes → Bool
unfolding etag_eq trim_space
match_any [] etag = false
match_any (v ∷ vs) etag =
    let rest = match_any vs etag in if etag_eq (trim_space v) etag then true else rest

unfoldable pub etag_match : Bytes → Bytes → Bool
unfolding match_any split
etag_match header etag =
    let trimmed = trim_space header in
    if same trimmed (codes "*") then true else match_any (split trimmed b',') etag

-- Some value of the list is the etag, but for a W/ in front of either.
abbrev pub Lists : Bytes → List Bytes → Type 0
Lists etag [] = ⊥
Lists etag (v ∷ vs) =
    (trim_prefix (trim_space v) (codes "W/") ≡ trim_prefix etag (codes "W/")) ⊎ Lists etag vs

etag_eq_iff :
    (v etag : Bytes)
    → (etag_eq v etag ≡ true) ↔ (trim_prefix v (codes "W/") ≡ trim_prefix etag (codes "W/"))
unfolding etag_eq
etag_eq_iff v etag =
    ground (
      arith,
      same_iff v etag,
      same_iff (trim_prefix v (codes "W/")) (trim_prefix etag (codes "W/")),
    )

match_any_iff : (vs : List Bytes) (etag : Bytes) → (match_any vs etag ≡ true) ↔ Lists etag vs
unfolding match_any
match_any_iff [] etag = ground arith
match_any_iff (v ∷ vs) etag = ground (arith, etag_eq_iff (trim_space v) etag, match_any_iff vs etag)

-- An If-None-Match header matches an etag exactly if it is "*", spaces aside, or one of its
-- comma-separated values is the etag, spaces and a W/ in front of either aside.
pub etag_match_iff :
    (header etag : Bytes)
    → (etag_match header etag ≡ true)
      ↔ ((trim_space header ≡ codes "*") ⊎ Lists etag (split (trim_space header) b','))
unfolding etag_match
etag_match_iff header etag = ground (
  arith,
  same_iff (trim_space header) (codes "*"),
  match_any_iff (split (trim_space header) b',') etag,
)
