-- ===== src/Common/Strings/Defs.antt =====
-- Go strings are lists of bytes. The functions are those of package strings that the program uses,
-- after their documentation; a separator is one byte wherever the program splits.
use Prim.Native.Char.{code}
use Prim.Native.Nat.{ℕ, suc, ◌-◌}
use Prim.Native.String.{String}
use mathlib.Core.Bool.{Bool, true, false, ◌&&◌, ◌||◌}
use mathlib.Core.List.{List, [], ◌∷◌, ◌++◌, reverse}
use mathlib.Core.Option.{Option, none, some}
use mathlib.Core.Option
use vweb.Common.Tests.{leb, ◌==◌, if◌then◌else◌}
use vweb.Common.Lists.{length, drop}

abbrev pub Bytes : Type 0
Bytes = List ℕ

-- The bytes of an ASCII literal.
abbrev pub codes : String → Bytes
codes String.[] = []
codes (String.◌∷◌ c s) = code c ∷ codes s

-- `a == b` on strings.
unfoldable pub same : Bytes → Bytes → Bool
same [] [] = true
same [] (y ∷ ys) = false
same (x ∷ xs) [] = false
same (x ∷ xs) (y ∷ ys) = x == y && same xs ys

-- `s == ""`
unfoldable pub is_empty : Bytes → Bool
is_empty [] = true
is_empty (x ∷ xs) = false

-- strings.HasPrefix(s, prefix)
unfoldable pub has_prefix : Bytes → Bytes → Bool
has_prefix s [] = true
has_prefix [] (p ∷ ps) = false
has_prefix (c ∷ s) (p ∷ ps) = c == p && has_prefix s ps

-- strings.HasSuffix(s, suffix)
unfoldable pub has_suffix : Bytes → Bytes → Bool
unfolding same
has_suffix s suffix =
    leb (length suffix) (length s) && same (drop (length s - length suffix) s) suffix

-- Whether byte b occurs in s: strings.Contains with a literal of one byte.
unfoldable pub contains : Bytes → ℕ → Bool
contains [] b = false
contains (c ∷ s) b = c == b || contains s b

-- strings.ContainsAny(s, chars), for ASCII chars
unfoldable pub contains_any : Bytes → Bytes → Bool
unfolding contains
contains_any [] chars = false
contains_any (c ∷ s) chars = contains chars c || contains_any s chars

-- strings.Index(s, sub); `none` is -1.
unfoldable pub index : Bytes → Bytes → Option ℕ
unfolding has_prefix
index [] sub = if is_empty sub then some 0 else none
index (c ∷ s) sub = if has_prefix (c ∷ s) sub then some 0 else Option.map suc (index s sub)

-- Puts a byte in front of the first of the parts.
abbrev pub cons_head : ℕ → List Bytes → List Bytes
cons_head c [] = (c ∷ []) ∷ []
cons_head c (p ∷ ps) = (c ∷ p) ∷ ps

-- strings.Split(s, sep)
unfoldable pub split : Bytes → ℕ → List Bytes
split [] sep = [] ∷ []
split (c ∷ s) sep = let rest = split s sep in if c == sep then [] ∷ rest else cons_head c rest

-- Every part behind the separator.
abbrev pub separated : List Bytes → ℕ → Bytes
separated [] sep = []
separated (p ∷ ps) sep = sep ∷ (p ++ separated ps sep)

-- strings.Join(parts, sep)
unfoldable pub join : List Bytes → ℕ → Bytes
join [] sep = []
join (p ∷ ps) sep = p ++ separated ps sep

-- strings.TrimPrefix(s, prefix)
unfoldable pub trim_prefix : Bytes → Bytes → Bytes
unfolding has_prefix
trim_prefix s prefix = if has_prefix s prefix then drop (length prefix) s else s

-- An ASCII white space of unicode.IsSpace.
abbrev pub is_space : ℕ → Bool
is_space c = c == 32 || (leb 9 c && leb c 13)

abbrev pub trim_left : Bytes → Bytes
trim_left [] = []
trim_left (c ∷ s) = let rest = trim_left s in if is_space c then rest else c ∷ s

-- strings.TrimSpace(s), for a text whose spaces are ASCII
unfoldable pub trim_space : Bytes → Bytes
trim_space s = reverse (trim_left (reverse (trim_left s)))
