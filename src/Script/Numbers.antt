-- ===== src/Script/Numbers.antt =====
-- builtin/number.go: Compute and the operators that fall back to it.
use mathlib.Core.Option
use vweb.Common.{
  ℕ, ◌-◌, ◌*◌, ◌%◌, Option, none, some, ◌++◌, Bytes, codes, ◌==◌, if◌then◌else◌, Checked, returns,
  panics,
}
use vweb.Script.Words.{
  Kind, int, int8, int16, int32, int64, uint, uint8, uint16, uint32, uint64, uintptr, is_signed,
  modulus, modulus64, extend, truncate, Symbol, plus, minus, times, over, percent, compute_int,
  compute_uint, takes_int, add_kind, sub_kind,
}

abbrev pub kind_code : Kind → ℕ
kind_code int = 0
kind_code int8 = 1
kind_code int16 = 2
kind_code int32 = 3
kind_code int64 = 4
kind_code uint = 5
kind_code uint8 = 6
kind_code uint16 = 7
kind_code uint32 = 8
kind_code uint64 = 9
kind_code uintptr = 10

-- The floating-point numbers of the machine; `to_single` is the conversion of a float64 to a float32,
-- `of_int` that of an int. Complex numbers alike.
pub record Floats : Type 1 where
  pub Float : Type 0
  pub fadd : Float → Float → Float
  pub fsub : Float → Float → Float
  pub fmul : Float → Float → Float
  pub fquo : Float → Float → Float
  pub fneg : Float → Float
  pub one : Float
  pub to_single : Float → Float
  pub of_int : ℕ → Float
  pub Complex : Type 0
  pub cadd : Complex → Complex → Complex
  pub csub : Complex → Complex → Complex
  pub cmul : Complex → Complex → Complex
  pub cquo : Complex → Complex → Complex
  pub to_single_pair : Complex → Complex

module _ (fp : Floats) where
  -- A value of a script, by its reflect.Kind, without the pointers that inDirect follows. `single` and
  -- `single_pair` are float32 and complex64, `other` is any kind without arithmetic.
  pub data Value : Type 0 where
    nil : Value
    whole : Kind → ℕ → Value
    double single : fp.Float → Value
    pair single_pair : fp.Complex → Value
    text : Bytes → Value
    other : ℕ → Value

  unfoldable pub compute_float : fp.Float → Symbol → fp.Float → Option fp.Float
  compute_float x plus y = some (fp.fadd x y)
  compute_float x minus y = some (fp.fsub x y)
  compute_float x times y = some (fp.fmul x y)
  compute_float x over y = some (fp.fquo x y)
  compute_float x _ y = none

  unfoldable pub compute_complex : fp.Complex → Symbol → fp.Complex → Option fp.Complex
  compute_complex x plus y = some (fp.cadd x y)
  compute_complex x minus y = some (fp.csub x y)
  compute_complex x times y = some (fp.cmul x y)
  compute_complex x over y = some (fp.cquo x y)
  compute_complex x _ y = none

  unfoldable pub compute_text : Bytes → Symbol → Bytes → Option Bytes
  compute_text x plus y = some (x ++ y)
  compute_text x _ y = none

  -- Two integers of one kind.
  unfoldable pub compute_whole : Kind → ℕ → Symbol → ℕ → Option ℕ
  compute_whole k x symbol y = Option.map (truncate k) (
      if is_signed k
      then compute_int (extend k x) symbol (extend k y)
      else compute_uint (extend k x) symbol (extend k y))

  -- Compute; `none` is an error.
  unfoldable pub compute : Value → Symbol → Value → Option Value
  unfolding compute_float compute_complex compute_text
  compute (text x) symbol (text y) = Option.map (λ r. text r) (compute_text x symbol y)
  compute (whole j x) symbol (whole k y) =
      if kind_code j == kind_code k
      then Option.map (λ r. whole j r) (compute_whole j x symbol y)
      else none
  compute (double x) symbol (double y) = Option.map (λ r. double r) (compute_float x symbol y)
  compute (single x) symbol (single y) =
      Option.map (λ r. single (fp.to_single r)) (compute_float x symbol y)
  compute (pair x) symbol (pair y) = Option.map (λ r. pair r) (compute_complex x symbol y)
  compute (single_pair x) symbol (single_pair y) =
      Option.map (λ r. single_pair (fp.to_single_pair r)) (compute_complex x symbol y)
  compute _ symbol _ = none

  -- The end of each operator: Compute, and the panic of panicUnsupportedOp2.
  abbrev pub or_compute : Option Value → Value → Symbol → Value → Checked Value
  or_compute (some v) a symbol b = returns v
  or_compute none a symbol b = elim (compute a symbol b) [
    | some v ↦ returns v
    | none ↦ panics (codes "unsupported")
  ]

  -- The cases of the two switches of Add.
  unfoldable pub direct_add : Value → Value → Option Value
  unfolding truncate
  direct_add (whole k x) (whole int y) =
      if takes_int k then some (whole k (add_kind k x (truncate k y))) else none
  direct_add (whole int x) (double y) = some (double (fp.fadd (fp.of_int x) y))
  direct_add (double x) (whole int y) = some (double (fp.fadd x (fp.of_int y)))
  direct_add (double x) (double y) = some (double (fp.fadd x y))
  direct_add (text x) (text y) = some (text (x ++ y))
  direct_add _ _ = none

  unfoldable pub add : Value → Value → Checked Value
  add a b = or_compute (direct_add a b) a plus b

  unfoldable pub direct_sub : Value → Value → Option Value
  unfolding truncate
  direct_sub (whole k x) (whole int y) =
      if takes_int k then some (whole k (sub_kind k x (truncate k y))) else none
  direct_sub (whole int x) (double y) = some (double (fp.fsub (fp.of_int x) y))
  direct_sub (double x) (whole int y) = some (double (fp.fsub x (fp.of_int y)))
  direct_sub (double x) (double y) = some (double (fp.fsub x y))
  direct_sub _ _ = none

  unfoldable pub sub : Value → Value → Checked Value
  sub a b = or_compute (direct_sub a b) a minus b

  unfoldable pub direct_mul : Value → Value → Option Value
  direct_mul (whole int x) (whole int y) = some (whole int (x * y % modulus64))
  direct_mul (whole int x) (double y) = some (double (fp.fmul (fp.of_int x) y))
  direct_mul (double x) (whole int y) = some (double (fp.fmul x (fp.of_int y)))
  direct_mul (double x) (double y) = some (double (fp.fmul x y))
  direct_mul _ _ = none

  unfoldable pub mul : Value → Value → Checked Value
  mul a b = or_compute (direct_mul a b) a times b

  unfoldable pub quo : Value → Value → Checked Value
  quo (whole int x) (whole int y) = elim (compute_int x over y) [
    | none ↦ panics (codes "integer divide by zero")
    | some r ↦ returns (whole int r)
  ]
  quo (whole int x) (double y) = returns (double (fp.fquo (fp.of_int x) y))
  quo (double x) (whole int y) = returns (double (fp.fquo x (fp.of_int y)))
  quo (double x) (double y) = returns (double (fp.fquo x y))
  quo a b = or_compute none a over b

  -- Mod
  unfoldable pub modulo : Value → Value → Checked Value
  modulo (whole int x) (whole int y) = elim (compute_int x percent y) [
    | none ↦ panics (codes "integer divide by zero")
    | some r ↦ returns (whole int r)
  ]
  modulo a b = or_compute none a percent b

  unfoldable pub inc : Value → Checked Value
  inc (whole uintptr x) = panics (codes "unsupported")
  inc (whole k x) = returns (whole k (add_kind k x 1))
  inc (single x) = returns (single (fp.to_single (fp.fadd x fp.one)))
  inc (double x) = returns (double (fp.fadd x fp.one))
  inc _ = panics (codes "unsupported")

  unfoldable pub dec : Value → Checked Value
  dec (whole uintptr x) = panics (codes "unsupported")
  dec (whole k x) = returns (whole k (sub_kind k x 1))
  dec (single x) = returns (single (fp.to_single (fp.fsub x fp.one)))
  dec (double x) = returns (double (fp.fsub x fp.one))
  dec _ = panics (codes "unsupported")

  -- There is no case for unsigned integers.
  unfoldable pub neg : Value → Checked Value
  neg (whole k x) =
      if is_signed k
      then returns (whole k ((modulus k - x) % modulus k))
      else panics (codes "unsupported")
  neg (single x) = returns (single (fp.fneg x))
  neg (double x) = returns (double (fp.fneg x))
  neg _ = panics (codes "unsupported")
