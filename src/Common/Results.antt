-- ===== src/Common/Results.antt =====
-- What a call that may panic gives.
use mathlib.Core.Path.{◌≡◌, ap, subst}
use vweb.Common.Strings.{Bytes}

pub data Checked {ℓ} (A : Type ℓ) : Type ℓ where
  returns : A → Checked A
  panics : Bytes → Checked A

-- Transport along an equation of returned values.
pub subst_returns {ℓ κ} :
    {A : Type ℓ} (P : A → Type κ) {a b : A} → returns a ≡ returns b → P a → P b
subst_returns P {a} e p = subst P (ap (λ c. elim c [ returns x ↦ x | panics msg ↦ a ]) e) p
