-- ===== src/Prelude/Results.antt =====
-- Go's `(T, error)`: a value or an error, never both.
use mathlib.Core.Bool.{Bool, true, false}
use mathlib.Core.Path.{◌≡◌, refl}
use mathlib.Core.Logic.{◌⊎◌, inl, inr}

pub data Result {ℓ κ} (E : Type κ) (T : Type ℓ) : Type (ℓ ⊔ κ) where
  ok : T → Result E T
  err : E → Result E T

-- `v, err := first; if err != nil { return err }; then(v)`
infixl 5 ◌>>=◌ ◌>>◌
abbrev pub ◌>>=◌ {ℓ κ μ} :
    {E : Type κ} {T : Type ℓ} {U : Type μ} → Result E T → (T → Result E U) → Result E U
err reason >>= next = err reason
ok value >>= next = next value

abbrev pub ◌>>◌ {ℓ κ} : {E : Type κ} {U : Type ℓ} → Result E (Unit {0}) → Result E U → Result E U
check >> next = check >>= λ done. next

-- `if bad { return reason }`
abbrev pub refuse_if {κ} : {E : Type κ} → Bool → E → Result E (Unit {0})
refuse_if true reason = err reason
refuse_if false reason = ok tt

pub Result-cases {ℓ κ} :
    {E : Type κ} {T : Type ℓ} (r : Result E T) → ((e : E) × (r ≡ err e)) ⊎ ((t : T) × (r ≡ ok t))
Result-cases (err e) = inl (e, refl)
Result-cases (ok t) = inr (t, refl)
