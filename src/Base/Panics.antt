-- ===== src/Base/Panics.antt =====
-- A computation that may stop at a failed assertion, an `unwrap` of `None` or `unreachable!`.
use mathlib.Core.Path.{◌≡◌, refl}
use mathlib.Core.Bool.{Bool, true, false}
use mathlib.Core.Option.{Option, none, some}

pub data Checked {ℓ} (A : Type ℓ) : Type ℓ where
  panic : Checked A
  ok : A → Checked A

-- What holds of the result, if there is one.
abbrev pub OnOk {ℓ κ} : {A : Type ℓ} → (A → Type κ) → Checked A → Type κ
OnOk P panic = Unit
OnOk P (ok a) = P a

-- `assert!(b)`
abbrev pub assert : Bool → Checked (Unit {0})
assert false = panic
assert true = ok tt

-- `o.unwrap()` and `o.expect(..)`
abbrev pub unwrap {ℓ} : {A : Type ℓ} → Option A → Checked A
unwrap none = panic
unwrap (some a) = ok a

module _ {ℓ κ} {A : Type ℓ} {B : Type κ} where
  -- What comes after a failed assertion does not happen.
  infixl 5 ◌>>=◌
  abbrev pub ◌>>=◌ : (m : Checked A) (rest : A → Checked B) → Checked B
  panic >>= rest = panic
  ok a >>= rest = rest a

  -- A computation that returns has returned from its first part.
  pub >>=-eq-ok :
      (m : Checked A) (rest : A → Checked B) {b : B}
      → (m >>= rest) ≡ ok b
      → (a : A) × (m ≡ ok a) × (rest a ≡ ok b)
  >>=-eq-ok panic rest e = cc
  >>=-eq-ok (ok a) rest e = (a, refl, e)

infixl 5 ◌>>◌
abbrev pub ◌>>◌ {κ} : {B : Type κ} (m : Checked (Unit {0})) (rest : Checked B) → Checked B
m >> rest = m >>= λ u. rest

pub returns {ℓ} : {A : Type ℓ} (m : Checked A) → ¬ (m ≡ panic) → (a : A) × (m ≡ ok a)
returns panic h = absurd (h refl)
returns (ok a) h = (a, refl)
