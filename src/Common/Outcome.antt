-- ===== src/Common/Outcome.antt =====
-- How a Go call ends: with a value, with an error, or by a panic.
use Prim.Native.String.{String}
use mathlib.Core.Path.{◌≡◌, refl, subst}
use mathlib.Core.Bool.{Bool, true, false}
use accumulate.Common.Tests.{if◌then◌else◌}

-- An error is told by the fixed text of its message.
pub data Outcome {ℓ} (A : Type ℓ) : Type ℓ where
  ok : A → Outcome A
  err : String → Outcome A
  panic : Outcome A

infixl 5 ◌>>=◌ ◌>>◌
abbrev pub ◌>>=◌ {κ ℓ} : {B : Type κ} {A : Type ℓ} → Outcome A → (A → Outcome B) → Outcome B
panic >>= k = panic
err s >>= k = err s
ok x >>= k = k x

abbrev pub ◌>>◌ {κ ℓ} : {B : Type κ} {A : Type ℓ} → Outcome A → Outcome B → Outcome B
first >> next = first >>= λ _. next

-- `if c { return err }`
abbrev pub fail_if : Bool → String → Outcome (Unit {0})
fail_if true e = err e
fail_if false e = ok tt

-- A chain of calls that ends well went through a value of its first call.
module _ {ℓ κ} {A : Type ℓ} {B : Type κ} where
  pub >>=-ok :
      (k : A → Outcome B) (m : Outcome A) (r : B)
      → m >>= k ≡ ok r
      → (x : A) × (m ≡ ok x) × (k x ≡ ok r)
  >>=-ok k panic r e = cc
  >>=-ok k (err s) r e = cc
  >>=-ok k (ok x) r e = (x, refl, e)

-- A test that returns an error did not hold where the code goes on.
pub not_failed {ℓ} :
    {A : Type ℓ} (b : Bool) (s : String) (m : Outcome A) (r : A)
    → (if b then err s else m) ≡ ok r
    → (b ≡ false) × (m ≡ ok r)
not_failed true s m r e = absurd (cc e)
not_failed false s m r e = (refl, e)

-- What is known of a value holds of the result that it is.
pub ok-subst {ℓ κ} : {A : Type ℓ} (P : A → Type κ) {a r : A} → ok a ≡ ok r → P a → P r
ok-subst P {a} {r} e p = let same_ : a ≡ r = cc in subst P same_ p
