-- ===== src/Common/Compare.antt =====
-- A three-way comparison as Go's: its sign alone matters.
use mathlib.Core.Path.{◌≡◌}
use mathlib.Core.Logic.{◌↔◌}
use mathlib.Core.Bool.{Bool, true, false}

pub data Sign : Type 0 where
  negative same positive : Sign

-- `-c`
abbrev pub flip : Sign → Sign
flip negative = positive
flip same = same
flip positive = negative

-- `c >= 0`
abbrev pub nonneg : Sign → Bool
nonneg negative = false
nonneg same = true
nonneg positive = true

-- What the program relies on of a comparison function.
pub record IsOrder {ℓ} {A : Type ℓ} (compare : A → A → Sign) : Type ℓ where
  pub same_refl : (a : A) → compare a a ≡ same
  pub same→eq : (a b : A) → compare a b ≡ same → a ≡ b
  pub flips : (a b : A) → compare b a ≡ flip (compare a b)
  pub trans : (a b c : A) → compare a b ≡ negative → compare b c ≡ negative → compare a c ≡ negative

-- What holds of a comparison whose zero is an equality of its own.
pub record IsPreorder {ℓ} {A : Type ℓ} (compare : A → A → Sign) (equal : A → A → Bool)
    : Type ℓ where
  pub same_iff : (a b : A) → (compare a b ≡ same) ↔ (equal a b ≡ true)
  pub refl_ : (a : A) → equal a a ≡ true
  pub flips : (a b : A) → compare b a ≡ flip (compare a b)
  pub trans : (a b c : A) → compare a b ≡ negative → compare b c ≡ negative → compare a c ≡ negative
  pub respects : (a b c : A) → equal a b ≡ true → compare a c ≡ compare b c
