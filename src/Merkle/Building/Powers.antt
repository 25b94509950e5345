-- ===== src/Merkle/Building/Powers.antt =====
-- Powers of two, and the index at the end of a subtree.
use accumulate.Common.{
  ℕ, zero, suc, ◌+◌, ◌-◌, ◌*◌, ◌/◌, ◌%◌, ◌^◌, ◌≤◌, ◌<◌, ◌≡◌, inl, inr, refl, ap, ◌∙◌, true, ◌==◌,
  leb, arith, Bool-cases,
}
use native.Mathlib.Nat.{two-pow-succ}
use accumulate.Merkle.Building.Blocks.{full, halved}

pub odd_mul : (b p : ℕ) → b % 2 ≡ 1 → b * p ≡ b / 2 * (2 * p) + p
odd_mul b p h =
    let parts : b ≡ 2 * (b / 2) + 1 = omega (arith, h) in ap (λ x. x * p) parts ∙ grind arith

pub even_mul : (b p : ℕ) → b % 2 ≡ 0 → b * p ≡ b / 2 * (2 * p)
even_mul b p h =
    let parts : b ≡ 2 * (b / 2) = omega (arith, h) in ap (λ x. x * p) parts ∙ grind arith

pub double_mul : (b p : ℕ) → b * (2 * p) ≡ 2 * (b * p)
double_mul b p = grind arith

pub power_double : (d : ℕ) → 2 ^ suc d ≡ 2 * 2 ^ d
power_double d = omega (arith, two-pow-succ d)

pub power_above : (k : ℕ) → 2 ^ 64 ≤ 2 ^ (64 + k)
power_above zero = omega arith
power_above (suc k) =
    let next : 2 ^ (64 + suc k) ≡ 2 * 2 ^ (64 + k) =
      ap (λ n. 2 ^ n) (omega arith) ∙ power_double (64 + k) in
    omega (arith, next, power_above k)

pub low_power : (d n : ℕ) → 2 ^ d ≤ n → n < 2 ^ 64 → d ≤ 63
low_power d n h l = elim (Bool-cases (leb d 63)) [
  | inl e ↦ ground (arith, e)
  | inr e ↦
      let more : 64 + (d - 64) ≡ d = ground (arith, e) in
      let large : 2 ^ 64 ≤ 2 ^ d = rw (← more) (power_above (d - 64)) in
      absurd (omega (arith, large, h, l))
]

-- The index at the end of a subtree.
pub full-end :
    (d c i : ℕ) → i + 1 ≡ c * 2 ^ d + 2 ^ d → (full d i ≡ (c % 2 == 1)) × (halved d i ≡ c)
full-end zero c i h = let same_ : i ≡ c = omega (arith, h) in (rw same_ refl, same_)
full-end (suc d) c i h =
    let p = power_double d in
    let twice : i + 1 ≡ 2 * (c * 2 ^ d) + 2 * 2 ^ d =
      h ∙ ap (λ x. c * x + x) p ∙ ap (λ x. x + 2 * 2 ^ d) (double_mul c (2 ^ d)) in
    let odd : (i % 2 == 1) ≡ true = ground (arith, twice) in
    let (bits, number) = full-end d c (i / 2) (omega (arith, twice)) in (rw odd bits, number)

pub halved-between :
    (d b n : ℕ) → b * 2 ^ d + 2 ^ d ≤ n → n < b * 2 ^ d + 2 * 2 ^ d → halved d n ≡ b + 1
halved-between zero b n lo hi = omega (arith, lo, hi)
halved-between (suc d) b n lo hi =
    let p = power_double d in
    let twice : b * 2 ^ suc d ≡ 2 * (b * 2 ^ d) = ap (λ x. b * x) p ∙ double_mul b (2 ^ d) in
    halved-between d b (n / 2) (omega (arith, lo, twice, p)) (omega (arith, hi, twice, p))
