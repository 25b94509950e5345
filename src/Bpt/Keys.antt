-- ===== src/Bpt/Keys.antt =====
-- The bits of keys.
use accumulate.Common.{
  ℕ, zero, suc, ◌+◌, ◌-◌, ◌*◌, ◌/◌, ◌%◌, ◌^◌, ◌<◌, ◌≡◌, refl, ap, sym, ◌∙◌, List, [], ◌∷◌, Bool,
  ◌==◌, length, arith, All, Bool-cases, inl, inr,
}
use accumulate.Common.Bytes.{Bytes}
use accumulate.Bpt.{byte_at, goes_left}

-- An array of 32 bytes.
abbrev pub IsKey : Bytes → Type 0
IsKey k = (length k ≡ 32) × All (λ b. b < 256) k

-- A way from the root, its last step first: true is to the left.
abbrev pub Way : Type 0
Way = List Bool

-- The key's first bits are those of the way.
abbrev pub On : Way → Bytes → Type 0
On [] k = Unit
On (b ∷ p) k = (goes_left k (length p) ≡ b) × On p k

byte_at_bound : (k : Bytes) (i : ℕ) → All (λ b. b < 256) k → byte_at k i < 256
byte_at_bound [] i h = omega arith
byte_at_bound (x ∷ xs) zero h = h.0
byte_at_bound (x ∷ xs) (suc i) h = byte_at_bound xs i h.1

byte_at_ext :
    (a b : Bytes)
    → length a ≡ length b
    → ((i : ℕ) → i < length a → byte_at a i ≡ byte_at b i)
    → a ≡ b
byte_at_ext [] [] e h = refl
byte_at_ext [] (y ∷ ys) e h = absurd (omega arith)
byte_at_ext (x ∷ xs) [] e h = absurd (omega arith)
byte_at_ext (x ∷ xs) (y ∷ ys) e h =
    let head : x ≡ y = h 0 (omega arith) in
    let rest = byte_at_ext xs ys (omega arith) (λ i l. h (suc i) (omega arith)) in
    ap (λ t. t ∷ xs) head ∙ ap (λ t. y ∷ t) rest

-- Keys on one way look the same at its heights.
pub On-goes_left :
    (p : Way) (a b : Bytes) (i : ℕ) → On p a → On p b → i < length p → goes_left a i ≡ goes_left b i
On-goes_left [] a b i h k l = absurd (omega arith)
On-goes_left (x ∷ p) a b i h k l = elim (Bool-cases (i == length p)) [
  | inl e ↦ let same_ : i ≡ length p = ground (arith, e) in rw same_ (h.0 ∙ sym k.0)
  | inr e ↦ On-goes_left p a b i h.1 k.1 (ground (arith, e, l))
]

-- The bit of a byte, from the highest on.
abbrev bit_at : ℕ → ℕ → Bool
bit_at x j = (x / 2 ^ (7 - j)) % 2 == 1

bit_at-goes_left : (k : Bytes) (q j : ℕ) → j < 8 → goes_left k (8 * q + j) ≡ bit_at (byte_at k q) j
unfolding goes_left
bit_at-goes_left k q j h =
    let quotient : (8 * q + j) / 8 ≡ q = omega arith in
    let remainder : (8 * q + j) % 8 ≡ j = omega arith in rw (quotient, remainder) refl

bit_ext : (x y : ℕ) → (x % 2 == 1) ≡ (y % 2 == 1) → x % 2 ≡ y % 2
bit_ext x y e = ground (arith, e)

byte_ext : (x y : ℕ) → x < 256 → y < 256 → ((j : ℕ) → j < 8 → bit_at x j ≡ bit_at y j) → x ≡ y
byte_ext x y h k same_ =
    let b0 = bit_ext (x / 128) (y / 128) (same_ 0 (omega arith)) in
    let b1 = bit_ext (x / 64) (y / 64) (same_ 1 (omega arith)) in
    let b2 = bit_ext (x / 32) (y / 32) (same_ 2 (omega arith)) in
    let b3 = bit_ext (x / 16) (y / 16) (same_ 3 (omega arith)) in
    let b4 = bit_ext (x / 8) (y / 8) (same_ 4 (omega arith)) in
    let b5 = bit_ext (x / 4) (y / 4) (same_ 5 (omega arith)) in
    let b6 = bit_ext (x / 2) (y / 2) (same_ 6 (omega arith)) in
    let b7 = bit_ext (x / 1) (y / 1) (same_ 7 (omega arith)) in omega arith

-- Two keys on one way of all 256 bits are the same.
pub On-eq : (p : Way) (a b : Bytes) → length p ≡ 256 → IsKey a → IsKey b → On p a → On p b → a ≡ b
On-eq p a b full (la, ba) (lb, bb) h k = byte_at_ext a b (la ∙ sym lb) (λ q l.
    byte_ext (byte_at a q) (byte_at b q) (byte_at_bound a q ba) (byte_at_bound b q bb) (λ j m.
      sym (bit_at-goes_left a q j m)
      ∙ On-goes_left p a b (8 * q + j) h k (omega (arith, full, la))
      ∙ bit_at-goes_left b q j m))
