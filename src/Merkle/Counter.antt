-- ===== src/Merkle/Counter.antt =====
-- Pending counts in binary: its slots are full where the bits of the count are set.
use accumulate.Common.{ℕ, zero, suc, ◌+◌, ◌*◌, ◌/◌, ◌%◌, ◌^◌, ◌≡◌, refl, ap, sym, ◌∙◌}
use accumulate.Common.{
  List, [], ◌∷◌, Option, none, some, map, Bool, true, false, ◌==◌, arith, length,
}
use accumulate.Common.{length-append}
use native.Mathlib.Nat.{two-pow-succ, pow-succ', div-div-eq-div-mul, zero-div}
use accumulate.Common.Bytes.{Bytes}
use accumulate.Merkle.State.{empty, add_all}
use accumulate.Merkle.Forest.{
  Tree, leaves, IsForest, forest_leaves, roots, length-leaves, add_all-Represents,
}

-- Whether slot `i` holds a hash; past the end it holds none.
unfoldable pub is_full : {A : Type 0} → List (Option A) → ℕ → Bool
is_full [] i = false
is_full (none ∷ ps) zero = false
is_full (some v ∷ ps) zero = true
is_full (p ∷ ps) (suc i) = is_full ps i

-- The number whose bits are the full slots.
value : List (Option Tree) → ℕ
value [] = 0
value (none ∷ f) = 2 * value f
value (some t ∷ f) = 1 + 2 * value f

length-forest_leaves :
    (i : ℕ) (f : List (Option Tree)) → IsForest i f → length (forest_leaves f) ≡ 2 ^ i * value f
unfolding forest_leaves value
length-forest_leaves i [] h = omega arith
length-forest_leaves i (none ∷ f) h =
    length-forest_leaves (suc i) f h ∙ rw two-pow-succ (grind arith)
length-forest_leaves i (some t ∷ f) h =
    length-append (forest_leaves f) (leaves t)
    ∙ rw (length-forest_leaves (suc i) f h.1, length-leaves i t h.0, two-pow-succ) (grind arith)

-- Bit `j` of a number.
abbrev pub bit : ℕ → ℕ → Bool
bit n j = (n / 2 ^ j) % 2 == 1

bit-suc : (n j : ℕ) → bit n (suc j) ≡ bit (n / 2) j
bit-suc n j =
    ap (λ t. t % 2 == 1) (ap (λ d. n / d) (pow-succ' 2 j) ∙ sym (div-div-eq-div-mul n 2 (2 ^ j)))

is_full-value : (f : List (Option Tree)) (j : ℕ) → is_full f j ≡ bit (value f) j
unfolding is_full value
is_full-value [] j = sym (ap (λ t. t % 2 == 1) (zero-div (2 ^ j)))
is_full-value (none ∷ f) zero = ground arith
is_full-value (some t ∷ f) zero = ground arith
is_full-value (none ∷ f) (suc j) =
    let half : 2 * value f / 2 ≡ value f = omega arith in
    is_full-value f j ∙ sym (bit-suc (2 * value f) j ∙ ap (λ t. bit t j) half)
is_full-value (some t ∷ f) (suc j) =
    let half : (1 + 2 * value f) / 2 ≡ value f = omega arith in
    is_full-value f j ∙ sym (bit-suc (1 + 2 * value f) j ∙ ap (λ u. bit u j) half)

is_full-roots :
    (sum : Bytes → Bytes) (f : List (Option Tree)) (j : ℕ) → is_full (roots sum f) j ≡ is_full f j
unfolding is_full
is_full-roots sum [] j = refl
is_full-roots sum (none ∷ f) zero = refl
is_full-roots sum (some t ∷ f) zero = refl
is_full-roots sum (none ∷ f) (suc j) = is_full-roots sum f j
is_full-roots sum (some t ∷ f) (suc j) = is_full-roots sum f j

-- After any hashes, slot `j` of Pending holds a hash exactly where bit `j` of their number is set.
pub pending_counts :
    (sum : Bytes → Bytes) (hs : List Bytes) (j : ℕ)
    → is_full (add_all sum empty (map some hs)).pending j ≡ bit (length hs) j
pending_counts sum hs j =
    let r = add_all-Represents sum hs in
    let count : value r.forest ≡ length hs =
      omega (arith, length-forest_leaves 0 r.forest r.is_forest, ap length r.leaves_eq) in
    ap (λ ps. is_full ps j) r.pending_eq
    ∙ is_full-roots sum r.forest j
    ∙ is_full-value r.forest j
    ∙ ap (λ n. bit n j) count
