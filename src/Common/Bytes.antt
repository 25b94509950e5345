-- ===== src/Common/Bytes.antt =====
-- Byte strings: equality, and `bytes.Compare` with its laws.
use Prim.Native.Nat.{ℕ}
use mathlib.Core.Path.{◌≡◌, refl}
use mathlib.Core.Bool.{Bool, true, false}
use mathlib.Core.List.{List, [], ◌∷◌}
use native.Mathlib.Omega.{arith}
use accumulate.Common.Tests.{◌==◌, ltb, if◌then◌else◌}
use accumulate.Common.Compare.{Sign, negative, same, positive, flip, IsOrder}

abbrev pub Bytes : Type 0
Bytes = List ℕ

-- `bytes.Equal` on the contents.
unfoldable pub equal_bytes : Bytes → Bytes → Bool
equal_bytes [] [] = true
equal_bytes (x ∷ xs) (y ∷ ys) = if x == y then equal_bytes xs ys else false
equal_bytes _ _ = false

pub equal_bytes→eq : (xs ys : Bytes) → equal_bytes xs ys ≡ true → xs ≡ ys
unfolding equal_bytes
equal_bytes→eq [] [] h = refl
equal_bytes→eq [] (y ∷ ys) h = ground arith
equal_bytes→eq (x ∷ xs) [] h = ground arith
equal_bytes→eq (x ∷ xs) (y ∷ ys) h = ground (arith, equal_bytes→eq xs ys)

pub equal_bytes_refl : (xs : Bytes) → equal_bytes xs xs ≡ true
unfolding equal_bytes
equal_bytes_refl [] = refl
equal_bytes_refl (x ∷ xs) = ground (arith, equal_bytes_refl xs)

-- `bytes.Compare`, and Go's `<` on strings.
unfoldable pub compare_bytes : Bytes → Bytes → Sign
compare_bytes [] [] = same
compare_bytes [] (y ∷ ys) = negative
compare_bytes (x ∷ xs) [] = positive
compare_bytes (x ∷ xs) (y ∷ ys) =
    if ltb x y then negative else if ltb y x then positive else compare_bytes xs ys

compare_bytes_refl : (xs : Bytes) → compare_bytes xs xs ≡ same
unfolding compare_bytes
compare_bytes_refl [] = refl
compare_bytes_refl (x ∷ xs) = ground (arith, compare_bytes_refl xs)

compare_bytes→eq : (xs ys : Bytes) → compare_bytes xs ys ≡ same → xs ≡ ys
unfolding compare_bytes
compare_bytes→eq [] [] h = refl
compare_bytes→eq [] (y ∷ ys) h = cc
compare_bytes→eq (x ∷ xs) [] h = cc
compare_bytes→eq (x ∷ xs) (y ∷ ys) h = ground (arith, compare_bytes→eq xs ys)

compare_bytes-flip : (xs ys : Bytes) → compare_bytes ys xs ≡ flip (compare_bytes xs ys)
unfolding compare_bytes
compare_bytes-flip [] [] = refl
compare_bytes-flip [] (y ∷ ys) = refl
compare_bytes-flip (x ∷ xs) [] = refl
compare_bytes-flip (x ∷ xs) (y ∷ ys) = ground (arith, compare_bytes-flip xs ys)

compare_bytes_trans :
    (xs ys zs : Bytes)
    → compare_bytes xs ys ≡ negative
    → compare_bytes ys zs ≡ negative
    → compare_bytes xs zs ≡ negative
unfolding compare_bytes
compare_bytes_trans [] [] zs h k = cc
compare_bytes_trans [] (y ∷ ys) [] h k = cc
compare_bytes_trans [] (y ∷ ys) (z ∷ zs) h k = refl
compare_bytes_trans (x ∷ xs) [] zs h k = cc
compare_bytes_trans (x ∷ xs) (y ∷ ys) [] h k = cc
compare_bytes_trans (x ∷ xs) (y ∷ ys) (z ∷ zs) h k = ground (arith, compare_bytes_trans xs ys zs)

-- `bytes.Compare` is a total order.
pub compare_bytes-IsOrder : IsOrder compare_bytes
compare_bytes-IsOrder = record {
  same_refl = compare_bytes_refl;
  same→eq = compare_bytes→eq;
  flips = compare_bytes-flip;
  trans = compare_bytes_trans;
}
