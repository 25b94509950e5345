-- ===== src/Common/Slices.antt =====
-- `take` and `drop` of an appended list, and of a list within it.
use Prim.Native.Nat.{ℕ, zero, suc, ◌+◌, ◌-◌, ◌≤◌}
use mathlib.Core.Path.{◌≡◌, ◌∙◌, refl, ap, sym}
use mathlib.Core.List.{List, [], ◌∷◌, ◌++◌, map}
use mathlib.Core.Option.{some}
use native.Mathlib.Omega.{arith}
use accumulate.Common.Tests.{◌==◌, if◌then◌else◌}
use accumulate.Common.Lists.{length, take, drop, get_elem?}

module _ {ℓ} {A : Type ℓ} where
  pub take_le-append : (n : ℕ) (xs ys : List A) → n ≤ length xs → take n (xs ++ ys) ≡ take n xs
  take_le-append zero xs ys h = refl
  take_le-append (suc n) [] ys h = absurd (omega arith)
  take_le-append (suc n) (x ∷ xs) ys h = ap (λ t. x ∷ t) (take_le-append n xs ys (omega arith))

  pub take_all : (n : ℕ) (xs : List A) → length xs ≤ n → take n xs ≡ xs
  take_all zero [] h = refl
  take_all zero (x ∷ xs) h = absurd (omega arith)
  take_all (suc n) [] h = refl
  take_all (suc n) (x ∷ xs) h = ap (λ t. x ∷ t) (take_all n xs (omega arith))

  pub drop_le-append :
      (n : ℕ) (xs ys : List A) → n ≤ length xs → drop n (xs ++ ys) ≡ drop n xs ++ ys
  drop_le-append zero xs ys h = refl
  drop_le-append (suc n) [] ys h = absurd (omega arith)
  drop_le-append (suc n) (x ∷ xs) ys h = drop_le-append n xs ys (omega arith)

  pub length-drop : (n : ℕ) (xs : List A) → length (drop n xs) ≡ length xs - n
  length-drop zero xs = omega arith
  length-drop (suc n) [] = omega arith
  length-drop (suc n) (x ∷ xs) = omega (arith, length-drop n xs)

  pub drop-drop : (m n k : ℕ) (xs : List A) → k ≡ n + m → drop m (drop n xs) ≡ drop k xs
  drop-drop m zero k xs e = ap (λ j. drop j xs) (omega arith)
  drop-drop m (suc n) zero xs e = absurd (omega arith)
  drop-drop zero (suc n) (suc k) [] e = refl
  drop-drop (suc m) (suc n) (suc k) [] e = refl
  drop-drop m (suc n) (suc k) (x ∷ xs) e = drop-drop m n k xs (omega arith)

  pub take-take_le : (m n : ℕ) (xs : List A) → m ≤ n → take m (take n xs) ≡ take m xs
  take-take_le zero n xs h = refl
  take-take_le (suc m) zero xs h = absurd (omega arith)
  take-take_le (suc m) (suc n) [] h = refl
  take-take_le (suc m) (suc n) (x ∷ xs) h = ap (λ t. x ∷ t) (take-take_le m n xs (omega arith))

  pub drop-take : (m n k : ℕ) (xs : List A) → k ≡ m + n → drop m (take k xs) ≡ take n (drop m xs)
  drop-take zero n k xs e = ap (λ j. take j xs) (omega arith)
  drop-take (suc m) n zero xs e = absurd (omega arith)
  drop-take (suc m) zero (suc k) [] e = refl
  drop-take (suc m) (suc n) (suc k) [] e = refl
  drop-take (suc m) n (suc k) (x ∷ xs) e = drop-take m n k xs (omega arith)

  pub take-suc :
      (n : ℕ) (xs : List A) (x : A)
      → get_elem? xs n ≡ some x
      → take (suc n) xs ≡ take n xs ++ x ∷ []
  take-suc zero [] x h = absurd cc
  take-suc zero (y ∷ ys) x h = ap (λ t. t ∷ []) cc
  take-suc (suc n) [] x h = absurd cc
  take-suc (suc n) (y ∷ ys) x h = ap (λ t. y ∷ t) (take-suc n ys x h)

  pub get_elem?-append_last :
      (xs : List A) (x : A) (i : ℕ)
      → get_elem? (xs ++ x ∷ []) i ≡ (if i == length xs then some x else get_elem? xs i)
  get_elem?-append_last [] x zero = refl
  get_elem?-append_last [] x (suc i) = ground arith
  get_elem?-append_last (y ∷ ys) x zero = ground arith
  get_elem?-append_last (y ∷ ys) x (suc i) = ground (arith, get_elem?-append_last ys x i)

module _ {ℓ κ} {A : Type ℓ} {B : Type κ} where
  pub map-take : (f : A → B) (n : ℕ) (xs : List A) → map f (take n xs) ≡ take n (map f xs)
  map-take f zero xs = refl
  map-take f (suc n) [] = refl
  map-take f (suc n) (x ∷ xs) = ap (λ t. f x ∷ t) (map-take f n xs)

  pub map-drop : (f : A → B) (n : ℕ) (xs : List A) → map f (drop n xs) ≡ drop n (map f xs)
  map-drop f zero xs = refl
  map-drop f (suc n) [] = refl
  map-drop f (suc n) (x ∷ xs) = map-drop f n xs

  pub length-map : (f : A → B) (xs : List A) → length (map f xs) ≡ length xs
  length-map f [] = refl
  length-map f (x ∷ xs) = ap suc (length-map f xs)

module _ {ℓ} {A : Type ℓ} where
  -- What fills a prefix is long enough.
  pub length_of_take : (n : ℕ) (xs : List A) → length (take n xs) ≡ n → n ≤ length xs
  length_of_take zero xs h = omega arith
  length_of_take (suc n) [] h = omega arith
  length_of_take (suc n) (x ∷ xs) h = omega (arith, length_of_take n xs (omega arith))

module _ {ℓ κ} {A : Type ℓ} {B : Type κ} where
  -- A block of the first elements, and then the first of what follows, are the first of them all.
  pub take-block :
      (g : A → B) (f k : ℕ) (xs : List A) (ls : List B)
      → f ≤ length xs
      → take (k - f) ls ≡ map g (take (k - f) (drop f xs))
      → take k (map g (take f xs) ++ ls) ≡ map g (take k xs)
  take-block g zero k xs ls le e =
      let all : k - 0 ≡ k = omega arith in
      ap (λ n. take n ls) (sym all) ∙ e ∙ ap (λ n. map g (take n xs)) all
  take-block g (suc f) k [] ls le e = absurd (omega arith)
  take-block g (suc f) zero (x ∷ xs) ls le e = refl
  take-block g (suc f) (suc k) (x ∷ xs) ls le e =
      let less : suc k - suc f ≡ k - f = omega arith in
      ap (λ t. g x ∷ t)
        (take-block g f k xs ls (omega arith)
          (ap (λ n. take n ls) (sym less) ∙ e ∙ ap (λ n. map g (take n (drop f xs))) less))
