-- ===== src/Sorted/Removal.antt =====
-- Taking the found entry out of an ascending slice takes its key out of the set.
use accumulate.Common.{ℕ, suc, ◌≡◌, refl, ap, arith, ◌∙◌, sym, length, take, drop, head?, All}
use accumulate.Common.{List, [], ◌∷◌, ◌++◌, some, Bool, true, false}
use accumulate.Common.{◌&&◌, not}
use accumulate.Common.Compare.{Sign, negative, same, nonneg, IsPreorder}
use accumulate.Sorted.Search.{is_same, search}
use accumulate.Sorted.Keys.{
  IsSorted, IsSorted-delete, has, has-insert, has-negative, has-positive, seek, Before, search-has,
  cut, All-positive, cases, is_negative, is_zero, is_positive,
}
use accumulate.Sorted.Sets.{seek_respects, IsSorted-front_back}

module _ {ℓ} {A : Type ℓ} where
  -- `append(l[:i], l[i+1:]...)`
  abbrev pub delete_at : List A → ℕ → List A
  delete_at l i = take i l ++ drop (suc i) l

  delete_at-append : (xs ys : List A) (y : A) → delete_at (xs ++ y ∷ ys) (length xs) ≡ xs ++ ys
  delete_at-append [] ys y = refl
  delete_at-append (x ∷ xs) ys y = ap (λ t. x ∷ t) (delete_at-append xs ys y)

  All-middle : (P : A → Type 0) (xs ys : List A) (y : A) → All P (xs ++ y ∷ ys) → P y
  All-middle P [] ys y h = h.0
  All-middle P (x ∷ xs) ys y h = All-middle P xs ys y h.1

  -- What holds of every entry before the middle one.
  IsSorted-front :
      (R : A → A → Type 0) (xs ys : List A) (y : A)
      → IsSorted R (xs ++ y ∷ ys)
      → All (λ x. R x y) xs
  IsSorted-front R [] ys y s = tt
  IsSorted-front R (x ∷ xs) ys y s = (All-middle (R x) xs ys y s.0, IsSorted-front R xs ys y s.1)

module _ {ℓ κ} {K : Type κ} {A : Type ℓ} {compare : K → K → Sign} {equal : K → K → Bool}
    (pre : IsPreorder compare equal) (key : A → K) where
  others_negative :
      (j : K) (y : A) (xs : List A)
      → compare (key y) j ≡ same
      → All (λ x. Before pre key x y) xs
      → All (λ x. seek pre key j x ≡ negative) xs
  others_negative j y [] e h = tt
  others_negative j y (x ∷ xs) e h =
      (sym (seek_respects pre key j (key y) x e) ∙ h.0, others_negative j y xs e h.1)

  has-delete :
      (xs ys : List A) (y : A) (j : K)
      → IsSorted (Before pre key) (xs ++ y ∷ ys)
      → has (seek pre key j) (xs ++ ys)
        ≡ (not (is_same (some y) (seek pre key j)) && has (seek pre key j) (xs ++ y ∷ ys))
  unfolding is_same
  has-delete xs ys y j s =
      let inserted = has-insert (seek pre key j) xs ys y in
      elim (cases (compare (key y) j)) [
        | is_negative e ↦ ground (arith, e, inserted)
        | is_positive e ↦ ground (arith, e, inserted)
        | is_zero e ↦
            (let front = others_negative j y xs e (IsSorted-front (Before pre key) xs ys y s) in
              let rest = IsSorted-front_back pre key (Before pre key) xs (y ∷ ys) s in
              let back =
                has-positive (seek pre key j) ys
                  (All-positive pre key j y ys rest.0 (ap nonneg e)) in
              let gone : has (seek pre key j) (xs ++ ys) ≡ false =
                has-negative (seek pre key j) xs ys front ∙ back in
              ground (arith, e, gone))
      ]

  -- The entry that was found can be spoken of by the sought key.
  same_key :
      (j k m : K) (l l' : List A)
      → l' ≡ l
      → is_same {A = K} (some m) (λ x. compare x k) ≡ true
      → (not (is_same {A = K} (some m) (λ x. compare x j)) && has (seek pre key j) l')
        ≡ (not (is_same {A = K} (some k) (λ x. compare x j)) && has (seek pre key j) l)
  unfolding is_same
  same_key j k m l l' e f = elim (cases (compare m k)) [
    | is_negative c ↦ ground (arith, c)
    | is_positive c ↦ ground (arith, c)
    | is_zero c ↦
        (let turned : compare m j ≡ compare k j = pre.respects m k j ((pre.same_iff m k).0 c) in
          rw e (ground (arith, turned)))
  ]

  module _ (k : K) (l : List A) (s : IsSorted (Before pre key) l) where
    -- Deleting at the index that `Search` found keeps the order and takes the key out, and only it.
    pub delete_at-search :
        has (seek pre key k) l ≡ true
        → IsSorted (Before pre key) (delete_at l (search l (seek pre key k)).0)
          × ((j : K)
              → has (seek pre key j) (delete_at l (search l (seek pre key k)).0)
                ≡ (not (is_same {A = K} (some k) (λ x. compare x j)) && has (seek pre key j) l))
    unfolding is_same
    delete_at-search h =
        let c = cut pre key k l s in
        go c.front c.back c.joins c.index (sym c.found ∙ search-has pre key k l s ∙ h)
      where
        go :
            (front back : List A)
            → front ++ back ≡ l
            → (search l (seek pre key k)).0 ≡ length front
            → is_same (head? back) (seek pre key k) ≡ true
            → IsSorted (Before pre key) (delete_at l (search l (seek pre key k)).0)
              × ((j : K)
                  → has (seek pre key j) (delete_at l (search l (seek pre key k)).0)
                    ≡ (not (is_same {A = K} (some k) (λ x. compare x j)) && has (seek pre key j) l))
        go front [] e i f = cc f
        go front (y ∷ ys) e i f =
            let cut_out : delete_at l (search l (seek pre key k)).0 ≡ front ++ ys =
              ap (delete_at l) i
              ∙ ap (λ t. delete_at t (length front)) (sym e)
              ∙ delete_at-append front ys y in
            let s' : IsSorted (Before pre key) (front ++ y ∷ ys) = rw e s in
            rw cut_out (
              IsSorted-delete (Before pre key) front ys y s',
              λ j. has-delete front ys y j s' ∙ same_key j k (key y) l (front ++ y ∷ ys) e f,
            )
