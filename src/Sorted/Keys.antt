-- ===== src/Sorted/Keys.antt =====
-- Slices kept in strictly ascending order of a key, as finite sets of keys.
use accumulate.Common.{◌≡◌, refl, ap, arith, ◌∙◌, sym, length, head?, All}
use accumulate.Common.{List, [], ◌∷◌, ◌++◌, some, Bool, true, false, Bool-cases, inl, inr}
use accumulate.Common.{◌||◌}
use accumulate.Common.Compare.{Sign, negative, same, positive, flip, nonneg, IsPreorder}
use accumulate.Sorted.Search.{is_same, search, set}
use accumulate.Sorted.Contract.{
  IsMonotone, below, above, below-append-above, All-below, All-above, search-eq,
}

module _ {ℓ} {A : Type ℓ} where
  -- Every entry is in relation to all that come after it.
  abbrev pub IsSorted : (A → A → Type 0) → List A → Type 0
  IsSorted R [] = Unit
  IsSorted R (x ∷ xs) = All (R x) xs × IsSorted R xs

  All-insert :
      (P : A → Type 0) (xs ys : List A) (v : A) → All P (xs ++ ys) → P v → All P (xs ++ v ∷ ys)
  All-insert P [] ys v h p = (p, h)
  All-insert P (x ∷ xs) ys v h p = (h.0, All-insert P xs ys v h.1 p)

  All-delete : (P : A → Type 0) (xs ys : List A) (v : A) → All P (xs ++ v ∷ ys) → All P (xs ++ ys)
  All-delete P [] ys v h = h.1
  All-delete P (x ∷ xs) ys v h = (h.0, All-delete P xs ys v h.1)

  pub IsSorted-insert :
      (R : A → A → Type 0) (xs ys : List A) (v : A)
      → IsSorted R (xs ++ ys)
      → All (λ x. R x v) xs
      → All (R v) ys
      → IsSorted R (xs ++ v ∷ ys)
  IsSorted-insert R [] ys v s b a = (a, s)
  IsSorted-insert R (x ∷ xs) ys v s b a =
      (All-insert (R x) xs ys v s.0 b.0, IsSorted-insert R xs ys v s.1 b.1 a)

  pub IsSorted-delete :
      (R : A → A → Type 0) (xs ys : List A) (v : A)
      → IsSorted R (xs ++ v ∷ ys)
      → IsSorted R (xs ++ ys)
  IsSorted-delete R [] ys v s = s.1
  IsSorted-delete R (x ∷ xs) ys v s = (All-delete (R x) xs ys v s.0, IsSorted-delete R xs ys v s.1)

  pub set-append : (xs ys : List A) (u v : A) → set (xs ++ u ∷ ys) (length xs) v ≡ xs ++ v ∷ ys
  set-append [] ys u v = refl
  set-append (x ∷ xs) ys u v = ap (λ t. x ∷ t) (set-append xs ys u v)

  -- Whether some entry is the sought one, by a scan of the whole slice.
  unfoldable pub has : (A → Sign) → List A → Bool
  has cmp [] = false
  has cmp (x ∷ xs) = is_same (some x) cmp || has cmp xs

  pub has-insert :
      (cmp : A → Sign) (xs ys : List A) (v : A)
      → has cmp (xs ++ v ∷ ys) ≡ (is_same (some v) cmp || has cmp (xs ++ ys))
  unfolding has
  has-insert cmp [] ys v = refl
  has-insert cmp (x ∷ xs) ys v = ground (arith, has-insert cmp xs ys v)

  pub has-negative :
      (cmp : A → Sign) (xs ys : List A)
      → All (λ x. cmp x ≡ negative) xs
      → has cmp (xs ++ ys) ≡ has cmp ys
  unfolding has is_same
  has-negative cmp [] ys h = refl
  has-negative cmp (x ∷ xs) ys h = ground (arith, h.0, has-negative cmp xs ys h.1)

  pub has-positive :
      (cmp : A → Sign) (xs : List A) → All (λ x. cmp x ≡ positive) xs → has cmp xs ≡ false
  unfolding has is_same
  has-positive cmp [] h = refl
  has-positive cmp (x ∷ xs) h = ground (arith, h.0, has-positive cmp xs h.1)

-- Which of its three values a comparison has.
pub data Cases (c : Sign) : Type 0 where
  is_negative : c ≡ negative → Cases c
  is_zero : c ≡ same → Cases c
  is_positive : c ≡ positive → Cases c

pub cases : (c : Sign) → Cases c
cases negative = is_negative refl
cases same = is_zero refl
cases positive = is_positive refl

module _ {ℓ} {K : Type ℓ} {compare : K → K → Sign} {equal : K → K → Bool}
    (pre : IsPreorder compare equal) where
  -- What comes after a key that is not below the sought one is above it.
  positive_after :
      (k x y : K) → compare x y ≡ negative → nonneg (compare x k) ≡ true → compare y k ≡ positive
  positive_after k x y b h = go (cases (compare y k))
    where
      back : compare y x ≡ positive
      back = rw (pre.flips x y, b) refl

      go : Cases (compare y k) → compare y k ≡ positive
      go (is_positive e) = e
      go (is_negative e) = cc (pre.trans x y k b e, h)
      go (is_zero e) =
          let turned : compare k x ≡ positive =
            sym (pre.respects y k x ((pre.same_iff y k).0 e)) ∙ back in
          let lower : compare x k ≡ negative = pre.flips k x ∙ ap flip turned in cc (lower, h)

module _ {ℓ κ} {K : Type κ} {A : Type ℓ} {compare : K → K → Sign} {equal : K → K → Bool}
    (pre : IsPreorder compare equal) (key : A → K) where
  -- The comparison of the entries with a sought key.
  abbrev pub seek : K → A → Sign
  seek k x = compare (key x) k

  abbrev pub Before : A → A → Type 0
  Before x y = compare (key x) (key y) ≡ negative

  pub All-positive :
      (k : K) (x : A) (xs : List A)
      → All (Before x) xs
      → nonneg (seek k x) ≡ true
      → All (λ y. seek k y ≡ positive) xs
  All-positive k x [] b h = tt
  All-positive k x (y ∷ ys) b h =
      (positive_after pre k (key x) (key y) b.0 h, All-positive k x ys b.1 h)

  All-nonneg :
      (k : K) (xs : List A)
      → All (λ y. seek k y ≡ positive) xs
      → All (λ y. nonneg (seek k y) ≡ true) xs
  All-nonneg k [] h = tt
  All-nonneg k (x ∷ xs) h = (rw h.0 refl, All-nonneg k xs h.1)

  pub IsSorted-IsMonotone : (k : K) (l : List A) → IsSorted Before l → IsMonotone (seek k) l
  IsSorted-IsMonotone k [] s = tt
  IsSorted-IsMonotone k (x ∷ xs) s =
      (λ h. All-nonneg k xs (All-positive k x xs s.0 h), IsSorted-IsMonotone k xs s.1)

  above_suffix : (cmp : A → Sign) (l : List A) → IsSorted Before l → IsSorted Before (above cmp l)
  unfolding above
  above_suffix cmp [] s = tt
  above_suffix cmp (x ∷ xs) s = elim (Bool-cases (nonneg (cmp x))) [
    | inl e ↦ rw e s
    | inr e ↦ rw e (above_suffix cmp xs s.1)
  ]

  has-from :
      (k : K) (l : List A)
      → IsSorted Before l
      → All (λ x. nonneg (seek k x) ≡ true) l
      → has (seek k) l ≡ is_same (head? l) (seek k)
  unfolding has is_same
  has-from k [] s h = refl
  has-from k (x ∷ xs) s h =
      rw (has-positive (seek k) xs (All-positive k x xs s.0 h.0)) (ground arith)

  -- `Search` finds a key in an ascending slice exactly where a scan does.
  pub search-has : (k : K) (l : List A) → IsSorted Before l → (search l (seek k)).1 ≡ has (seek k) l
  search-has k l s =
      let m = IsSorted-IsMonotone k l s in
      rw (search-eq (seek k) l m) (
        sym (
          ap (has (seek k)) (sym (below-append-above (seek k) l))
          ∙ has-negative (seek k) (below (seek k) l) (above (seek k) l) (All-below (seek k) l)
          ∙ has-from k (above (seek k) l) (above_suffix (seek k) l s) (All-above (seek k) l m)))

  -- How the slice is cut at the sought key.
  pub record Cut (k : K) (l : List A) : Type (ℓ ⊔ κ) where
    pub front : List A
    pub back : List A
    pub joins : front ++ back ≡ l
    pub all_below : All (λ x. seek k x ≡ negative) front
    pub index : (search l (seek k)).0 ≡ length front
    pub found : (search l (seek k)).1 ≡ is_same (head? back) (seek k)
    pub all_from : All (λ x. nonneg (seek k x) ≡ true) back

  pub cut : (k : K) (l : List A) → IsSorted Before l → Cut k l
  cut k l s =
      let m = IsSorted-IsMonotone k l s in
      record {
        front = below (seek k) l;
        back = above (seek k) l;
        joins = below-append-above (seek k) l;
        all_below = All-below (seek k) l;
        index = ap (λ t. t.0) (search-eq (seek k) l m);
        found = ap (λ t. t.1) (search-eq (seek k) l m);
        all_from = All-above (seek k) l m;
      }
