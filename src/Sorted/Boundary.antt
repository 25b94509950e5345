-- ===== src/Sorted/Boundary.antt =====
-- `Search` in a slice of any order: the sign changes at the index that it returns.
use accumulate.Common.{ℕ, zero, suc, ◌+◌, ◌/◌, ◌≤◌, ◌<◌, ◌≡◌, refl, ap, arith, sym, inl, inr}
use accumulate.Common.{List, [], ◌∷◌, ◌++◌, true, false, ltb, Bool-cases}
use accumulate.Common.{length, take, drop, get_elem?, head?}
use accumulate.Common.{take-append-drop, length-take_le}
use accumulate.Common.{ltb→lt}
use mathlib.Core.Path.{subst}
use accumulate.Common.Compare.{Sign, negative, nonneg}
use accumulate.Sorted.Search.{at_least, is_same, search_loop, search}

module _ {ℓ} {A : Type ℓ} where
  -- The last entry of a front part is below the sought one; there may be none.
  abbrev pub LastBelow : (A → Sign) → List A → Type 0
  LastBelow cmp [] = Unit
  LastBelow cmp (x ∷ []) = cmp x ≡ negative
  LastBelow cmp (x ∷ y ∷ xs) = LastBelow cmp (y ∷ xs)

  -- The first entry of the rest is not.
  abbrev pub FirstAbove : (A → Sign) → List A → Type 0
  FirstAbove cmp [] = Unit
  FirstAbove cmp (x ∷ xs) = nonneg (cmp x) ≡ true

  -- What the loop keeps of its two bounds.
  abbrev Lower : List A → (A → Sign) → ℕ → Type 0
  Lower l cmp zero = Unit
  Lower l cmp (suc i) = (i < length l) × (at_least l cmp i ≡ false)

  abbrev Upper : List A → (A → Sign) → ℕ → Type 0
  Upper l cmp j = (j < length l → at_least l cmp j ≡ true)

  search_loop-bounds :
      (cmp : A → Sign) (l : List A) (fuel i j : ℕ)
      → i ≤ j
      → j ≤ length l
      → j ≤ i + fuel
      → Lower l cmp i
      → Upper l cmp j
      → (search_loop fuel l cmp i j ≤ length l)
        × Lower l cmp (search_loop fuel l cmp i j)
        × Upper l cmp (search_loop fuel l cmp i j)
  unfolding search_loop
  search_loop-bounds cmp l zero i j a b f lo up =
      let same_ : j ≡ i = omega arith in (omega arith, lo, subst (Upper l cmp) same_ up)
  search_loop-bounds cmp l (suc fuel) i j a b f lo up = elim (Bool-cases (ltb i j)) [
    | inr e ↦
        (let same_ : j ≡ i = ground arith in rw e (omega arith, lo, subst (Upper l cmp) same_ up))
    | inl e ↦
        (let lt : i < j = ltb→lt i j e in
          let h = (i + j) / 2 in
          elim (Bool-cases (at_least l cmp h)) [
            | inl yes_ ↦
                rw (e, yes_)
                  (search_loop-bounds cmp l fuel i h (omega arith) (omega arith) (omega arith) lo
                    (λ _. yes_))
            | inr no_ ↦
                (let next : suc h ≡ h + 1 = omega arith in
                  let lower : Lower l cmp (h + 1) = subst (Lower l cmp) next (omega arith, no_) in
                  rw (e, no_)
                    (search_loop-bounds cmp l fuel (h + 1) j (omega arith) b (omega arith) lower
                      up))
          ])
  ]

  LastBelow-take : (cmp : A → Sign) (l : List A) (i : ℕ) → Lower l cmp i → LastBelow cmp (take i l)
  unfolding at_least
  LastBelow-take cmp l zero h = tt
  LastBelow-take cmp [] (suc i) h = tt
  LastBelow-take cmp (x ∷ xs) (suc zero) h = ground arith
  LastBelow-take cmp (x ∷ []) (suc (suc i)) h = absurd (omega (arith, h.0))
  LastBelow-take cmp (x ∷ y ∷ xs) (suc (suc i)) h =
      LastBelow-take cmp (y ∷ xs) (suc i) (omega (arith, h.0), h.1)

  FirstAbove-drop :
      (cmp : A → Sign) (l : List A) (i : ℕ) → Upper l cmp i → FirstAbove cmp (drop i l)
  unfolding at_least
  FirstAbove-drop cmp [] zero h = tt
  FirstAbove-drop cmp [] (suc i) h = tt
  FirstAbove-drop cmp (x ∷ xs) zero h = h (omega arith)
  FirstAbove-drop cmp (x ∷ xs) (suc i) h = FirstAbove-drop cmp xs i (λ k. h (omega arith))

  get_elem?-drop : (l : List A) (i : ℕ) → get_elem? l i ≡ head? (drop i l)
  get_elem?-drop [] zero = refl
  get_elem?-drop [] (suc i) = refl
  get_elem?-drop (x ∷ xs) zero = refl
  get_elem?-drop (x ∷ xs) (suc i) = get_elem?-drop xs i

  -- How `Search` cuts a slice.
  pub record Boundary (cmp : A → Sign) (l : List A) : Type ℓ where
    pub front : List A
    pub back : List A
    pub joins : front ++ back ≡ l
    pub index : (search l cmp).0 ≡ length front
    pub found : (search l cmp).1 ≡ is_same (head? back) cmp
    pub last_below : LastBelow cmp front
    pub first_above : FirstAbove cmp back

  pub boundary : (cmp : A → Sign) (l : List A) → Boundary cmp l
  unfolding search
  boundary cmp l =
      let i = search_loop (length l) l cmp 0 (length l) in
      let (le, lo, up) =
        search_loop-bounds cmp l (length l) 0 (length l) (omega arith) (omega arith) (omega arith)
          tt (λ h. absurd (omega arith)) in
      record {
        front = take i l;
        back = drop i l;
        joins = take-append-drop i l;
        index = sym (length-take_le i l le);
        found = ap (λ t. is_same t cmp) (get_elem?-drop l i);
        last_below = LastBelow-take cmp l i lo;
        first_above = FirstAbove-drop cmp l i up;
      }
