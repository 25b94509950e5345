-- ===== src/Sorted/Contract.antt =====
-- What `Search` and `BinaryInsert` promise: they split the slice where the sign changes.
use accumulate.Common.{ℕ, zero, suc, ◌+◌, ◌/◌, ◌≤◌, ◌<◌, ◌≡◌, refl, ap, arith, ◌∙◌, sym}
use accumulate.Common.{List, [], ◌∷◌, ◌++◌, true, false, ltb, All}
use accumulate.Common.{if◌then◌else◌, length, take, drop, get_elem?, Bool-cases, inl, inr}
use accumulate.Common.{take-append, drop-append, length-append}
use accumulate.Common.{ltb→lt, head?, get_elem?-length}
use native.Mathlib.Decide.{dec_lt}
use accumulate.Common.Compare.{Sign, negative, nonneg}
use accumulate.Sorted.Search.{at_least, is_same, search_loop, search}

module _ {ℓ} {A : Type ℓ} where
  -- Once the sign is not negative it stays so.
  abbrev pub IsMonotone : (A → Sign) → List A → Type 0
  IsMonotone cmp [] = Unit
  IsMonotone cmp (x ∷ xs) =
      (nonneg (cmp x) ≡ true → All (λ y. nonneg (cmp y) ≡ true) xs) × IsMonotone cmp xs

  -- The entries up to the first that is not negative, and the rest.
  unfoldable pub below : (A → Sign) → List A → List A
  below cmp [] = []
  below cmp (x ∷ xs) = let rest = below cmp xs in if nonneg (cmp x) then [] else x ∷ rest

  unfoldable pub above : (A → Sign) → List A → List A
  above cmp [] = []
  above cmp (x ∷ xs) = let rest = above cmp xs in if nonneg (cmp x) then x ∷ xs else rest

  pub below-append-above : (cmp : A → Sign) (l : List A) → below cmp l ++ above cmp l ≡ l
  unfolding below above
  below-append-above cmp [] = refl
  below-append-above cmp (x ∷ xs) = elim (Bool-cases (nonneg (cmp x))) [
    | inl e ↦ rw e refl
    | inr e ↦ rw e (ap (λ t. x ∷ t) (below-append-above cmp xs))
  ]

  pub All-below : (cmp : A → Sign) (l : List A) → All (λ x. cmp x ≡ negative) (below cmp l)
  unfolding below
  All-below cmp [] = tt
  All-below cmp (x ∷ xs) = elim (Bool-cases (nonneg (cmp x))) [
    | inl e ↦ rw e tt
    | inr e ↦ rw e (ground (arith, e), All-below cmp xs)
  ]

  pub All-above :
      (cmp : A → Sign) (l : List A)
      → IsMonotone cmp l
      → All (λ x. nonneg (cmp x) ≡ true) (above cmp l)
  unfolding above
  All-above cmp [] m = tt
  All-above cmp (x ∷ xs) m = elim (Bool-cases (nonneg (cmp x))) [
    | inl e ↦ rw e (e, m.0 e)
    | inr e ↦ rw e (All-above cmp xs m.1)
  ]

  at_least-below :
      (cmp : A → Sign) (l : List A) (i : ℕ) → i < length (below cmp l) → at_least l cmp i ≡ false
  unfolding at_least below
  at_least-below cmp [] i h = refl
  at_least-below cmp (x ∷ xs) zero h = ground arith
  at_least-below cmp (x ∷ xs) (suc i) h = elim (Bool-cases (nonneg (cmp x))) [
    | inl e ↦ absurd (omega (arith, rw e at h))
    | inr e ↦ at_least-below cmp xs i (omega (arith, rw e at h))
  ]

  All-at_least :
      (cmp : A → Sign) (l : List A) (i : ℕ)
      → All (λ x. nonneg (cmp x) ≡ true) l
      → i < length l
      → at_least l cmp i ≡ true
  unfolding at_least
  All-at_least cmp [] i a h = elim h [ ]
  All-at_least cmp (x ∷ xs) zero a h = a.0
  All-at_least cmp (x ∷ xs) (suc i) a h = All-at_least cmp xs i a.1 (omega arith)

  at_least-above :
      (cmp : A → Sign) (l : List A) (i : ℕ)
      → IsMonotone cmp l
      → length (below cmp l) ≤ i
      → i < length l
      → at_least l cmp i ≡ true
  unfolding at_least below
  at_least-above cmp [] i m h k = elim k [ ]
  at_least-above cmp (x ∷ xs) zero m h k = ground arith
  at_least-above cmp (x ∷ xs) (suc i) m h k = elim (Bool-cases (nonneg (cmp x))) [
    | inl e ↦ All-at_least cmp xs i (m.0 e) (omega arith)
    | inr e ↦ at_least-above cmp xs i m.1 (omega (arith, rw e at h)) (omega arith)
  ]

  search_loop-eq :
      (cmp : A → Sign) (l : List A)
      → IsMonotone cmp l
      → (fuel i j : ℕ) → i ≤ length (below cmp l)
      → length (below cmp l) ≤ j
      → j ≤ length l
      → j ≤ i + fuel
      → search_loop fuel l cmp i j ≡ length (below cmp l)
  unfolding search_loop
  search_loop-eq cmp l m zero i j p q r f = omega arith
  search_loop-eq cmp l m (suc fuel) i j p q r f = elim (Bool-cases (ltb i j)) [
    | inr e ↦ rw e (ground arith)
    | inl e ↦
        (let lt : i < j = ltb→lt i j e in
          let h = (i + j) / 2 in
          elim (Bool-cases (at_least l cmp h)) [
            | inl yes_ ↦
                rw (e, yes_)
                  (search_loop-eq cmp l m fuel i h p (upto h yes_) (omega arith) (omega arith))
            | inr no_ ↦
                rw (e, no_)
                  (search_loop-eq cmp l m fuel (h + 1) j (from h (omega arith) no_) q r
                    (omega arith))
          ])
  ]
    where
      upto : (h : ℕ) → at_least l cmp h ≡ true → length (below cmp l) ≤ h
      upto h t = elim (dec_lt h (length (below cmp l))) [
        | yes lt ↦ absurd (cc (sym t ∙ at_least-below cmp l h lt))
        | no ge ↦ omega arith
      ]

      from : (h : ℕ) → h < length l → at_least l cmp h ≡ false → h + 1 ≤ length (below cmp l)
      from h inside t = elim (dec_lt h (length (below cmp l))) [
        | yes lt ↦ omega arith
        | no ge ↦ absurd (cc (sym (at_least-above cmp l h m (omega arith) inside) ∙ t))
      ]

  length-below : (cmp : A → Sign) (l : List A) → length (below cmp l) ≤ length l
  length-below cmp l = omega (
    arith,
    length-append (below cmp l) (above cmp l),
    ap (length {A = A}) (below-append-above cmp l),
  )

  pub search-eq :
      (cmp : A → Sign) (l : List A)
      → IsMonotone cmp l
      → search l cmp ≡ (length (below cmp l), is_same (head? (above cmp l)) cmp)
  unfolding search
  search-eq cmp l m =
      let here =
        search_loop-eq cmp l m (length l) 0 (length l) (omega arith) (length-below cmp l)
          (omega arith) (omega arith) in
      let there : get_elem? l (length (below cmp l)) ≡ head? (above cmp l) =
        ap (λ t. get_elem? t (length (below cmp l))) (sym (below-append-above cmp l))
        ∙ get_elem?-length (below cmp l) (above cmp l) in
      rw (here, there) refl

  -- Where the signs are negative up to some place and not after it, `Search` returns that place,
  -- and whether the entry there is the sought one.
  pub search_splits :
      (cmp : A → Sign) (l : List A)
      → IsMonotone cmp l
      → All (λ x. cmp x ≡ negative) (take (search l cmp).0 l)
        × All (λ x. nonneg (cmp x) ≡ true) (drop (search l cmp).0 l)
        × ((search l cmp).1 ≡ is_same (head? (drop (search l cmp).0 l)) cmp)
  search_splits cmp l m =
      let front = cut_below in
      let back = cut_above in
      rw (search-eq cmp l m, front, back) (All-below cmp l, All-above cmp l m, refl)
    where
      cut_below : take (length (below cmp l)) l ≡ below cmp l
      cut_below =
          ap (take (length (below cmp l))) (sym (below-append-above cmp l))
          ∙ take-append (length (below cmp l)) (below cmp l) (above cmp l) refl

      cut_above : drop (length (below cmp l)) l ≡ above cmp l
      cut_above =
          ap (drop (length (below cmp l))) (sym (below-append-above cmp l))
          ∙ drop-append (length (below cmp l)) (below cmp l) (above cmp l) refl
