-- ===== src/Sorted/Sets.antt =====
-- `BinaryInsert` and removal act on an ascending slice as on a finite set of keys.
use accumulate.Common.{◌≡◌, refl, ap, arith, ◌∙◌, sym, length, take, drop, head?, All}
use accumulate.Common.{List, [], ◌∷◌, ◌++◌, some, Bool, true, false}
use accumulate.Common.{if◌then◌else◌, ◌||◌, take-append, drop-append}
use accumulate.Common.Compare.{Sign, negative, same, positive, flip, nonneg, IsPreorder}
use accumulate.Sorted.Search.{is_same, search, binary_insert, set}
use accumulate.Sorted.Keys.{
  IsSorted, IsSorted-insert, set-append, has, has-insert, seek, Before, search-has, cut, Cut,
  All-positive, cases, is_negative, is_zero, is_positive,
}

module _ {ℓ} {A : Type ℓ} where
  -- What `BinaryInsert` and a write through its pointer make of a slice.
  abbrev pub insert_entry : A → List A → (A → Sign) → List A × Bool
  insert_entry v l cmp =
      let (l', i, added) = binary_insert v l cmp in
      if added then (set l' i v, true) else (l', false)

  insert_entry_found :
      (v : A) (l : List A) (cmp : A → Sign)
      → (search l cmp).1 ≡ true
      → insert_entry v l cmp ≡ (l, false)
  unfolding binary_insert
  insert_entry_found v l cmp e = rw e refl

  insert_entry_added :
      (v : A) (l front back : List A) (cmp : A → Sign)
      → front ++ back ≡ l
      → (search l cmp).0 ≡ length front
      → (search l cmp).1 ≡ false
      → insert_entry v l cmp ≡ (front ++ v ∷ back, true)
  unfolding binary_insert
  insert_entry_added v l front back cmp j i e =
      let before : take (length front) l ≡ front =
        ap (take (length front)) (sym j) ∙ take-append (length front) front back refl in
      let after : drop (length front) l ≡ back =
        ap (drop (length front)) (sym j) ∙ drop-append (length front) front back refl in
      rw (e, i, before, after, set-append front back v v) refl

module _ {ℓ κ} {K : Type κ} {A : Type ℓ} {compare : K → K → Sign} {equal : K → K → Bool}
    (pre : IsPreorder compare equal) (key : A → K) where
  same_self : (k : K) → compare k k ≡ same
  same_self k = (pre.same_iff k k).1 (pre.refl_ k)

  -- A sought key can be replaced by one that is equal.
  pub seek_respects : (j k : K) (x : A) → compare k j ≡ same → seek pre key k x ≡ seek pre key j x
  seek_respects j k x e =
      pre.flips k (key x)
      ∙ ap flip (pre.respects k j (key x) ((pre.same_iff k j).0 e))
      ∙ sym (pre.flips j (key x))

  pub has_respects :
      (j k : K) (l : List A) → compare k j ≡ same → has (seek pre key k) l ≡ has (seek pre key j) l
  unfolding has is_same
  has_respects j k [] e = refl
  has_respects j k (x ∷ xs) e = ground (arith, seek_respects j k x e, has_respects j k xs e)

  All-after :
      (v : A) (back : List A)
      → IsSorted (Before pre key) back
      → All (λ x. nonneg (seek pre key (key v) x) ≡ true) back
      → is_same (head? back) (seek pre key (key v)) ≡ false
      → All (Before pre key v) back
  unfolding is_same
  All-after v [] s h e = tt
  All-after v (x ∷ xs) s h e = (first x h.0 e, rest xs (All-positive pre key (key v) x xs s.0 h.0))
    where
      turn : (y : A) → compare (key y) (key v) ≡ positive → compare (key v) (key y) ≡ negative
      turn y p = pre.flips (key y) (key v) ∙ ap flip p

      first :
          (y : A)
          → nonneg (compare (key y) (key v)) ≡ true
          → is_same (some y) (seek pre key (key v)) ≡ false
          → compare (key v) (key y) ≡ negative
      first y n d = elim (cases (compare (key y) (key v))) [
        | is_negative p ↦ cc (rw p at n)
        | is_zero p ↦ cc (rw (p, is_same) at d)
        | is_positive p ↦ turn y p
      ]

      rest :
          (ys : List A)
          → All (λ y. seek pre key (key v) y ≡ positive) ys
          → All (Before pre key v) ys
      rest [] a = tt
      rest (y ∷ ys) a = (turn y a.0, rest ys a.1)

  head_found :
      (k : K) (l : List A)
      → IsSorted (Before pre key) l
      → (c : Cut pre key k l) → is_same (head? c.back) (seek pre key k) ≡ has (seek pre key k) l
  head_found k l s c = sym c.found ∙ search-has pre key k l s

  pub IsSorted-front_back :
      (R : A → A → Type 0) (xs ys : List A) → IsSorted R (xs ++ ys) → IsSorted R ys
  IsSorted-front_back R [] ys s = s
  IsSorted-front_back R (x ∷ xs) ys s = IsSorted-front_back R xs ys s.1

  module _ (v : A) (l : List A) (s : IsSorted (Before pre key) l) where
    -- A key that is there: nothing changes.
    pub insert_entry-old :
        has (seek pre key (key v)) l ≡ true → insert_entry v l (seek pre key (key v)) ≡ (l, false)
    insert_entry-old h =
        insert_entry_found v l (seek pre key (key v)) (search-has pre key (key v) l s ∙ h)

    -- A key that is not there: the slice stays ascending, and has that key besides its own.
    pub insert_entry-new :
        has (seek pre key (key v)) l ≡ false
        → ((insert_entry v l (seek pre key (key v))).1 ≡ true)
          × IsSorted (Before pre key) (insert_entry v l (seek pre key (key v))).0
          × ((j : K)
              → has (seek pre key j) (insert_entry v l (seek pre key (key v))).0
                ≡ (is_same (some v) (seek pre key j) || has (seek pre key j) l))
    insert_entry-new h =
        let c = cut pre key (key v) l s in
        let made : insert_entry v l (seek pre key (key v)) ≡ (c.front ++ v ∷ c.back, true) =
          insert_entry_added v l c.front c.back (seek pre key (key v)) c.joins c.index
            (search-has pre key (key v) l s ∙ h) in
        let whole : IsSorted (Before pre key) (c.front ++ c.back) = rw c.joins s in
        let later =
          All-after v c.back (IsSorted-front_back (Before pre key) c.front c.back whole) c.all_from
            (head_found (key v) l s c ∙ h) in
        rw made (
          refl,
          IsSorted-insert (Before pre key) c.front c.back v whole c.all_below later,
          λ j.
              has-insert (seek pre key j) c.front c.back v
              ∙ ap (λ t. is_same (some v) (seek pre key j) || has (seek pre key j) t) c.joins,
        )
