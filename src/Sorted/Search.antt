-- ===== src/Sorted/Search.antt =====
-- `Search`, `BinaryInsert` and `RemoveAt`. A comparison with the sought entry is a function `cmp`
-- of the entries, with Go's sign.
use accumulate.Common.{
  ℕ, zero, suc, ◌+◌, ◌/◌, List, [], ◌∷◌, ◌++◌, Option, none, some, Bool, true, false,
}
use accumulate.Common.{ltb, if◌then◌else◌, length, take, drop, get_elem?}
use accumulate.Common.Compare.{Sign, same, nonneg}
use accumulate.Common.Outcome.{Outcome, ok, panic}

module _ {ℓ} {A : Type ℓ} where
  -- `cmp(l[i]) >= 0`; `sort.Search` asks only below the length.
  unfoldable pub at_least : List A → (A → Sign) → ℕ → Bool
  at_least l cmp i = elim (get_elem? l i) [ none ↦ false | some x ↦ nonneg (cmp x) ]

  -- `cmp(l[i]) == 0`, where `i` is in range.
  unfoldable pub is_same : Option A → (A → Sign) → Bool
  is_same none cmp = false
  is_same (some x) cmp = elim (cmp x) [ same ↦ true | _ ↦ false ]

  -- The loop of `sort.Search`: between `i` and `j` it asks in the middle.
  unfoldable pub search_loop : ℕ → List A → (A → Sign) → ℕ → ℕ → ℕ
  search_loop zero l cmp i j = i
  search_loop (suc fuel) l cmp i j =
      let h = (i + j) / 2 in
      let lower = search_loop fuel l cmp i h in
      let upper = search_loop fuel l cmp (h + 1) j in
      if ltb i j then (if at_least l cmp h then lower else upper) else i

  -- `Search`: the index, and whether the entry there is the sought one. Each round shortens the
  -- range, so as many rounds as entries are enough.
  unfoldable pub search : List A → (A → Sign) → ℕ × Bool
  unfolding at_least is_same search_loop
  search l cmp =
      let i = search_loop (length l) l cmp 0 (length l) in (i, is_same (get_elem? l i) cmp)

  -- `BinaryInsert`: the slice, the index that the returned pointer is to, and whether an entry was
  -- added. The index is never past the slice, so the branch that appends makes the same list.
  unfoldable pub binary_insert : A → List A → (A → Sign) → List A × ℕ × Bool
  unfolding search
  binary_insert empty l cmp =
      let (i, found) = search l cmp in
      if found then (l, i, false) else (take i l ++ empty ∷ drop i l, i, true)

  -- `RemoveAt`: an index past the last entry is a panic.
  unfoldable pub remove_at : List A → ℕ → Outcome (List A)
  remove_at l i = if ltb i (length l) then ok (take i l ++ drop (suc i) l) else panic

  -- `*ptr = v`, for a pointer to an entry of the slice.
  abbrev pub set : List A → ℕ → A → List A
  set [] i v = []
  set (x ∷ xs) zero v = v ∷ xs
  set (x ∷ xs) (suc i) v = x ∷ set xs i v
