-- ===== src/Sorted/Tests.antt =====
-- Runs of the search on small slices.
use accumulate.Common.{
  ℕ, ◌≡◌, refl, List, [], ◌∷◌, true, All, take, drop, head?, ltb, if◌then◌else◌,
}
use accumulate.Common.Compare.{Sign, negative, same, positive, nonneg}
use accumulate.Sorted.Search.{search, binary_insert, remove_at, is_same}
use accumulate.Sorted.Contract.{IsMonotone, search_splits}
use accumulate.Common.Outcome.{ok, panic}

-- The comparison with 5.
abbrev with_five : ℕ → Sign
with_five n = if ltb n 5 then negative else if ltb 5 n then positive else same

abbrev numbers : List ℕ
numbers = 1 ∷ 3 ∷ 5 ∷ 8 ∷ []

search_runs : search numbers with_five ≡ (2, true)
unfolding search
search_runs = refl

binary_insert_runs : binary_insert 0 (1 ∷ 8 ∷ []) with_five ≡ (1 ∷ 0 ∷ 8 ∷ [], 1, true)
unfolding binary_insert
binary_insert_runs = refl

remove_at_runs : remove_at numbers 3 ≡ ok (1 ∷ 3 ∷ 5 ∷ [])
unfolding remove_at
remove_at_runs = refl

remove_at_panics : remove_at numbers 4 ≡ panic
unfolding remove_at
remove_at_panics = refl

numbers-IsMonotone : IsMonotone with_five numbers
numbers-IsMonotone = (λ h. cc, (λ h. cc, (λ h. (refl, tt), (λ h. tt, tt))))

search_splits_example :
    All (λ x. with_five x ≡ negative) (take (search numbers with_five).0 numbers)
    × All (λ x. nonneg (with_five x) ≡ true) (drop (search numbers with_five).0 numbers)
    × ((search numbers with_five).1
        ≡ is_same (head? (drop (search numbers with_five).0 numbers)) with_five)
search_splits_example = search_splits with_five numbers numbers-IsMonotone
