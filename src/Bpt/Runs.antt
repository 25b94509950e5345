-- ===== src/Bpt/Runs.antt =====
-- Runs of the Patricia tree.
use accumulate.Common.{
  ℕ, ◌<◌, ◌≡◌, ◌⊎◌, refl, sym, ◌∙◌, [], ◌∷◌, length, Option, none, some, Bool, true, false,
  replicate, arith, inl, inr, Bool-cases,
}
use accumulate.Common.Outcome.{ok}
use accumulate.Common.Bytes.{Bytes, equal_bytes, equal_bytes→eq}
use accumulate.Bpt.{Entry, nil, value, node, zeros, goes_left, new_root, insert, get, get_node_key}
use accumulate.Bpt.Trie.{find, count}
use accumulate.Bpt.Writes.{Writes}
use accumulate.Bpt.Dirty.{Close, Spread}
use accumulate.Bpt.Inserted.{IsBpt, insert-Writes}
use accumulate.Bpt.Lookup.{Answers, get-Answers}
use accumulate.Bpt.Update.{update, dirty_top}
use accumulate.Bpt.Update.Summary.{or_zeros, summary}
use accumulate.Bpt.Update.Loop.{Updated, IsReady, update-summary}
use accumulate.Bpt.Range.{first_key, get_range, all_ranges}
use accumulate.Bpt.Range.Listed.{hash_of, IsMap}
use accumulate.Bpt.Range.Pages.{all_ranges-IsMap}
use accumulate.Bpt.History.{insert_value, update_hashes, last_value, run, run-root_hash}
use accumulate.Bpt.Receipt.Valid.{Proves, get_receipt-Proves}

abbrev plain_sum : Bytes → Bytes
plain_sum b = b

abbrev key : ℕ → Bytes
key n = replicate 32 n

-- A tree with one value.
abbrev one : Entry
one =
    node (record { height = 0; node_key = 128 ∷ replicate 31 0; hash = zeros; dirty = true }) nil
      (value (key 1) (key 7))

insert_runs : insert new_root (key 1) (key 7) ≡ ok one
unfolding insert new_root get_node_key
insert_runs = refl

one-IsBpt : IsBpt one
unfolding goes_left
one-IsBpt = (refl, tt, ((refl, omega arith), (refl, tt)))

one-IsReady : IsReady plain_sum one
unfolding dirty_top count
one-IsReady = record {
  tree = one-IsBpt;
  low = (omega arith, tt, tt);
  hashed = (tt, tt, λ z. absurd (cc z));
  marked = inr (omega arith);
}

insert-Writes_example :
    (root' : Entry) × (insert one (key 3) (key 9) ≡ ok root')
    × IsBpt root'
    × Writes (key 3) (key 9) one root'
insert-Writes_example = insert-Writes one (key 3) (key 9) (refl, omega arith) one-IsBpt

get-Answers_example :
    (highest : Entry) × (entry : Option Entry) × (found : Bool) × (get one (key 1)
      ≡ ok (highest, entry, found))
    × Answers one (key 1) entry found
get-Answers_example = get-Answers one (key 1) one-IsBpt

update-summary_example :
    (root' : Entry) × (update plain_sum one ≡ ok (root', or_zeros (summary plain_sum one)))
    × IsReady plain_sum root'
    × Updated plain_sum one root'
update-summary_example = update-summary plain_sum one one-IsReady

get_receipt-Proves_example :
    (root' : Entry) × (hash : Bytes) × (update plain_sum one ≡ ok (root', hash))
    × Proves plain_sum one root' (key 1) hash
get_receipt-Proves_example = get_receipt-Proves plain_sum one (key 1) one-IsReady

-- No key is both.
same_last :
    (k : Bytes)
    → last_value k (insert_value (key 1) (key 7) ∷ insert_value (key 3) (key 9) ∷ []) none
      ≡ last_value k
          (insert_value (key 3) (key 8)
            ∷ update_hashes
            ∷ insert_value (key 3) (key 9)
            ∷ insert_value (key 1) (key 7)
            ∷ [])
          none
unfolding last_value
same_last k = elim (Bool-cases (equal_bytes k (key 1))) [
  | inl e ↦ rw (equal_bytes→eq k (key 1) e) (unfold equal_bytes in refl)
  | inr e ↦ elim (Bool-cases (equal_bytes k (key 3))) [
    | inl f ↦ rw (equal_bytes→eq k (key 3) f) (unfold equal_bytes in refl)
    | inr f ↦ rw (e, f) refl
  ]
]

-- The keys with a value are 1 and 3, which differ in the seventh bit.
has_value :
    (k h : Bytes)
    → last_value k (insert_value (key 1) (key 7) ∷ insert_value (key 3) (key 9) ∷ []) none ≡ some h
    → (k ≡ key 1) ⊎ (k ≡ key 3)
unfolding last_value
has_value k h e = elim (Bool-cases (equal_bytes k (key 3))) [
  | inl f ↦ inr (equal_bytes→eq k (key 3) f)
  | inr f ↦ elim (Bool-cases (equal_bytes k (key 1))) [
    | inl g ↦ inl (equal_bytes→eq k (key 1) g)
    | inr g ↦ absurd (cc (rw (g, f) at e))
  ]
]

not-Close : Close (key 1) (key 3) → ⊥
unfolding goes_left
not-Close close = let bit : false ≡ true = close 6 (omega arith) in cc bit

last_value-Spread :
    Spread
      (λ k. last_value k (insert_value (key 1) (key 7) ∷ insert_value (key 3) (key 9) ∷ []) none)
last_value-Spread a b x y at_a at_b close = elim (has_value a x at_a) [
  | inl e ↦ elim (has_value b y at_b) [
    | inl f ↦ e ∙ sym f
    | inr f ↦ absurd (not-Close (rw (e, f) at close))
  ]
  | inr e ↦ elim (has_value b y at_b) [
    | inl f ↦ absurd (not-Close (λ i l. sym ((rw (e, f) at close) i l)))
    | inr f ↦ e ∙ sym f
  ]
]

-- The same two values in another order, one of them replaced.
run-root_hash_example :
    (a : Entry) × (b : Entry) × (a' : Entry) × (b' : Entry) × (hash : Bytes) × (run plain_sum
        (insert_value (key 1) (key 7) ∷ insert_value (key 3) (key 9) ∷ [])
        new_root
      ≡ ok a)
    × (run plain_sum
          (insert_value (key 3) (key 8)
            ∷ update_hashes
            ∷ insert_value (key 3) (key 9)
            ∷ insert_value (key 1) (key 7)
            ∷ [])
          new_root
        ≡ ok b)
    × (update plain_sum a ≡ ok (a', hash))
    × (update plain_sum b ≡ ok (b', hash))
run-root_hash_example =
    run-root_hash plain_sum (insert_value (key 1) (key 7) ∷ insert_value (key 3) (key 9) ∷ [])
      (insert_value (key 3) (key 8)
        ∷ update_hashes
        ∷ insert_value (key 3) (key 9)
        ∷ insert_value (key 1) (key 7)
        ∷ [])
      ((refl, omega arith), ((refl, omega arith), tt))
      ((refl, omega arith), ((refl, omega arith), ((refl, omega arith), tt))) same_last
      last_value-Spread

abbrev two : Entry
two =
    node (record { height = 0; node_key = 128 ∷ replicate 31 0; hash = zeros; dirty = true })
      (value (key 128) (key 9)) (value (key 1) (key 7))

-- The second range starts behind the last key of the first.
get_range_runs :
    (get_range two first_key 1 ≡ ((key 128, key 9) ∷ [], key 128))
    × (get_range two (key 128) 1 ≡ ((key 1, key 7) ∷ [], key 1))
    × (get_range two (key 1) 1 ≡ ([], zeros))
unfolding get_range goes_left equal_bytes
get_range_runs = (refl, refl, refl)

two-IsBpt : IsBpt two
unfolding goes_left
two-IsBpt = (refl, ((refl, omega arith), (refl, tt)), ((refl, omega arith), (refl, tt)))

no_first : find two first_key ≡ none
unfolding find goes_left equal_bytes
no_first = refl

two_count : count two < 3
unfolding count
two_count = omega arith

all_ranges-IsMap_example :
    IsMap (all_ranges 3 two 1 first_key)
    × ((k : Bytes) → hash_of k (all_ranges 3 two 1 first_key) ≡ find two k)
    × (length (all_ranges 3 two 1 first_key) ≡ count two)
all_ranges-IsMap_example = all_ranges-IsMap two 3 1 two-IsBpt no_first (omega arith) two_count
