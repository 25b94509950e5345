-- ===== src/Merkle/Manager/Marks.antt =====
-- The states that the records of a chain keep, and what `GetAnyState` adds to them.
use accumulate.Common.{
  ℕ, zero, suc, ◌+◌, ◌-◌, ◌*◌, ◌%◌, ◌^◌, ◌≤◌, ◌<◌, ◌≡◌, ◌⊎◌, inl, inr, refl, ap, sym, ◌∙◌, List, [],
  ◌++◌, map, none, some, true, false, ◌==◌, ltb, leb, arith, length, take, drop, Bool-cases,
  length-take_le, take-append-drop, lt→ltb,
}
use accumulate.Common.Outcome.{ok}
use accumulate.Common.Slices.{take_all, length-drop, take-take_le, drop_le-append}
use native.Mathlib.Nat.{mod-eq_of_lt, mod_self, mul-add-mod_self_right, mul-mod_left, add-mod_right}
use accumulate.Common.Bytes.{Bytes}
use accumulate.Merkle.State.{empty, add_all}
use accumulate.Merkle.Manager.{Chain, clear, get_state, previous_mark, next_mark}
use accumulate.Merkle.Manager.Holds.{last_mark, recent, state_at, is_mark, Holds}
use accumulate.Merkle.Manager.Next.{MerkleState-ext}
use accumulate.Merkle.Manager.AddAll.{
  add_all-hash_list, add_all-count, add_all-pending, add_all-append,
}

-- The mark before any element of a block is where the block starts.
pub last_mark-block :
    (f q start n : ℕ) → 0 < f → start ≡ q * f → start < n → n ≤ start + f → last_mark f n ≡ start
unfolding last_mark
last_mark-block f q start n pos e lo hi =
    let split_ : n ≡ q * f + (n - start) = omega (arith, e) in
    let rem : n % f ≡ (n - start) % f =
      ap (λ k. k % f) split_ ∙ mul-add-mod_self_right q f (n - start) in
    elim (full (n - start) (omega arith)) [
      | inl at ↦
          let none_left : n % f ≡ 0 = rem ∙ ap (λ r. r % f) at ∙ mod_self f in
          ground (arith, none_left)
      | inr l ↦ let left : n % f ≡ n - start = rem ∙ mod-eq_of_lt l in ground (arith, left)
    ]
  where
    full : (r : ℕ) → r ≤ f → (r ≡ f) ⊎ (r < f)
    full r h = omega arith

-- The part of a list from one index on, split at a later one.
pub drop-split {ℓ} :
    {A : Type ℓ} (i j n : ℕ) (xs : List A)
    → i ≤ j
    → j ≤ n
    → n ≤ length xs
    → drop i (take n xs) ≡ drop i (take j xs) ++ drop j (take n xs)
drop-split i j n xs le hi fits =
    let count = length-take_le j xs (omega arith) in
    let split_ : take n xs ≡ take j xs ++ drop j (take n xs) =
      sym (take-append-drop j (take n xs))
      ∙ ap (λ t. t ++ drop j (take n xs)) (take-take_le j n xs hi) in
    ap (drop i) split_ ∙ drop_le-append i (take j xs) (drop j (take n xs)) (omega (arith, count))

module _ (sum : Bytes → Bytes) (p : ℕ) (frequent : 1 < 2 ^ p) (c : Chain) (hs : List Bytes)
    (bound : length hs < 2 ^ 63) (holds : Holds sum p c hs) (nonempty : 0 < length hs) where
  -- The head and the marks are the states after their elements.
  pub head-count : c.head.count ≡ length hs
  unfolding state_at
  head-count = ap (λ m. m.count) holds.head_eq

  pub get_state-nonempty : (i : ℕ) → get_state sum p c i ≡ c.states i
  unfolding get_state
  get_state-nonempty i =
      let some_ : (c.head.count == 0) ≡ false = ground (arith, head-count) in rw some_ refl

  pub get_state-mark :
      (i : ℕ)
      → suc i % 2 ^ p ≡ 0
      → i < length hs
      → get_state sum p c i ≡ some (state_at sum p (take (suc i) hs))
  unfolding is_mark
  get_state-mark i at l =
      let t = lt→ltb i (length hs) l in get_state-nonempty i ∙ holds.states_eq i ∙ rw (at, t) refl

  pub get_state-missing :
      (i : ℕ) → (suc i % 2 ^ p ≡ 0 → i < length hs → ⊥) → get_state sum p c i ≡ none
  unfolding is_mark
  get_state-missing i off =
      get_state-nonempty i ∙ holds.states_eq i ∙ elim (Bool-cases (suc i % 2 ^ p == 0)) [
        | inl z ↦ let past : ltb i (length hs) ≡ false = ground (arith, off, z) in rw (z, past) refl
        | inr z ↦ rw z refl
      ]

  pub previous_mark-state_at :
      (q start : ℕ)
      → start ≡ q * 2 ^ p
      → start < length hs
      → previous_mark sum p c start ≡ ok (clear (state_at sum p (take start hs)))
  unfolding previous_mark
  previous_mark-state_at q zero e l = ap ok (sym cleared)
    where
      cleared : clear (state_at sum p []) ≡ empty
      cleared = unfold state_at add_all in refl
  previous_mark-state_at q (suc last) e l =
      let at : suc last % 2 ^ p ≡ 0 = ap (λ k. k % 2 ^ p) e ∙ mul-mod_left q (2 ^ p) in
      rw (previous_mark, get_state-mark last at (omega arith)) refl

  -- The state at the next mark has the elements from the one before on.
  pub next_mark-state_at :
      (q start : ℕ)
      → start ≡ q * 2 ^ p
      → start < length hs
      → (n : ℕ) × (n ≤ length hs)
        × (start < n)
        × (n ≡ start + 2 ^ p ⊎ (n ≡ length hs) × (length hs < start + 2 ^ p))
        × (next_mark sum p c (start + 2 ^ p - 1) ≡ ok (state_at sum p (take n hs)))
  unfolding next_mark
  next_mark-state_at q start e l = elim (Bool-cases (leb (length hs) (start + 2 ^ p - 1))) [
    | inl t ↦
        let past : leb c.head.count (start + 2 ^ p - 1) ≡ true = ground (arith, t, head-count) in
        (length hs, omega arith, l, inr (refl, ground (arith, t, frequent)), rw past (ap ok at_end))
    | inr f ↦
        let short : start + 2 ^ p - 1 < length hs = ground (arith, f) in
        let before : leb c.head.count (start + 2 ^ p - 1) ≡ false = ground (arith, f, head-count) in
        (
          start + 2 ^ p,
          omega (arith, frequent, short),
          omega (arith, frequent),
          inl refl,
          rw (before, get_state-mark (start + 2 ^ p - 1) (rw index at_mark) short, index) refl,
        )
  ]
    where
      at_end : c.head ≡ state_at sum p (take (length hs) hs)
      at_end = holds.head_eq ∙ ap (state_at sum p) (sym (take_all (length hs) hs (omega arith)))

      index : suc (start + 2 ^ p - 1) ≡ start + 2 ^ p
      index = omega (arith, frequent)

      at_mark : (start + 2 ^ p) % 2 ^ p ≡ 0
      at_mark = add-mod_right start (2 ^ p) ∙ ap (λ k. k % 2 ^ p) e ∙ mul-mod_left q (2 ^ p)

  -- The hashes kept at the next mark are those from the mark before on.
  pub recent-next_mark :
      (q start n : ℕ)
      → start ≡ q * 2 ^ p
      → n ≤ length hs
      → start < n
      → n ≡ start + 2 ^ p ⊎ (n ≡ length hs) × (length hs < start + 2 ^ p)
      → (state_at sum p (take n hs)).hash_list ≡ map some (drop start (take n hs))
  unfolding state_at recent
  recent-next_mark q start n e le lo hi =
      let count = length-take_le n hs le in
      let at : last_mark (2 ^ p) (length (take n hs)) ≡ start =
        last_mark-block (2 ^ p) q start (length (take n hs)) (omega (arith, frequent)) e
          (omega (arith, count)) (omega (arith, count, hi)) in
      rw at refl

  -- From the mark before, cleared, adding the elements up to `n` gives the state at `n`.
  pub add_all-state_at :
      (q start n : ℕ)
      → start ≡ q * 2 ^ p
      → n ≤ length hs
      → start < n
      → n ≤ start + 2 ^ p
      → add_all sum (clear (state_at sum p (take start hs))) (map some (drop start (take n hs)))
        ≡ state_at sum p (take n hs)
  unfolding state_at recent
  add_all-state_at q start n e le lo hi =
      let mid = drop start (take n hs) in
      let count = length-take_le n hs le in
      let before = length-take_le start hs (omega arith) in
      let more = length-drop start (take n hs) in
      let at : last_mark (2 ^ p) (length (take n hs)) ≡ start =
        last_mark-block (2 ^ p) q start (length (take n hs)) (omega (arith, frequent)) e
          (omega (arith, count)) (omega (arith, count)) in
      let from = clear (state_at sum p (take start hs)) in
      let parts : take start hs ++ mid ≡ take n hs =
        ap (λ t. t ++ mid) (sym (take-take_le start n hs (omega arith)))
        ∙ take-append-drop start (take n hs) in
      MerkleState-ext _ _
        (add_all-count sum from mid (omega (arith, count, before, more))
          ∙ omega (arith, count, before, more))
        (add_all-pending sum from (add_all sum empty (map some (take start hs))) mid refl
          ∙ ap (λ m. m.pending)
              (sym (add_all-append sum empty (take start hs) mid)
                ∙ ap (λ ks. add_all sum empty (map some ks)) parts))
        (add_all-hash_list sum from mid ∙ ap (λ k. map some (drop k (take n hs))) (sym at))

  pub state_at-count : (ks : List Bytes) → (state_at sum p ks).count ≡ length ks
  unfolding state_at
  state_at-count ks = refl
