-- ===== src/Merkle/Manager/AnyState.antt =====
-- `GetAnyState` rebuilds the state after any number of the chain's elements.
use accumulate.Common.{
  ℕ, suc, ◌+◌, ◌-◌, ◌*◌, ◌/◌, ◌%◌, ◌^◌, ◌≤◌, ◌<◌, ◌≡◌, inl, inr, refl, ap, ◌∙◌, List, [], ◌++◌, map,
  none, some, true, false, ◌==◌, leb, arith, length, take, drop, get_elem?, Bool-cases, ==_iff,
  length-take_le,
}
use accumulate.Common.Outcome.{ok, err}
use accumulate.Common.Slices.{length-drop}
use native.Mathlib.Nat.{mod-lt, div-add-mod'}
use accumulate.Common.Bytes.{Bytes}
use accumulate.Merkle.State.{empty, add_to_merkle_tree}
use accumulate.Merkle.Manager.{
  Chain, clear, get_state, get_any_state, compute_state, state_of_empty,
}
use accumulate.Merkle.Manager.Holds.{state_at, Holds}
use accumulate.Merkle.Manager.AddAll.{replay-add_all}
use accumulate.Merkle.Manager.Marks.{
  drop-split, head-count, get_state-mark, get_state-missing, previous_mark-state_at,
  next_mark-state_at, recent-next_mark, add_all-state_at, state_at-count,
}

module _ (sum : Bytes → Bytes) (p : ℕ) (frequent : 1 < 2 ^ p) (c : Chain) (hs : List Bytes)
    (bound : length hs < 2 ^ 63) (holds : Holds sum p c hs) (nonempty : 0 < length hs) where
  compute_state-state_at :
      (e : ℕ)
      → e < length hs
      → (suc e % 2 ^ p ≡ 0 → ⊥)
      → compute_state sum p c e ≡ ok (state_at sum p (take (suc e) hs))
  unfolding compute_state
  compute_state-state_at e l off =
      let q = e / 2 ^ p in
      let rem = mod-lt e {m = 2 ^ p} (omega (arith, frequent)) in
      let whole = div-add-mod' e (2 ^ p) in
      let start = e - e % 2 ^ p in
      let at : start ≡ q * 2 ^ p = omega (arith, whole) in
      let before =
        previous_mark-state_at sum p frequent c hs bound holds nonempty q start at (omega arith) in
      let (n, le, lo, hi, next) =
        next_mark-state_at sum p frequent c hs bound holds nonempty q start at (omega arith) in
      let reach : suc e ≤ n = omega (arith, rem, whole, hi) in
      let mid = drop start (take (suc e) hs) in
      let keeps : (state_at sum p (take n hs)).hash_list
          ≡ map some (mid ++ drop (suc e) (take n hs)) =
        recent-next_mark sum p frequent c hs bound holds nonempty q start n at le lo hi
        ∙ ap (map some) (drop-split start (suc e) n hs (omega arith) reach le) in
      let counts = state_at-count sum p frequent c hs bound holds nonempty (take start hs) in
      let stop : e + 1 ≡ (clear (state_at sum p (take start hs))).count + length mid = omega (
        arith,
        counts,
        length-take_le start hs (omega arith),
        length-take_le (suc e) hs l,
        length-drop start (take (suc e) hs),
      ) in
      let added_ =
        replay-add_all sum p (e + 1) (clear (state_at sum p (take start hs))) mid
          (drop (suc e) (take n hs)) stop (omega arith)
        ∙ add_all-state_at sum p frequent c hs bound holds nonempty q start (suc e) at l
            (omega arith) (omega (arith, rem, whole)) in
      let count : (state_at sum p (take (suc e) hs)).count ≡ suc e =
        state_at-count sum p frequent c hs bound holds nonempty (take (suc e) hs)
        ∙ length-take_le (suc e) hs l in
      let away : ((state_at sum p (take (suc e) hs)).count % 2 ^ p == 0) ≡ false =
        ground (arith, count, off) in
      rw (before, next, keeps, added_, away) refl

  get_any_state-within :
      (e : ℕ)
      → e < length hs
      → get_any_state sum p c (suc e) ≡ ok (state_at sum p (take (suc e) hs))
  unfolding get_any_state
  get_any_state-within e l = elim (Bool-cases (suc e % 2 ^ p == 0)) [
    | inl z ↦
        let at = (==_iff (suc e % 2 ^ p) 0).0 z in
        rw (get_any_state, get_state-mark sum p frequent c hs bound holds nonempty e at l) refl
    | inr z ↦
        let off : suc e % 2 ^ p ≡ 0 → ⊥ = λ e. ground (arith, e, z) in
        let inside : leb c.head.count e ≡ false =
          ground (arith, head-count sum p frequent c hs bound holds nonempty) in
        rw
          (
            get_any_state,
            get_state-missing sum p frequent c hs bound holds nonempty e (λ at m. off at),
            inside,
          )
          (compute_state-state_at e l off)
  ]

  get_any_state-outside :
      (e : ℕ) → length hs ≤ e → get_any_state sum p c (suc e) ≡ err "element out of range"
  unfolding get_any_state
  get_any_state-outside e l =
      let outside : leb c.head.count e ≡ true =
        ground (arith, head-count sum p frequent c hs bound holds nonempty) in
      rw
        (
          get_any_state,
          get_state-missing sum p frequent c hs bound holds nonempty e (λ at m. omega arith),
          outside,
        )
        refl

module _ (sum : Bytes → Bytes) (p : ℕ) where
  get_any_state-empty :
      (c : Chain) (e : ℕ)
      → c.head.count ≡ 0
      → c.element e ≡ none
      → get_any_state sum p c (suc e) ≡ ok (add_to_merkle_tree sum empty none)
  unfolding get_any_state get_state state_of_empty add_to_merkle_tree
  get_any_state-empty c e no_head no_element =
      let zero_ : (c.head.count == 0) ≡ true = ground (arith, no_head) in
      rw (get_any_state, get_state, zero_, no_element) refl

  -- GetAnyState, for the records of a chain with fewer than 2^63 elements and a mark power above 0:
  -- for -1 it returns the empty state, for the index of an element the state after that element and
  -- those before it, and for a later index the error; but for an index from 0 on of a chain without
  -- elements it returns the state of one nil hash.
  pub get_any_state-state_at :
      (c : Chain) (hs : List Bytes)
      → 1 < 2 ^ p
      → length hs < 2 ^ 63
      → Holds sum p c hs
      → (get_any_state sum p c 0 ≡ ok empty)
        × ((e : ℕ)
            → e < length hs
            → get_any_state sum p c (suc e) ≡ ok (state_at sum p (take (suc e) hs)))
        × ((e : ℕ)
            → 0 < length hs
            → length hs ≤ e
            → get_any_state sum p c (suc e) ≡ err "element out of range")
        × ((e : ℕ)
            → hs ≡ []
            → get_any_state sum p c (suc e) ≡ ok (add_to_merkle_tree sum empty none))
  get_any_state-state_at c hs frequent bound holds = (
    (unfold get_any_state in refl),
    (λ e l. get_any_state-within sum p frequent c hs bound holds (omega arith) e l),
    (λ e nonempty l. get_any_state-outside sum p frequent c hs bound holds nonempty e l),
    (λ e none_. of_empty e none_),
  )
    where
      of_empty :
          (e : ℕ) → hs ≡ [] → get_any_state sum p c (suc e) ≡ ok (add_to_merkle_tree sum empty none)
      of_empty e none_ = get_any_state-empty c e no_head no_element
        where
          no_head : c.head.count ≡ 0
          no_head = ap (λ m. m.count) holds.head_eq ∙ (unfold state_at in ap length none_)

          no_element : c.element e ≡ none
          no_element = holds.element_eq e ∙ ap (λ ks. get_elem? ks e) none_
