-- ===== src/Merkle/Manager/Next.antt =====
-- The state of a chain with one more element.
use accumulate.Common.{
  ℕ, suc, ◌%◌, ◌^◌, ◌<◌, ◌≡◌, ◌⊎◌, inl, inr, refl, ap, sym, ◌∙◌, List, [], ◌∷◌, ◌++◌, map, none,
  some, ◌==◌, ◌&&◌, arith, if◌then◌else◌, length, take, drop, Bool-cases, Option-cases,
  length-append,
}
use accumulate.Common.Slices.{take_le-append, take_all, drop_le-append}
use mathlib.Core.List.{map-append}
use accumulate.Common.Bytes.{Bytes, equal_bytes, equal_bytes→eq}
use accumulate.Merkle.State.{MerkleState, empty, add_to_merkle_tree, add_all}
use accumulate.Merkle.Manager.{Chain, clear, put_index}
use accumulate.Merkle.Manager.Holds.{
  last_mark, recent, first_index, state_at, is_mark, last_mark-suc_first, last_mark-suc,
  last_mark_le,
}

pub first_index-append :
    (g h : Bytes) (hs : List Bytes)
    → first_index g (hs ++ h ∷ []) ≡ elim (first_index g hs) [
      | some i ↦ some i
      | none ↦ if equal_bytes g h then some (length hs) else none
    ]
unfolding first_index
first_index-append g h [] = ground arith
first_index-append g h (k ∷ ks) = elim (Bool-cases (equal_bytes g k)) [
  | inl e ↦ rw e refl
  | inr e ↦
      let ih = first_index-append g h ks in
      elim (Option-cases (first_index g ks)) [
        | inl n ↦ ground (arith, e, n, ih)
        | inr (i, n) ↦ ground (arith, e, n, ih)
      ]
]

pub first_index-append_missing :
    (g h : Bytes) (hs : List Bytes) (c : Chain)
    → first_index h hs ≡ none
    → c.element_index g ≡ first_index g hs
    → put_index c.element_index h (length hs) g ≡ first_index g (hs ++ h ∷ [])
unfolding put_index
first_index-append_missing g h hs c missing e = elim (Bool-cases (equal_bytes g h)) [
  | inl t ↦
      let absent : first_index g hs ≡ none =
        ap (λ k. first_index k hs) (equal_bytes→eq g h t) ∙ missing in
      rw (first_index-append g h hs, absent, t) refl
  | inr f ↦
      rw (first_index-append g h hs, f, e)
        (elim (Option-cases (first_index g hs)) [ inl n ↦ rw (n, f) refl | inr (i, n) ↦ rw n refl ])
]

pub first_index-append_there :
    (g h : Bytes) (hs : List Bytes) (i : ℕ)
    → first_index h hs ≡ some i
    → first_index g (hs ++ h ∷ []) ≡ first_index g hs
first_index-append_there g h hs i there = elim (Bool-cases (equal_bytes g h)) [
  | inl t ↦
      let present : first_index g hs ≡ some i =
        ap (λ k. first_index k hs) (equal_bytes→eq g h t) ∙ there in
      rw (first_index-append g h hs, present) refl
  | inr f ↦
      rw (first_index-append g h hs)
        (elim (Option-cases (first_index g hs)) [ inl n ↦ rw (n, f) refl | inr (i, n) ↦ rw n refl ])
]

pub MerkleState-ext :
    (a b : MerkleState)
    → a.count ≡ b.count
    → a.pending ≡ b.pending
    → a.hash_list ≡ b.hash_list
    → a ≡ b
MerkleState-ext a b p q r = λ i. record { count = p i; pending = q i; hash_list = r i }

module _ (sum : Bytes → Bytes) (p : ℕ) (frequent : 1 < 2 ^ p) where
  pub add_all-append :
      (m : MerkleState) (xs : List Bytes) (h : Bytes)
      → add_all sum m (map some (xs ++ h ∷ []))
        ≡ add_to_merkle_tree sum (add_all sum m (map some xs)) (some h)
  unfolding add_all
  add_all-append m [] h = refl
  add_all-append m (x ∷ xs) h = add_all-append (add_to_merkle_tree sum m (some x)) xs h

  -- The next state where the last mark is full: HashList starts again.
  pub state_at-append_first :
      (hs : List Bytes) (h : Bytes)
      → suc (length hs) < 2 ^ 64
      → length hs % 2 ^ p ≡ 0
      → add_to_merkle_tree sum (clear (state_at sum p hs)) (some h) ≡ state_at sum p (hs ++ h ∷ [])
  unfolding state_at add_to_merkle_tree recent
  state_at-append_first hs h bound at =
      let count = length-append hs (h ∷ []) in
      let mark : last_mark (2 ^ p) (length (hs ++ h ∷ [])) ≡ length hs =
        ap (last_mark (2 ^ p)) (omega (arith, count))
        ∙ (last_mark-suc_first (2 ^ p) (length hs) frequent at).0 in
      MerkleState-ext _ _ (omega (arith, count))
        (sym (ap (λ m. m.pending) (add_all-append empty hs h)))
        (rw (mark, drop_le-append (length hs) hs (h ∷ []) (omega arith), drop_all hs) refl)
    where
      drop_all : (xs : List Bytes) → drop (length xs) xs ≡ []
      drop_all [] = refl
      drop_all (x ∷ xs) = drop_all xs

  pub state_at-append :
      (hs : List Bytes) (h : Bytes)
      → suc (length hs) < 2 ^ 64
      → (length hs % 2 ^ p ≡ 0 → ⊥)
      → add_to_merkle_tree sum (state_at sum p hs) (some h) ≡ state_at sum p (hs ++ h ∷ [])
  unfolding state_at add_to_merkle_tree recent
  state_at-append hs h bound off =
      let count = length-append hs (h ∷ []) in
      let mark : last_mark (2 ^ p) (length (hs ++ h ∷ [])) ≡ last_mark (2 ^ p) (length hs) =
        ap (last_mark (2 ^ p)) (omega (arith, count))
        ∙ last_mark-suc (2 ^ p) (length hs) frequent off in
      let le = last_mark_le (2 ^ p) (length hs) in
      MerkleState-ext _ _ (omega (arith, count))
        (sym (ap (λ m. m.pending) (add_all-append empty hs h)))
        (rw (mark, drop_le-append (last_mark (2 ^ p) (length hs)) hs (h ∷ []) le, map-append) refl)

  -- The states after one more element, by what they were.
  pub states-append :
      (hs : List Bytes) (h : Bytes) (i : ℕ)
      → (if is_mark sum p (hs ++ h ∷ []) i
          then some (state_at sum p (take (suc i) (hs ++ h ∷ [])))
          else none)
        ≡ (if (suc (length hs) % 2 ^ p == 0) && (i == length hs)
            then some (state_at sum p (hs ++ h ∷ []))
            else (if is_mark sum p hs i then some (state_at sum p (take (suc i) hs)) else none))
  unfolding is_mark
  states-append hs h i =
      let count = length-append hs (h ∷ []) in
      elim (cases_on i) [
        | inl before ↦
            let same_ = take_le-append (suc i) hs (h ∷ []) (omega arith) in
            rw same_ (ground (arith, count))
        | inr (inl at) ↦
            let whole = take_all (suc i) (hs ++ h ∷ []) (omega (arith, count)) in
            rw whole (rw at (ground (arith, count)))
        | inr (inr after) ↦ ground (arith, count)
      ]
    where
      cases_on : (j : ℕ) → (j < length hs) ⊎ (j ≡ length hs) ⊎ (length hs < j)
      cases_on j = omega arith
