-- ===== src/Merkle/Building/Intermediate.antt =====
-- What `GetIntermediate` of a chain answers.
use accumulate.Common.{
  ℕ, zero, suc, ◌+◌, ◌-◌, ◌^◌, ◌≤◌, ◌<◌, ◌≡◌, inl, inr, refl, ap, sym, ◌∙◌, List, [], ◌∷◌, map,
  Option, none, some, length, take, get_elem?, arith, Bool-cases, Option-cases, length-take_le,
}
use accumulate.Common.Outcome.{Outcome, ok, err}
use accumulate.Common.Bytes.{Bytes, equal_bytes, equal_bytes→eq}
use accumulate.Merkle.Hash.{Hash}
use accumulate.Merkle.State.{MerkleState, empty, pad_list, add_all, get_intermediate}
use accumulate.Merkle.Manager.{Chain, get_any_state, chain_intermediate}
use accumulate.Merkle.Manager.Holds.{Holds, state_at, first_index}
use accumulate.Merkle.Manager.AnyState.{get_any_state-state_at}
use accumulate.Merkle.Building.Blocks.{
  or_empty, block, Slots, pad_list-Slots, add_all-Slots, full, halved, intermediate_loop-found,
}
use accumulate.Merkle.Building.Rounds.{Answers}

pub get_elem?-take : (n j : ℕ) (xs : List Bytes) → j < n → get_elem? (take n xs) j ≡ get_elem? xs j
get_elem?-take zero j xs h = absurd (omega arith)
get_elem?-take (suc n) j [] h = refl
get_elem?-take (suc n) zero (x ∷ xs) h = refl
get_elem?-take (suc n) (suc j) (x ∷ xs) h = get_elem?-take n j xs (omega arith)

pub get_elem?-some :
    (xs : List Bytes) (i : ℕ) → i < length xs → (h : Bytes) × (get_elem? xs i ≡ some h)
get_elem?-some [] i l = absurd (omega arith)
get_elem?-some (x ∷ xs) zero l = (x, refl)
get_elem?-some (x ∷ xs) (suc i) l = get_elem?-some xs i (omega arith)

pub first_index-get_elem? :
    (h : Bytes) (xs : List Bytes) (i : ℕ) → first_index h xs ≡ some i → get_elem? xs i ≡ some h
unfolding first_index
first_index-get_elem? h [] i e = absurd (cc e)
first_index-get_elem? h (x ∷ xs) i e = elim (Bool-cases (equal_bytes h x)) [
  | inl t ↦
      let first : 0 ≡ i = cc (rw t at e) in rw (← first) (ap some (sym (equal_bytes→eq h x t)))
  | inr t ↦ elim (Option-cases (first_index h xs)) [
    | inl n ↦ absurd (cc (rw (t, n) at e))
    | inr (k, n) ↦
        let later : suc k ≡ i = cc (rw (t, n) at e) in rw (← later) (first_index-get_elem? h xs k n)
  ]
]

pub get_elem?-bound :
    (xs : List Bytes) (i : ℕ) (h : Bytes) → get_elem? xs i ≡ some h → i < length xs
get_elem?-bound [] i h e = absurd (cc e)
get_elem?-bound (x ∷ xs) zero h e = omega arith
get_elem?-bound (x ∷ xs) (suc i) h e = omega (arith, get_elem?-bound xs i h e)

-- Pending after the first `n` hashes.
pub take-Slots :
    (sum : Bytes → Bytes) (hs : List Bytes) (n : ℕ)
    → n ≤ length hs
    → Slots sum hs 0 n (add_all sum empty (map some (take n hs))).pending
take-Slots sum hs n h =
    let counts = length-take_le n hs h in
    let s : Slots sum hs 0 (0 + length (take n hs))
        (add_all sum empty (map some (take n hs))).pending =
      add_all-Slots sum hs empty 0 (take n hs)
        (λ j l. get_elem?-take n j hs (omega (arith, counts)) ∙ ap (get_elem? hs) (omega arith))
        refl in
    let total : 0 + length (take n hs) ≡ n = omega (arith, counts) in rw total at s

module _ (sum : Bytes → Bytes) (p : ℕ) (frequent : 1 < 2 ^ p) (c : Chain) (hs : List Bytes)
    (bound : length hs < 2 ^ 63) (holds : Holds sum p c hs) where
  pub state_at-Slots :
      (n : ℕ) → n ≤ length hs → Slots sum hs 0 n (state_at sum p (take n hs)).pending
  unfolding state_at
  state_at-Slots n h = take-Slots sum hs n h

  get_any_state-Slots :
      (i : ℕ)
      → i < length hs
      → (m : MerkleState) × (get_any_state sum p c i ≡ ok m) × Slots sum hs 0 i m.pending
  get_any_state-Slots zero h =
      (empty, (get_any_state-state_at sum p c hs frequent bound holds).0, refl)
  get_any_state-Slots (suc i) h = (
    state_at sum p (take (suc i) hs),
    (get_any_state-state_at sum p c hs frequent bound holds).1 i (omega arith),
    state_at-Slots (suc i) (omega arith),
  )

  abbrev answer_of : Option (Hash × Hash) → Outcome (Hash × Hash)
  answer_of none = err "no values found at that height"
  answer_of (some pair) = ok pair

  step_of :
      (i height : ℕ) (hash : Bytes) (m : MerkleState) (o : Option (Hash × Hash))
      → c.element i ≡ some hash
      → get_any_state sum p c i ≡ ok m
      → get_intermediate sum m (some hash) height ≡ o
      → chain_intermediate sum p c i height ≡ answer_of o
  unfolding chain_intermediate
  step_of i height hash m none element s e = rw (chain_intermediate, element, s) (ap answer_of e)
  step_of i height hash m (some pair) element s e =
      rw (chain_intermediate, element, s) (ap answer_of e)

  pub chain_intermediate-Answers :
      (end : ℕ) → end < length hs → Answers sum hs end (chain_intermediate sum p c)
  unfolding get_intermediate block
  chain_intermediate-Answers end inside i d height h level =
      let (m, s, slots) = get_any_state-Slots i (omega arith) in
      let (hash, here) = get_elem?-some hs i (omega arith) in
      let element : c.element i ≡ some hash = holds.element_eq i ∙ here in
      let leaf : block sum hs 0 i ≡ hash = ap or_empty here in
      let at : 0 + d ≡ d = omega arith in
      let answer =
        intermediate_loop-found sum hs 0 d i height (pad_list m.pending) (omega (arith, level))
          (pad_list-Slots sum hs 0 i m.pending slots) in
      (
        "no values found at that height",
        elim (Bool-cases (full d i)) [
          | inl f ↦
              let pair : get_intermediate sum m (some hash) height
                  ≡ some
                      (some (block sum hs d (halved d i - 1)), some (block sum hs d (halved d i))) =
                ap (λ x. get_intermediate sum m (some x) height) (sym leaf)
                ∙ answer
                ∙ rw (f, at) refl in
              rw f (step_of i height hash m (some _) element s pair)
          | inr f ↦
              let pair : get_intermediate sum m (some hash) height ≡ none =
                ap (λ x. get_intermediate sum m (some x) height) (sym leaf) ∙ answer ∙ rw f refl in
              rw f (step_of i height hash m none element s pair)
        ],
      )
