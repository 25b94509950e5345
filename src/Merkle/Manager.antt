-- ===== src/Merkle/Manager.antt =====
-- smt/managed/merklemanager.go and merklemanagerrange.go: a chain of hashes on records of a
-- database. A record is the value last put in it; its `Get` fails only where there is none. The record
-- of a hash is found by its bytes, where the code digests those that are not 32 bytes long.
pub mod Holds
pub mod Next
pub mod Adding
pub mod AddAll
pub mod Marks
pub mod AnyState
pub mod Slices
pub mod Range
use accumulate.Common.{ℕ, suc, zero, ◌+◌, ◌-◌, ◌*◌, ◌/◌, ◌%◌, ◌^◌, List, [], ◌∷◌, ◌++◌}
use accumulate.Common.{
  Option, none, some, Bool, true, false, not, ◌==◌, leb, ltb, ◌||◌, if◌then◌else◌,
}
use accumulate.Common.{length, take, drop}
use accumulate.Common.Outcome.{Outcome, ok, err, panic, ◌>>=◌, ◌>>◌, fail_if}
use accumulate.Common.Bytes.{Bytes, equal_bytes}
use accumulate.Merkle.Hash.{Hash}
use accumulate.Merkle.State.{MerkleState, empty, add_to_merkle_tree, get_intermediate}

-- The records of a chain: its head, an empty state where none was put, and those by an index or
-- by a hash.
pub record Chain : Type 0 where
  pub head : MerkleState
  pub states : ℕ → Option MerkleState
  pub element_index : Bytes → Option ℕ
  pub element : ℕ → Option Bytes

-- A chain without records.
abbrev pub new_chain : Chain
new_chain = record {
  head = empty;
  states = λ i. none;
  element_index = λ h. none;
  element = λ i. none;
}

unfoldable pub put_at {ℓ} : {A : Type ℓ} → (ℕ → Option A) → ℕ → A → ℕ → Option A
put_at f i v j = if j == i then some v else f j

unfoldable pub put_index : (Bytes → Option ℕ) → Bytes → ℕ → Bytes → Option ℕ
put_index f h v g = if equal_bytes g h then some v else f g

abbrev pub clear : MerkleState → MerkleState
clear m = record m { hash_list = [] }

module _ (sum : Bytes → Bytes) (mark_power : ℕ) where
  -- `markFreq`; `x & markMask` is the remainder by it.
  abbrev pub mark_freq : ℕ
  mark_freq = 2 ^ mark_power

  -- The last part of `AddHash`: the element is put and the head moves on.
  unfoldable pub append_hash : Chain → Bytes → Chain
  append_hash c hash =
      let n = c.head.count in
      let with_element = record c { element = put_at c.element n hash } in
      let next = (n + 1) % 2 ^ 64 in
      if next % mark_freq == 0
      then (let head = add_to_merkle_tree sum c.head (some hash) in
          record with_element {
            head = head;
            states = put_at c.states ((head.count + (2 ^ 64 - 1)) % 2 ^ 64) head;
          })
      else (if next % mark_freq == 1
          then record with_element { head = add_to_merkle_tree sum (clear c.head) (some hash) }
          else record with_element { head = add_to_merkle_tree sum c.head (some hash) })

  -- `AddHash` of a hash that is not nil.
  unfoldable pub add_hash : Chain → Bytes → Bool → Chain
  add_hash c hash unique = elim (c.element_index hash) [
    | none ↦
        append_hash (record c { element_index = put_index c.element_index hash c.head.count }) hash
    | some i ↦ if unique then c else append_hash c hash
  ]

  -- The state that `GetState` makes of an empty chain: `err != nil` is where there is no element.
  unfoldable pub state_of_empty : Option Bytes → MerkleState
  state_of_empty none = add_to_merkle_tree sum empty none
  state_of_empty (some h) = empty

  -- `GetState`; `none` is nil.
  unfoldable pub get_state : Chain → ℕ → Option MerkleState
  get_state c element =
      if c.head.count == 0 then some (state_of_empty (c.element element)) else c.states element

  -- The loop of `GetAnyState` over the next mark's hashes, until the state has `stop` elements.
  unfoldable pub replay : ℕ → MerkleState → List Hash → MerkleState
  replay stop m [] = m
  replay stop m (v ∷ vs) =
      let rest = replay stop (add_to_merkle_tree sum m v) vs in if stop == m.count then m else rest

  -- The state at the mark before `element`, its HashList cleared. Elements before `start` are
  -- older than the mark; there is none where `start` is 0.
  unfoldable pub previous_mark : Chain → ℕ → Outcome MerkleState
  previous_mark c zero = ok empty
  previous_mark c (suc last) = elim (get_state c last) [
    | none ↦ err "should have a state for all elements(1)"
    | some m ↦ ok (clear m)
  ]

  -- The state at the mark after, or the head where the chain has not come to it.
  unfoldable pub next_mark : Chain → ℕ → Outcome MerkleState
  next_mark c mark =
      if leb c.head.count mark
      then ok c.head
      else elim (get_state c mark) [ none ↦ err "mark not found in the database" | some m ↦ ok m ]

  -- What `GetAnyState` computes where no state is stored. `start` is `element & ^markMask`.
  unfoldable pub compute_state : Chain → ℕ → Outcome MerkleState
  compute_state c element =
      (let start = element - element % mark_freq in
        previous_mark c start >>= λ before. next_mark c (start + mark_freq - 1) >>= λ mark.
        let m = replay (element + 1) before mark.hash_list in
        ok (if m.count % mark_freq == 0 then clear m else m))

  -- `GetAnyState`, its argument one more than the code's, so that 0 is the code's -1.
  unfoldable pub get_any_state : Chain → ℕ → Outcome MerkleState
  get_any_state c zero = ok empty
  get_any_state c (suc element) = elim (get_state c element) [
    | some m ↦ ok m
    | none ↦
        if leb c.head.count element then err "element out of range" else compute_state c element
  ]

  -- `GetIntermediate` of the chain, for an element from 0 on.
  unfoldable pub chain_intermediate : Chain → ℕ → ℕ → Outcome (Hash × Hash)
  chain_intermediate c element height = elim (c.element element) [
    | none ↦ err "not found"
    | some hash ↦ get_any_state c element >>= λ m.
        elim (get_intermediate sum m (some hash) height) [
          | none ↦ err "no values found at that height"
          | some pair ↦ ok pair
        ]
  ]

  -- `c ^= markFreq` for a multiple of it.
  abbrev pub flip_freq : ℕ → ℕ
  flip_freq n = if (n / mark_freq) % 2 == 1 then n - mark_freq else n + mark_freq

  -- The number of hashes that the head must hold for `n` elements after a mark.
  abbrev pub expected_of : ℕ → ℕ
  expected_of n = if n % mark_freq == 0 then flip_freq n else n

  -- The loop of `GetRange`: the hashes of `marks` marks from `last` on, up to the head's.
  unfoldable pub collect : ℕ → Chain → ℕ → Outcome (List Hash)
  collect zero c last = ok []
  collect (suc marks) c last = elim (get_state c (last + mark_freq - 1)) [
    | some m ↦
        (fail_if (not (length m.hash_list == mark_freq)) "markpoint: wrong number of entries")
        >> (collect marks c (last + mark_freq) >>= λ rest. ok (m.hash_list ++ rest))
    | none ↦
        (fail_if
          (ltb c.head.count last
            || not (length c.head.hash_list == expected_of (c.head.count - last)))
          "head: wrong number of entries")
        >> ok c.head.hash_list
  ]

  -- `hl[first:last]`; past the slice's length it is a panic here, though not in Go up to the slice's
  -- capacity, which is not modelled.
  unfoldable pub slice : List Hash → ℕ → ℕ → Outcome (List Hash)
  slice hl first last = if leb last (length hl) then ok (drop first (take last hl)) else panic

  -- `GetRange`, for bounds from 0 on.
  unfoldable pub get_range : Chain → ℕ → ℕ → Outcome (List Hash)
  get_range c begin end =
      (let ec = c.head.count in
        let stop = if ltb ec end then ec else end in
        let start = begin - begin % mark_freq in
        let first = begin % mark_freq in
        if ltb end begin || leb ec begin
        then err "impossible range"
        else (if stop == begin
            then ok []
            else (collect ((stop - start) / mark_freq + 1) c start >>= λ hl.
                slice hl first (first + stop - begin))))
