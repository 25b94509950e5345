-- ===== src/Merkle/Building.antt =====
-- smt/managed/receipt.go: `GetReceipt` and `BuildReceipt`, which make the receipt from one element of a
-- chain to the root after another.
pub mod Blocks
pub mod Powers
pub mod Rounds
pub mod Columns
pub mod Pending
pub mod Intermediate
pub mod Assembled
pub mod Complete
pub mod Received
use accumulate.Common.{
  ℕ, zero, suc, ◌+◌, ◌-◌, ◌%◌, ◌^◌, List, [], ◌∷◌, ◌++◌, Option, none, some, Bool, true, false,
  ◌||◌, ◌&&◌, ◌==◌, ltb, leb, if◌then◌else◌,
}
use accumulate.Common.Outcome.{Outcome, ok, err, panic, ◌>>=◌}
use accumulate.Common.Bytes.{Bytes}
use accumulate.Merkle.Hash.{Hash, combine, sha256}
use accumulate.Merkle.State.{MerkleState, trim}
use accumulate.Merkle.Receipt.{Receipt, ReceiptEntry}
use accumulate.Merkle.Manager.{Chain, get_any_state, chain_intermediate}

-- The variables of the first loop of `BuildReceiptWith`. The Anchor is left out here, since it is set
-- again at the end.
pub record Climb : Type 0 where
  pub index : ℕ
  pub height : ℕ
  pub stay : Bool
  pub entries : List ReceiptEntry

abbrev pub entry : Bool → Hash → ReceiptEntry
entry right hash = record { right = right; hash = hash }

-- The last part of a round, where `getIntermediate` has a result or an error.
unfoldable pub climb_with : Climb → Outcome (Hash × Hash) → Option Climb
climb_with c (ok (left, right)) = some (record c {
  height = c.height + 1;
  stay = true;
  entries = c.entries ++ (if c.stay then entry false left else entry true right) ∷ [];
})
climb_with c (err e) = some (record c { index = c.index + 2 ^ (c.height - 1); stay = false })
climb_with c panic = none

-- A round of the loop; `none` is a panic.
unfoldable pub climb_round : (ℕ → ℕ → Outcome (Hash × Hash)) → Climb → Option Climb
unfolding climb_with
climb_round intermediate c =
    if c.index % 2 == 0
    then some (record c { index = c.index + 1; stay = false })
    else climb_with c (intermediate c.index c.height)

-- The loop, with a bound on its rounds that is never met.
unfoldable pub climb_loop : (ℕ → ℕ → Outcome (Hash × Hash)) → ℕ → ℕ → Climb → Option Climb
unfolding climb_round
climb_loop intermediate end zero c = none
climb_loop intermediate end (suc rounds) c =
    let next : Option Climb = elim (climb_round intermediate c) [
      | none ↦ none
      | some c' ↦ climb_loop intermediate end rounds c'
    ] in
    if leb c.index end then next else some c

module _ (sum : Bytes → Bytes) where
  -- The second loop, over Pending from slot `i` on: the last intermediate hash and the entries added.
  unfoldable pub pending_loop : ℕ → List Hash → ℕ → Bool → Hash → Hash × List ReceiptEntry
  pending_loop height [] i stay hash = (hash, [])
  pending_loop height (none ∷ ps) i stay hash = pending_loop height ps (i + 1) stay hash
  pending_loop height (some v ∷ ps) i stay none =
      pending_loop height ps (i + 1) (stay || height - 1 == i) (some v)
  pending_loop height (some v ∷ ps) i stay (some last) =
      let next = combine (sha256 sum) (some v) (some last) in
      let low = pending_loop height ps (i + 1) stay next in
      let high = pending_loop height ps (i + 1) true next in
      if ltb i (height - 1)
      then low
      else if stay
      then (low.0, if leb height i then entry false (some v) ∷ low.1 else low.1)
      else (high.0, entry true (some last) ∷ high.1)

  -- `BuildReceiptWith`
  unfoldable pub build_receipt_with :
      (ℕ → ℕ → Outcome (Hash × Hash)) → MerkleState → Receipt → Outcome Receipt
  unfolding climb_loop pending_loop
  build_receipt_with intermediate state r =
      let from : Climb = record {
        index = r.start_index;
        height = 1;
        stay = true;
        entries = r.entries;
      } in
      elim (climb_loop intermediate r.end_index 130 from) [
        | none ↦ panic
        | some c ↦
            if r.end_index == 0
            then ok (record r { anchor = r.start; entries = c.entries })
            else (let (anchor, more) = pending_loop c.height state.pending 0 false none in
                ok (record r { anchor = anchor; entries = c.entries ++ more }))
      ]

  module _ (mark_power : ℕ) where
    -- `BuildReceipt`. The error of `GetAnyState` is dropped there, and its nil state is then a panic.
    unfoldable pub build_receipt : Chain → Receipt → Outcome Receipt
    unfolding build_receipt_with
    build_receipt c r = elim (get_any_state sum mark_power c (r.end_index + 1)) [
      | ok state ↦ build_receipt_with (chain_intermediate sum mark_power c) (trim state) r
      | err e ↦ panic
      | panic ↦ panic
    ]

    -- `GetReceipt` of two hashes that are not nil.
    unfoldable pub get_receipt : Chain → Bytes → Bytes → Outcome Receipt
    unfolding build_receipt
    get_receipt c element anchor = elim (c.element_index element) [
      | none ↦ err "not found"
      | some start ↦ elim (c.element_index anchor) [
        | none ↦ err "not found"
        | some end ↦
            let r : Receipt = record {
              start = some element;
              start_index = start;
              end = some anchor;
              end_index = end;
              anchor = none;
              entries = [];
            } in
            if ltb end start || ltb c.head.count start
            then err "invalid indexes for the element %d and anchor %d"
            else if start == 0 && end == 0
            then ok (record r { anchor = some element })
            else build_receipt c r
      ]
    ]
