-- ===== src/Merkle/ReceiptList.antt =====
-- smt/managed/receiptlist.go: a proof that a run of elements stands in a chain in this order.
pub mod Walked
pub mod Built
pub mod Binds
use accumulate.Common.{
  ℕ, zero, suc, ◌+◌, ◌-◌, List, [], ◌∷◌, Option, none, some, Bool, true, false, not, ◌==◌, ltb, leb,
  if◌then◌else◌, length,
}
use accumulate.Common.Outcome.{Outcome, ok, err, ◌>>=◌}
use accumulate.Common.Bytes.{Bytes}
use accumulate.Merkle.Hash.{Hash, bytes, equal}
use accumulate.Merkle.State.{MerkleState, add_to_merkle_tree, get_md_root}
use accumulate.Merkle.Receipt.{Receipt, validate}
use accumulate.Merkle.Manager.{Chain, get_any_state}
use accumulate.Merkle.Building.{get_receipt}

pub record ReceiptList : Type 0 where
  pub merkle_state : Option MerkleState
  pub elements : List Hash
  pub receipt : Option Receipt
  pub continued_receipt : Option Receipt

unfoldable pub last_element : List Hash → Hash
last_element [] = none
last_element (h ∷ []) = h
last_element (h ∷ g ∷ hs) = last_element (g ∷ hs)

-- `Included`
unfoldable pub included : List Hash → Hash → Bool
included [] entry = false
included (h ∷ hs) entry = let rest = included hs entry in if equal h entry then true else rest

module _ (sum : Bytes → Bytes) where
  -- The loop of `Validate` over the elements; `none` is where it returns false.
  unfoldable pub walk_elements : MerkleState → List Hash → Option MerkleState
  walk_elements ms [] = some ms
  walk_elements ms (none ∷ hs) = none
  walk_elements ms (some h ∷ hs) =
      let rest = walk_elements (add_to_merkle_tree sum ms (some h)) hs in
      if length h == 32 then rest else none

  unfoldable pub continues : Hash → Option Receipt → Bool
  continues anchor none = true
  continues anchor (some r) = if not (equal anchor r.start) then false else validate sum r

  -- `Validate` from `GetMDRoot` on.
  unfoldable pub check_anchor : Hash → Hash → Receipt → Option Receipt → Bool
  unfolding continues
  check_anchor anchor last receipt continued =
      if length (bytes anchor) == 0
      then false
      else if not (equal last receipt.start)
      then false
      else if not (equal receipt.anchor anchor)
      then false
      else if not (validate sum receipt)
      then false
      else continues anchor continued

  unfoldable pub check_elements : MerkleState → List Hash → Receipt → Option Receipt → Bool
  unfolding check_anchor walk_elements last_element
  check_elements ms [] receipt continued = false
  check_elements ms (h ∷ hs) receipt continued = elim (walk_elements ms (h ∷ hs)) [
    | none ↦ false
    | some after ↦ check_anchor (get_md_root sum after) (last_element (h ∷ hs)) receipt continued
  ]

  -- `Validate`
  unfoldable pub validate_list : ReceiptList → Bool
  unfolding check_elements
  validate_list r = elim r.merkle_state [
    | none ↦ false
    | some ms ↦ elim r.receipt [
      | none ↦ false
      | some receipt ↦ check_elements ms r.elements receipt r.continued_receipt
    ]
  ]

  module _ (mark_power : ℕ) where
    -- The loop of `GetReceiptList` over `n` elements from `i` on.
    unfoldable pub get_elements : Chain → ℕ → ℕ → Outcome (List Hash)
    get_elements c i zero = ok []
    get_elements c i (suc n) = elim (c.element i) [
      | none ↦ err "not found"
      | some h ↦ get_elements c (i + 1) n >>= λ hs. ok (some h ∷ hs)
    ]

    -- `GetReceiptList`, from a start of 0 on.
    unfoldable pub get_receipt_list : Chain → ℕ → ℕ → Outcome ReceiptList
    unfolding get_elements last_element
    get_receipt_list c start end =
        if ltb end start
        then err "start %d and end %d is invalid for ReceiptList"
        else if leb c.head.count end
        then err "end %d is out of range for SMT length %d"
        else (get_elements c start (end + 1 - start) >>= λ elements.
            get_any_state sum mark_power c start >>= λ ms.
            let last = bytes (last_element elements) in
            get_receipt sum mark_power c last last >>= λ receipt. ok (record {
              merkle_state = some ms;
              elements = elements;
              receipt = some receipt;
              continued_receipt = none;
            }))
