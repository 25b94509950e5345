-- ===== src/Merkle/ListRuns.antt =====
-- Runs of receipt lists and of a hasher's receipts, on 32-byte hashes.
use accumulate.Common.{
  ℕ, ◌+◌, ◌*◌, ◌%◌, ◌≡◌, ◌⊎◌, refl, List, [], ◌∷◌, ◌++◌, map, Bool, true, false, none, some, length,
  replicate, arith,
}
use accumulate.Common.Outcome.{ok, err, panic}
use accumulate.Common.Bytes.{Bytes, equal_bytes}
use accumulate.Merkle.State.{empty, pad_pending, add_all, add_to_merkle_tree, get_md_root}
use accumulate.Merkle.Binding.{Collision}
use accumulate.Merkle.Receipt.{Receipt, validate}
use accumulate.Merkle.Manager.{
  Chain, new_chain, add_hash, append_hash, put_index, put_at, get_any_state, get_state,
  compute_state, previous_mark, next_mark, replay,
}
use accumulate.Merkle.Building.{get_receipt, build_receipt_with}
use accumulate.Merkle.Manager.Holds.{Holds, first_index}
use accumulate.Merkle.Manager.Adding.{added, add_hash-Holds, new_chain-Holds}
use accumulate.Merkle.ReceiptList.{ReceiptList, validate_list, included, get_receipt_list}
use accumulate.Merkle.Hasher.{hasher_receipt}
use accumulate.Merkle.Hasher.Valid.{Shows, hasher_receipt-Shows}
use accumulate.Merkle.ReceiptList.Built.{Lists, get_receipt_list-Lists}
use accumulate.Merkle.ReceiptList.Binds.{validate_list-binds}

abbrev add_bytes : Bytes → ℕ
add_bytes [] = 7
add_bytes (b ∷ bs) = (b + 3 * add_bytes bs) % 256

-- A toy digest of 32 bytes.
abbrev digest : Bytes → Bytes
digest b = replicate 32 (add_bytes b)

digest_size : (b : Bytes) → length (digest b) ≡ 32
digest_size b = refl

abbrev hash : ℕ → Bytes
hash n = replicate 32 n

abbrev two : List Bytes
two = hash 1 ∷ hash 2 ∷ []

unfoldable filled : Chain
filled = add_hash digest 1 (add_hash digest 1 new_chain (hash 1) false) (hash 2) false

filled-Holds : Holds digest 1 filled two
unfolding filled added first_index equal_bytes
filled-Holds = add_hash-Holds digest 1 (omega arith) _ (hash 1 ∷ []) (hash 2) false (omega arith) (
    add_hash-Holds digest 1 (omega arith) new_chain [] (hash 1) false (omega arith)
      (new_chain-Holds digest 1 (omega arith)))

second_index : first_index (hash 2) two ≡ some 1
unfolding first_index equal_bytes
second_index = refl

get_receipt_list-Lists_example :
    (l : ReceiptList) × (get_receipt_list digest 1 filled 0 1 ≡ ok l)
    × Lists digest two 0 1 (hash 2) l
get_receipt_list-Lists_example =
    get_receipt_list-Lists digest 1 filled two 0 1 (hash 2) (omega arith) (omega arith) filled-Holds
      digest_size (refl, (refl, tt)) (omega arith) refl second_index

-- Whether the list from `start` to `end` is made and accepted.
abbrev accepts : Chain → ℕ → ℕ → Bool
accepts c start end = elim (get_receipt_list digest 1 c start end) [
  | ok l ↦ validate_list digest l
  | err e ↦ false
  | panic ↦ false
]

-- The last element stands at the start already: its receipt ends at the root there, and the list is not
-- accepted.
unfoldable repeated : Chain
unfolding filled
repeated = add_hash digest 1 filled (hash 1) false

refused_repeat : accepts repeated 1 2 ≡ false
unfolding get_receipt_list validate_list repeated equal_bytes add_hash append_hash put_index
    add_to_merkle_tree put_at get_any_state get_state compute_state previous_mark next_mark
    get_receipt get_md_root replay
refused_repeat = refl

is_included : included (map some two) (some (hash 2)) ≡ true
unfolding included equal_bytes
is_included = refl

abbrev first_receipt : Receipt
first_receipt = record {
  start = some (hash 1);
  start_index = 0;
  end = some (hash 1);
  end_index = 0;
  anchor = some (hash 1);
  entries = [];
}

-- A list of the first element.
abbrev first_list : ReceiptList
first_list = record {
  merkle_state = some empty;
  elements = some (hash 1) ∷ [];
  receipt = some first_receipt;
  continued_receipt = none;
}

first_accepted : validate_list digest first_list ≡ true
unfolding validate_list validate get_md_root equal_bytes add_to_merkle_tree
first_accepted = refl

validate_list-binds_example :
    (map some (hash 1 ∷ []) ≡ map some [] ++ first_list.elements) ⊎ Collision digest
validate_list-binds_example =
    validate_list-binds digest first_list empty first_receipt [] (hash 1 ∷ []) digest_size refl refl
      refl (unfold add_all in refl) tt (refl, tt) (omega arith) (omega arith)
      (unfold get_md_root add_all add_to_merkle_tree in refl) first_accepted

hasher_receipt-Shows_example :
    (r : Receipt) × (hasher_receipt digest (map some two) 0 1 ≡ ok (some r))
    × Shows digest two 0 1 r
hasher_receipt-Shows_example =
    hasher_receipt-Shows digest two 0 1 digest_size (refl, (refl, tt)) (omega arith) (omega arith)
      (omega arith)

-- Whether the receipt is made and valid.
abbrev proves : ℕ → ℕ → Bool
proves start anchor =
    elim (hasher_receipt digest (map some (hash 1 ∷ hash 2 ∷ hash 3 ∷ [])) start anchor) [
      | ok (some r) ↦ validate digest r
      | ok none ↦ true
      | err e ↦ true
      | panic ↦ true
    ]

-- An anchor before the element is not refused, and the receipt is not valid.
reversed : proves 2 1 ≡ false
unfolding hasher_receipt validate get_md_root add_all add_to_merkle_tree equal_bytes
    build_receipt_with pad_pending
reversed = refl
