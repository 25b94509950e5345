-- ===== src/Bpt/Receipt.antt =====
-- smt/pmt/bpt_receipt.go: a receipt from a value to the root hash, in a tree whose nodes are loaded.
pub mod Collected
pub mod Valid
use accumulate.Common.{
  ℕ, ◌+◌, ◌/◌, ◌%◌, List, [], ◌∷◌, ◌++◌, Option, none, some, Bool, true, false, ◌==◌, leb,
  if◌then◌else◌,
}
use accumulate.Common.Outcome.{Outcome, ok, panic, ◌>>=◌}
use accumulate.Common.Bytes.{Bytes, equal_bytes}
use accumulate.Merkle.Receipt.{Receipt, ReceiptEntry}
use accumulate.Bpt.{BptNode, Entry, nil, value, node, byte_at}
use accumulate.Bpt.Update.{get_hash, root_hash_of}

-- The next bit of the key: a byte's index and a mask.
unfoldable pub next_bit : ℕ → ℕ → ℕ × ℕ
next_bit b_idx bit = let half = bit / 2 in if half == 0 then (b_idx + 1, 128) else (b_idx, half)

-- The entry of a receipt for the other child, if there is one.
unfoldable pub sibling : Entry → Bool → List ReceiptEntry
unfolding get_hash
sibling nil right = []
sibling (value k h) right = record { right = right; hash = get_hash (value k h) } ∷ []
sibling (node n l r) right = record { right = right; hash = get_hash (node n l r) } ∷ []

-- What was found below, with the other child's hash behind it.
unfoldable pub add_sibling :
    Entry → Bool → Option (Bytes × List ReceiptEntry) → Option (Bytes × List ReceiptEntry)
unfolding sibling
add_sibling other right none = none
add_sibling other right (some (start, entries)) = some (start, entries ++ sibling other right)

-- `CollectReceipt` of an entry: the Start and the Entries that it puts in the receipt, or nothing for a
-- nil. The hash that it returns is that of the node.
unfoldable pub collect_receipt :
    ℕ → ℕ → Entry → Bytes → Outcome (Option (Bytes × List ReceiptEntry))
unfolding next_bit add_sibling
collect_receipt b_idx bit nil key = ok none
collect_receipt b_idx bit (value k h) key = if equal_bytes k key then ok (some (h, [])) else ok none
collect_receipt b_idx bit (node n l r) key =
    let (i, b) = next_bit b_idx bit in
    let to_left = collect_receipt i b l key >>= λ c. ok (add_sibling r true c) in
    let to_right = collect_receipt i b r key >>= λ c. ok (add_sibling l false c) in
    if leb 32 b_idx then panic else if (byte_at key b_idx / bit) % 2 == 0 then to_right else to_left

unfoldable pub receipt_of : Bytes → Option (Bytes × List ReceiptEntry) → Option Receipt
receipt_of anchor none = none
receipt_of anchor (some (start, entries)) = some (record {
  start = some start;
  start_index = 0;
  end = none;
  end_index = 0;
  anchor = some anchor;
  entries = entries;
})

-- `GetReceipt`
unfoldable pub get_receipt : Entry → Bytes → Outcome (Option Receipt)
unfolding collect_receipt receipt_of
get_receipt root key = collect_receipt 0 128 root key >>= λ c. ok (receipt_of (root_hash_of root) c)
