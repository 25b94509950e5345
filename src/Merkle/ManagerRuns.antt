-- ===== src/Merkle/ManagerRuns.antt =====
-- Runs of the chain of hashes on three elements, with a mark after every second one.
use accumulate.Common.{ℕ, ◌+◌, ◌*◌, ◌%◌, ◌≤◌, ◌<◌, ◌≡◌, ◌⊎◌, List, [], ◌∷◌, some, none}
use accumulate.Common.{true, false, arith, length, take, suc}
use accumulate.Common.Outcome.{ok, err}
use accumulate.Common.Bytes.{Bytes, equal_bytes}
use accumulate.Merkle.State.{empty, add_to_merkle_tree}
use accumulate.Merkle.Manager.{Chain, new_chain, add_hash, get_any_state}
use accumulate.Merkle.Manager.Holds.{Holds, state_at, first_index}
use accumulate.Merkle.Manager.Adding.{added, add_hash-Holds, new_chain-Holds}
use accumulate.Merkle.Manager.AnyState.{get_any_state-state_at}
use accumulate.Merkle.Receipt.{Receipt}
use accumulate.Merkle.Building.{get_receipt}
use accumulate.Merkle.Building.Complete.{Receives}
use accumulate.Merkle.Building.Received.{begun, get_receipt-Receives}

abbrev add_bytes : Bytes → ℕ
add_bytes [] = 7
add_bytes (b ∷ bs) = (b + 3 * add_bytes bs) % 256

-- A toy digest of one byte.
abbrev digest : Bytes → Bytes
digest b = add_bytes b ∷ []

abbrev three : List Bytes
three = (1 ∷ []) ∷ (2 ∷ []) ∷ (3 ∷ []) ∷ []

-- The first hash is added again at the end, as a unique one.
unfoldable filled : Chain
filled =
    let one = add_hash digest 1 new_chain (1 ∷ []) false in
    let two = add_hash digest 1 one (2 ∷ []) true in
    let all = add_hash digest 1 two (3 ∷ []) false in add_hash digest 1 all (1 ∷ []) true

filled-Holds : Holds digest 1 filled three
unfolding filled added first_index equal_bytes
filled-Holds =
    let step = add_hash-Holds digest 1 (omega arith) in
    step _ three (1 ∷ []) true (omega arith) (
      step _ ((1 ∷ []) ∷ (2 ∷ []) ∷ []) (3 ∷ []) false (omega arith) (
        step _ ((1 ∷ []) ∷ []) (2 ∷ []) true (omega arith) (
          step new_chain [] (1 ∷ []) false (omega arith) (new_chain-Holds digest 1 (omega arith)))))

add_hash-Holds_example :
    Holds digest 1 (add_hash digest 1 new_chain (1 ∷ []) true) (added true (1 ∷ []) [])
add_hash-Holds_example =
    add_hash-Holds digest 1 (omega arith) new_chain [] (1 ∷ []) true (omega arith)
      (new_chain-Holds digest 1 (omega arith))

get_any_state-state_at_example :
    (get_any_state digest 1 filled 0 ≡ ok empty)
    × ((e : ℕ)
        → e < length three
        → get_any_state digest 1 filled (suc e) ≡ ok (state_at digest 1 (take (suc e) three)))
    × ((e : ℕ)
        → 0 < length three
        → length three ≤ e
        → get_any_state digest 1 filled (suc e) ≡ err "element out of range")
    × ((e : ℕ)
        → three ≡ []
        → get_any_state digest 1 filled (suc e) ≡ ok (add_to_merkle_tree digest empty none))
get_any_state-state_at_example =
    get_any_state-state_at digest 1 filled three (omega arith) (omega arith) filled-Holds

get_receipt-Receives_example :
    ((s e : ℕ)
      → first_index (1 ∷ []) three ≡ some s
      → first_index (3 ∷ []) three ≡ some e
      → (s ≤ e
          → (r : Receipt) × (get_receipt digest 1 filled (1 ∷ []) (3 ∷ []) ≡ ok r)
            × Receives digest 1 three (begun (1 ∷ []) (3 ∷ []) s e) r)
        × (e < s
            → get_receipt digest 1 filled (1 ∷ []) (3 ∷ [])
              ≡ err "invalid indexes for the element %d and anchor %d"))
    × ((first_index (1 ∷ []) three ≡ none) ⊎ (first_index (3 ∷ []) three ≡ none)
        → get_receipt digest 1 filled (1 ∷ []) (3 ∷ []) ≡ err "not found")
get_receipt-Receives_example =
    get_receipt-Receives digest 1 filled three (1 ∷ []) (3 ∷ []) (omega arith) (omega arith)
      filled-Holds
