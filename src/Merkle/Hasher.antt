-- ===== src/Merkle/Hasher.antt =====
-- internal/encoding/hash/hasher.go: `Receipt` of a list of hashes, with its `getIntermediate`. Both use
-- smt/managed.
pub mod Limited
pub mod Received
pub mod Valid
use accumulate.Common.{
  ℕ, zero, suc, ◌-◌, ◌%◌, List, [], ◌∷◌, ◌++◌, Option, none, some, not, ◌||◌, ◌==◌, ltb, leb,
  if◌then◌else◌, length, take, get_elem?, replicate,
}
use accumulate.Common.Outcome.{Outcome, ok, err, panic, ◌>>=◌}
use accumulate.Common.Bytes.{Bytes}
use accumulate.Merkle.Hash.{Hash, bytes, combine, sha256}
use accumulate.Merkle.State.{empty, add_all, pad_pending}
use accumulate.Merkle.Receipt.{Receipt}
use accumulate.Merkle.Cascade.{merkle_cascade}
use accumulate.Merkle.Building.{build_receipt_with}

-- `copy` to 32 new bytes.
unfoldable pub to_32 : Bytes → Bytes
to_32 b = take 32 (b ++ replicate 32 0)

-- An element, where the index is in range.
abbrev pub hash_at : List Hash → ℕ → Hash
hash_at [] i = none
hash_at (h ∷ hs) zero = h
hash_at (h ∷ hs) (suc i) = hash_at hs i

unfoldable pub copy_left : Hash × Hash → Outcome (Hash × Hash)
unfolding to_32
copy_left (left, right) = ok (some (to_32 (bytes left)), right)

module _ (sum : Bytes → Bytes) where
  -- The loop of `getIntermediate` over the slots below the height.
  unfoldable pub combine_up : List Hash → Hash → Outcome Hash
  combine_up [] right = ok right
  combine_up (none ∷ vs) right = err "should not encounter a nil at height %d"
  combine_up (some v ∷ vs) right = combine_up vs (combine (sha256 sum) (some v) right)

  -- `getIntermediate` from the cascade on. Slot -1 of height 0 is a panic.
  unfoldable pub column : List Hash → ℕ → Hash → Outcome (Hash × Hash)
  unfolding combine_up
  column cascade zero right = panic
  column cascade (suc d) right =
      if ltb (length cascade) (suc d)
      then err "no values found at height %d"
      else elim (hash_at cascade d) [
        | none ↦ err "nil at height %d"
        | some left ↦ combine_up (take d cascade) right >>= λ up. ok (some left, up)
      ]

  -- `getIntermediate` up to `h[element]`, which is a panic, where the element is the length of `h`.
  unfoldable pub missing_element : List Hash → ℕ → Outcome (Hash × Hash)
  missing_element cascade zero = panic
  missing_element cascade (suc d) =
      if ltb (length cascade) (suc d)
      then err "no values found at height %d"
      else elim (hash_at cascade d) [ none ↦ err "nil at height %d" | some left ↦ panic ]

  -- `getIntermediate`; `h[:element]` past the length is a panic here.
  unfoldable pub hasher_intermediate : List Hash → ℕ → ℕ → Outcome (Hash × Hash)
  unfolding column to_32 copy_left missing_element
  hasher_intermediate h element height =
      if not (element % 2 == 1)
      then err "element is not odd"
      else if leb (length h) element
      then (if element == length h
          then missing_element (merkle_cascade sum [] h (some height)) height
          else panic)
      else (column (merkle_cascade sum [] (take element h) (some height)) height
            (some (to_32 (bytes (hash_at h element))))
          >>= copy_left)

  -- `Receipt` for indices from 0 on; `none` is nil.
  unfoldable pub hasher_receipt : List Hash → ℕ → ℕ → Outcome (Option Receipt)
  unfolding hasher_intermediate
  hasher_receipt h start anchor =
      let first : Receipt = record {
        start = hash_at h 0;
        start_index = 0;
        end = hash_at h 0;
        end_index = 0;
        anchor = hash_at h 0;
        entries = [];
      } in
      let r : Receipt = record {
        start = hash_at h start;
        start_index = start;
        end = none;
        end_index = anchor;
        anchor = hash_at h start;
        entries = [];
      } in
      let state = pad_pending (add_all sum empty (take (suc anchor) h)) in
      if leb (length h) start || leb (length h) anchor
      then ok none
      else if length h == 1
      then ok (some first)
      else elim (build_receipt_with sum (hasher_intermediate h) state r) [
        | ok r' ↦ ok (some r')
        | err e ↦ panic
        | panic ↦ panic
      ]
