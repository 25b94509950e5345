-- ===== src/Bpt/BlankRuns.antt =====
-- Runs of the Patricia tree with two nodes above height 254, which share the blank key.
use accumulate.Common.{◌≡◌, refl, [], ◌∷◌, ◌++◌, ℕ, Bool, true, false, replicate}
use accumulate.Common.Outcome.{Outcome, ok, err, panic}
use accumulate.Common.Bytes.{Bytes, equal_bytes}
use accumulate.Bpt.{Entry, new_root, insert, get_node_key}
use accumulate.Bpt.Dirty.{insert_tracked}
use accumulate.Bpt.Update.{update}
use accumulate.Bpt.Update.Summary.{or_zeros, summary}
use accumulate.Bpt.History.{insert_value, update_hashes, run}

abbrev plain_sum : Bytes → Bytes
plain_sum b = b

abbrev key : ℕ → Bytes
key n = replicate 32 n

-- Two pairs of keys that agree in all but the last bit: the nodes above them have the blank key.
abbrev last_byte : ℕ → ℕ → Bytes
last_byte first last = first ∷ (replicate 30 0 ++ last ∷ [])

-- Whether the root hash that an update computes is the one of the values.
abbrev is_right : Outcome Entry → Bool
is_right (ok e) = elim (update plain_sum e) [
  | ok (root, hash) ↦ equal_bytes hash (or_zeros (summary plain_sum e))
  | err s ↦ false
  | panic ↦ false
]
is_right (err s) = false
is_right panic = false

-- The second pair takes the place of the first in the DirtyMap, where no update comes between.
blank_keys_run :
    (is_right (
        run plain_sum
          (insert_value (last_byte 0 0) (key 1)
            ∷ insert_value (last_byte 0 1) (key 2)
            ∷ insert_value (last_byte 128 0) (key 3)
            ∷ insert_value (last_byte 128 1) (key 4)
            ∷ [])
          new_root)
      ≡ false)
    × (is_right (
          run plain_sum
            (insert_value (last_byte 0 0) (key 1)
              ∷ insert_value (last_byte 0 1) (key 2)
              ∷ update_hashes
              ∷ insert_value (last_byte 128 0) (key 3)
              ∷ insert_value (last_byte 128 1) (key 4)
              ∷ [])
            new_root)
        ≡ true)
unfolding run update summary insert_tracked insert new_root equal_bytes get_node_key
blank_keys_run = (refl, refl)
