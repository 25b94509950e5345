-- ===== src/Bpt/Update.antt =====
-- smt/pmt/bpt.go: `Update` without a database, which computes the hashes of the nodes that are dirty,
-- height by height. `sum` is SHA-256.
pub mod Summary
pub mod Tops
pub mod Passes
pub mod Loop
pub mod Marks
use accumulate.Common.{
  ℕ, zero, suc, ◌+◌, ◌++◌, Option, none, some, Bool, true, false, ◌||◌, ◌==◌, ltb, if◌then◌else◌,
}
use accumulate.Common.Outcome.{Outcome, ok, panic, ◌>>=◌}
use accumulate.Common.Bytes.{Bytes}
use accumulate.Merkle.Hash.{Hash}
use accumulate.Bpt.{BptNode, Entry, nil, value, node, set_dirty, zeros}

-- `GetHash` of an entry.
unfoldable pub get_hash : Entry → Hash
get_hash nil = none
get_hash (value k h) = some h
get_hash (node n l r) = some n.hash

abbrev pub larger : ℕ → ℕ → ℕ
larger a b = if ltb a b then b else a

-- One more than the height of the highest dirty node, with which the list of `GetDirtyList` starts; 0
-- if no node is dirty.
unfoldable pub dirty_top : Entry → ℕ
dirty_top nil = 0
dirty_top (value k h) = 0
dirty_top (node n l r) =
    larger (if n.dirty then n.height + 1 else 0) (larger (dirty_top l) (dirty_top r))

-- The hash of the root, which is a node.
abbrev pub root_hash_of : Entry → Bytes
root_hash_of nil = zeros
root_hash_of (value k h) = zeros
root_hash_of (node n l r) = n.hash

module _ (sum : Bytes → Bytes) where
  -- The four cases of `GetNodeHash`.
  unfoldable pub hash_children : Hash → Hash → Outcome Bytes
  hash_children none none = panic
  hash_children none (some right) = ok right
  hash_children (some left) none = ok left
  hash_children (some left) (some right) = ok (sum (left ++ right))

  -- `GetNodeHash` and `Clean` of a node.
  unfoldable pub refresh : BptNode → Entry → Entry → Outcome Entry
  unfolding hash_children get_hash
  refresh n l r = hash_children (get_hash l) (get_hash r) >>= λ hash.
      ok (node (record n { hash = hash; dirty = false }) l r)

  -- The round of `Update` for a height. It tells if the entry was a dirty node of that height, so that
  -- its parent is now dirty.
  unfoldable pub update_height : ℕ → Entry → Outcome (Entry × Bool)
  unfolding refresh
  update_height h nil = ok (nil, false)
  update_height h (value k x) = ok (value k x, false)
  update_height h (node n l r) =
      let below = update_height h l >>= λ (l', from_left). update_height h r >>= λ (r', from_right).
      ok (node (set_dirty (from_left || from_right) n) l' r', false) in
      if n.height == h
      then (if n.dirty then (refresh n l r >>= λ e. ok (e, true)) else ok (node n l r, false))
      else below

  -- The loop of `Update`, with a bound on its rounds that is never met.
  unfoldable pub update_loop : ℕ → Entry → Outcome Entry
  unfolding update_height dirty_top
  update_loop zero e = panic
  update_loop (suc rounds) e = elim (dirty_top e) [
    | zero ↦ ok e
    | suc h ↦ update_height h e >>= λ (e', _). update_loop rounds e'
  ]

  -- `Update`: the tree and its RootHash.
  unfoldable pub update : Entry → Outcome (Entry × Bytes)
  unfolding update_loop
  update root = update_loop 257 root >>= λ e. ok (e, root_hash_of e)
