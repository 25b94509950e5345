-- ===== src/Bpt.antt =====
-- smt/pmt/bpt.go, node.go and value.go: a binary Patricia tree whose nodes are all loaded. An array
-- of 32 bytes is a list. A pointer to a parent is the place in the tree.
pub mod Keys
pub mod Trie
pub mod Canonical
pub mod Writes
pub mod Inserted
pub mod Dirty
pub mod Lookup
pub mod Update
pub mod History
pub mod Range
pub mod Receipt
mod Runs
mod BlankRuns
use accumulate.Common.{
  ℕ, zero, suc, ◌+◌, ◌-◌, ◌*◌, ◌/◌, ◌%◌, ◌^◌, [], ◌∷◌, ◌++◌, Option, none, some, Bool, true, false,
  ◌==◌, ltb, if◌then◌else◌, take, replicate,
}
use accumulate.Common.Outcome.{Outcome, ok, panic, ◌>>=◌}
use accumulate.Common.Bytes.{Bytes, equal_bytes}

-- A BptNode without its children. `dirty` tells if the node is in the DirtyMap, whose keys are those of
-- the nodes. They are different up to height 254; `Dirty` has what the map does with the others.
pub record BptNode : Type 0 where
  pub height : ℕ
  pub node_key : Bytes
  pub hash : Bytes
  pub dirty : Bool

pub data Entry : Type 0 where
  nil : Entry
  value : Bytes → Bytes → Entry
  node : BptNode → Entry → Entry → Entry

abbrev pub zeros : Bytes
zeros = replicate 32 0

-- A byte of a key.
abbrev pub byte_at : Bytes → ℕ → ℕ
byte_at [] i = 0
byte_at (x ∷ xs) zero = x
byte_at (x ∷ xs) (suc i) = byte_at xs i

-- `bit & key[BIdx] != 0` for the bit that a node of the height looks at: the way is to the left.
unfoldable pub goes_left : Bytes → ℕ → Bool
goes_left key height = (byte_at key (height / 8) / 2 ^ (7 - height % 8)) % 2 == 1

-- The last byte of a node's key: the bits of the height, then a bit that is set.
unfoldable pub end_bit : ℕ → ℕ → ℕ
end_bit byte bits = let last = byte / 2 ^ (7 - bits) in (last + 1 - last % 2) * 2 ^ (7 - bits)

-- `GetNodeKey`
unfoldable pub get_node_key : ℕ → Bytes → Bytes × Bool
unfolding end_bit
get_node_key height key = if ltb 254 height then (zeros, false) else (
  take (height / 8) key
      ++ end_bit (byte_at key (height / 8)) (height % 8) ∷ replicate (31 - height / 8) 0,
  true,
)

-- `NewNode`, with no children. MaxHeight is left out: it is a record of what was seen, and no
-- operation here reads it.
unfoldable pub new_node : Bytes → ℕ → BptNode
unfolding get_node_key
new_node key parent_height = record {
  height = parent_height + 1;
  node_key = (get_node_key (parent_height + 1) key).0;
  hash = zeros;
  dirty = false;
}

-- `Dirty` of a node with a key of its own.
unfoldable pub mark_dirty : BptNode → BptNode
mark_dirty n = record n { dirty = true }

-- The entry of a node on the way of a key, and the node with this entry replaced.
abbrev pub pick : Bool → Entry → Entry → Entry
pick true left right = left
pick false left right = right

abbrev pub put_back : Bool → BptNode → Entry → Entry → Entry → Entry
put_back true n left right e = node n e right
put_back false n left right e = node n left e

-- The cases of `insertAtNode` for the entry: the new entry, and whether the node is now dirty.
-- `insert` is the recursive call.
unfoldable pub insert_entry :
    (Entry → Bytes → Bytes → Outcome Entry) → ℕ → Entry → Bytes → Bytes → Outcome (Entry × Bool)
unfolding new_node
insert_entry insert height nil key hash = ok (value key hash, true)
insert_entry insert height (node n l r) key hash =
    insert (node n l r) key hash >>= λ e. ok (e, false)
insert_entry insert height (value k h) key hash =
    if equal_bytes key k
    then (if equal_bytes h hash then ok (value k h, false) else ok (value k hash, true))
    else insert (node (new_node key height) nil nil) key hash >>= λ e.
        insert e k h >>= λ e'. ok (e', false)

abbrev pub set_dirty : Bool → BptNode → BptNode
unfolding mark_dirty
set_dirty true n = mark_dirty n
set_dirty false n = n

-- `insertAtNode` with the number of bits that are left. With none left the byte of the key is out
-- of range, and so is an entry that is no node.
unfoldable pub insert_at_node : ℕ → Entry → Bytes → Bytes → Outcome Entry
unfolding insert_entry goes_left mark_dirty
insert_at_node zero e key hash = panic
insert_at_node (suc bits) nil key hash = panic
insert_at_node (suc bits) (value k h) key hash = panic
insert_at_node (suc bits) (node n l r) key hash =
    let left = goes_left key n.height in
    insert_entry (insert_at_node bits) n.height (pick left l r) key hash >>= λ (e, dirty).
    ok (put_back left (set_dirty dirty n) l r e)

-- `Insert` at the root, of height 0, where no two nodes have one key.
unfoldable pub insert : Entry → Bytes → Bytes → Outcome Entry
unfolding insert_at_node
insert root key hash = insert_at_node 256 root key hash

-- The root of `NewBPT`.
unfoldable pub new_root : Entry
unfolding get_node_key
new_root =
    node (record { height = 0; node_key = (get_node_key 0 zeros).0; hash = zeros; dirty = false })
      nil nil

-- `Get`: the highest node on the way, the entry there if it is a value, and whether it is the key's.
unfoldable pub get_entry :
    (Entry → Outcome (Entry × Option Entry × Bool))
    → Entry
    → Entry
    → Bytes
    → Outcome (Entry × Option Entry × Bool)
get_entry get highest nil key = ok (highest, none, false)
get_entry get highest (node n l r) key = get (node n l r)
get_entry get highest (value k h) key = ok (highest, some (value k h), equal_bytes k key)

unfoldable pub get_at_node : ℕ → Bytes → Entry → Outcome (Entry × Option Entry × Bool)
unfolding get_entry goes_left
get_at_node zero key e = panic
get_at_node (suc bits) key nil = panic
get_at_node (suc bits) key (value k h) = panic
get_at_node (suc bits) key (node n l r) =
    get_entry (get_at_node bits key) (node n l r) (pick (goes_left key n.height) l r) key

unfoldable pub get : Entry → Bytes → Outcome (Entry × Option Entry × Bool)
unfolding get_at_node
get root key = get_at_node 256 key root
