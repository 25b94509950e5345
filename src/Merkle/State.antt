-- ===== src/Merkle/State.antt =====
-- smt/managed/merklestate.go: the pending roots of the left edge, like a binary counter.
-- `sum` is sha256.Sum256 of the standard library. Pending's slots may be nil.
use accumulate.Common.{ℕ, ◌+◌, ◌%◌, ◌^◌, List, [], ◌∷◌, ◌++◌, Option, none, some}
use accumulate.Common.{◌==◌, if◌then◌else◌}
use accumulate.Common.Bytes.{Bytes}
use accumulate.Merkle.Hash.{Hash, combine, sha256}

-- `Count` is an int64, kept as its bit pattern.
pub record MerkleState : Type 0 where
  pub count : ℕ
  pub pending : List Hash
  pub hash_list : List Hash

-- new(MerkleState)
abbrev pub empty : MerkleState
empty = record { count = 0; pending = []; hash_list = [] }

-- `PadPending` and `Pad` on the slice: a nil is appended unless the last slot is nil already.
unfoldable pub pad_list : {A : Type 0} → List (Option A) → List (Option A)
pad_list [] = none ∷ []
pad_list (none ∷ []) = none ∷ []
pad_list (some v ∷ []) = some v ∷ none ∷ []
pad_list (p ∷ q ∷ ps) = p ∷ pad_list (q ∷ ps)

unfoldable pub pad_pending : MerkleState → MerkleState
unfolding pad_list
pad_pending m = record m { pending = pad_list m.pending }

-- A nil is kept only in front of something.
unfoldable pub keep_nil : List Hash → List Hash
keep_nil [] = []
keep_nil (q ∷ qs) = none ∷ q ∷ qs

-- `Trim`: trailing nils are dropped, from the end.
unfoldable pub trim_list : List Hash → List Hash
unfolding keep_nil
trim_list [] = []
trim_list (none ∷ ps) = keep_nil (trim_list ps)
trim_list (some v ∷ ps) = some v ∷ trim_list ps

unfoldable pub trim : MerkleState → MerkleState
unfolding trim_list
trim m = record m { pending = trim_list m.pending }

module _ (sum : Bytes → Bytes) where
  -- The loop of `AddToMerkleTree` over Pending: the first nil slot takes the hash; a full slot is
  -- combined on the left, cleared, and carries to the next.
  unfoldable pub carry : List Hash → Hash → List Hash
  carry [] hash = []
  carry (none ∷ ps) hash = hash ∷ ps
  carry (some v ∷ ps) hash = none ∷ carry ps (combine (sha256 sum) (some v) hash)

  -- `AddToMerkleTree`
  unfoldable pub add_to_merkle_tree : MerkleState → Hash → MerkleState
  unfolding carry pad_list
  add_to_merkle_tree m hash = record {
    count = (m.count + 1) % 2 ^ 64;
    pending = carry (pad_list m.pending) hash;
    hash_list = m.hash_list ++ hash ∷ [];
  }

  -- The loop of `GetMDRoot`.
  unfoldable pub fold_root : List Hash → Hash → Hash
  fold_root [] root = root
  fold_root (v ∷ ps) none = fold_root ps v
  fold_root (none ∷ ps) (some r) = fold_root ps (some r)
  fold_root (some v ∷ ps) (some r) = fold_root ps (combine (sha256 sum) (some v) (some r))

  -- `GetMDRoot`: nil for the empty state.
  unfoldable pub get_md_root : MerkleState → Hash
  unfolding fold_root
  get_md_root m = if m.count == 0 then none else fold_root m.pending none

  -- A hash list added from the left.
  unfoldable pub add_all : MerkleState → List Hash → MerkleState
  add_all m [] = m
  add_all m (h ∷ hs) = add_all (add_to_merkle_tree m h) hs

  -- The loop of `GetIntermediate`; `none` is its error. `i` is the loop index.
  unfoldable pub intermediate_loop : List Hash → ℕ → Hash → ℕ → Option (Hash × Hash)
  intermediate_loop [] i hash height = none
  intermediate_loop (none ∷ ps) i hash height = none
  intermediate_loop (some v ∷ ps) i hash height =
      if i + 1 == height
      then some (some v, hash)
      else intermediate_loop ps (i + 1) (combine (sha256 sum) (some v) hash) height

  -- `GetIntermediate`, on the padded Pending.
  unfoldable pub get_intermediate : MerkleState → Hash → ℕ → Option (Hash × Hash)
  unfolding pad_list intermediate_loop
  get_intermediate m hash height = intermediate_loop (pad_list m.pending) 0 hash height
