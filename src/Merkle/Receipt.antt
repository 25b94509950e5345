-- ===== src/Merkle/Receipt.antt =====
-- smt/managed/receipt.go: a path of hashes from an element to an anchor.
pub mod Combine
pub mod Contains
pub mod Soundness
use accumulate.Common.{ℕ, List, [], ◌∷◌, ◌++◌, Option, none, some, Bool, true, false, not}
use accumulate.Common.{if◌then◌else◌}
use accumulate.Common.Outcome.{Outcome, ok, err, panic, ◌>>=◌}
use accumulate.Common.Bytes.{Bytes}
use accumulate.Merkle.Hash.{Hash, combine, sha256, equal}

pub record ReceiptEntry : Type 0 where
  pub right : Bool
  pub hash : Hash

-- The manager, which is not part of the proof, is left out.
pub record Receipt : Type 0 where
  pub start : Hash
  pub start_index : ℕ
  pub end : Hash
  pub end_index : ℕ
  pub anchor : Hash
  pub entries : List ReceiptEntry

module _ (sum : Bytes → Bytes) where
  -- `ReceiptEntry.Apply`
  unfoldable pub apply : ReceiptEntry → Hash → Hash
  apply n hash =
      if n.right then combine (sha256 sum) hash n.hash else combine (sha256 sum) n.hash hash

  -- The loop over the entries in `Validate`.
  unfoldable pub follow : List ReceiptEntry → Hash → Hash
  follow [] hash = hash
  follow (n ∷ ns) hash = follow ns (apply n hash)

  -- `Validate`
  unfoldable pub validate : Receipt → Bool
  unfolding follow apply
  validate r = equal (follow r.entries r.start) r.anchor

  -- The first loop of `Contains`: the entries left, and the hash, where the two hashes meet.
  unfoldable pub meet : List ReceiptEntry → Hash → Hash → Option (List ReceiptEntry × Hash)
  meet [] self other = if equal self other then some ([], self) else none
  meet (n ∷ ns) self other =
      if equal self other then some (n ∷ ns, self) else meet ns (apply n self) other

  -- The second loop of `Contains`.
  unfoldable pub walk : List ReceiptEntry → List ReceiptEntry → Hash → Hash → Bool
  walk ns [] self other = true
  walk [] (o ∷ os) self other = false
  walk (n ∷ ns) (o ∷ os) self other =
      if equal (apply n self) (apply o other)
      then walk ns os (apply n self) (apply o other)
      else false

  walk_from : Option (List ReceiptEntry × Hash) → List ReceiptEntry → Hash → Bool
  walk_from none os other = false
  walk_from (some (ns, self)) os other = walk ns os self other

  -- `Contains`
  unfoldable pub contains : Receipt → Receipt → Bool
  unfolding meet walk walk_from apply
  contains r other = walk_from (meet r.entries r.start other.start) other.entries other.start

-- `Combine`
unfoldable pub combine_with : Receipt → Receipt → Outcome Receipt
combine_with r rm =
    if not (equal r.anchor rm.start)
    then err "receipts cannot be combined"
    else ok (record r { anchor = rm.anchor; entries = r.entries ++ rm.entries })

unfoldable pub combine_from : Receipt → List Receipt → Outcome Receipt
combine_from r [] = ok r
combine_from r (s ∷ ss) = combine_with r s >>= λ t. combine_from t ss

-- `CombineReceipts`: it indexes the first receipt, so no receipts is a panic.
unfoldable pub combine_receipts : List Receipt → Outcome Receipt
unfolding combine_from combine_with
combine_receipts [] = panic
combine_receipts (r ∷ rs) = combine_from r rs
