-- ===== src/Merkle/Hasher/Valid.antt =====
-- `Receipt` of a hasher makes a valid receipt.
use accumulate.Common.{
  ℕ, zero, suc, ◌^◌, ◌≤◌, ◌<◌, ◌≡◌, ◌⊎◌, refl, ap, sym, ◌∙◌, List, [], ◌∷◌, map, none, some, true,
  false, ◌==◌, ◌||◌, leb, length, take, All, arith, length-take_le,
}
use accumulate.Common.Slices.{length-map, map-take}
use accumulate.Common.Outcome.{ok}
use accumulate.Common.Bytes.{Bytes, equal_bytes_refl}
use accumulate.Merkle.Hash.{Hash, combine, sha256}
use accumulate.Merkle.State.{
  empty, add_to_merkle_tree, add_all, pad_pending, pad_list, fold_root, get_md_root,
}
use accumulate.Merkle.Manager.AddAll.{add_all-count}
use accumulate.Merkle.Binding.{IsHash}
use accumulate.Merkle.Receipt.{Receipt, validate}
use accumulate.Merkle.Cascade.{merkle_hash}
use accumulate.Merkle.Building.{build_receipt_with, climb_loop}
use accumulate.Merkle.Building.Blocks.{or_empty, block, pad_list-Slots}
use accumulate.Merkle.Building.Intermediate.{get_elem?-some, take-Slots}
use accumulate.Merkle.Building.Assembled.{build_receipt_with-Builds}
use accumulate.Merkle.Hasher.{hash_at, hasher_intermediate, hasher_receipt}
use accumulate.Merkle.Hasher.Received.{hash_at-some, hasher_intermediate-Answers}

module _ (sum : Bytes → Bytes) where
  fold_root-pad_list :
      (ps : List Hash) (r : Hash) → fold_root sum (pad_list ps) r ≡ fold_root sum ps r
  unfolding fold_root pad_list
  fold_root-pad_list [] none = refl
  fold_root-pad_list [] (some x) = refl
  fold_root-pad_list (none ∷ []) r = refl
  fold_root-pad_list (some v ∷ []) none = refl
  fold_root-pad_list (some v ∷ []) (some x) = refl
  fold_root-pad_list (none ∷ q ∷ ps) none = fold_root-pad_list (q ∷ ps) none
  fold_root-pad_list (none ∷ q ∷ ps) (some x) = fold_root-pad_list (q ∷ ps) (some x)
  fold_root-pad_list (some v ∷ q ∷ ps) none = fold_root-pad_list (q ∷ ps) (some v)
  fold_root-pad_list (some v ∷ q ∷ ps) (some x) =
      fold_root-pad_list (q ∷ ps) (combine (sha256 sum) (some v) (some x))

  merkle_hash-fold_root :
      (ks : List Bytes)
      → 0 < length ks
      → length ks < 2 ^ 64
      → merkle_hash sum (map some ks) ≡ fold_root sum (add_all sum empty (map some ks)).pending none
  unfolding merkle_hash get_md_root
  merkle_hash-fold_root [] some_ bound = absurd (omega arith)
  merkle_hash-fold_root (k ∷ ks) some_ bound =
      let count = add_all-count sum empty (k ∷ ks) (omega (arith, bound)) in
      let full : ((add_all sum empty (map some (k ∷ ks))).count == 0) ≡ false =
        ground (arith, count) in
      rw full refl

  -- What the receipt shows: a path from the element to the hash of the elements up to the anchor.
  pub record Shows (hs : List Bytes) (start anchor : ℕ) (r : Receipt) : Type 0 where
    pub start_eq : r.start ≡ hash_at (map some hs) start
    pub anchor_eq : r.anchor ≡ merkle_hash sum (map some (take (suc anchor) hs))
    pub valid : validate sum r ≡ true

  -- The receipt that `Receipt` begins with.
  abbrev begun : List Bytes → ℕ → ℕ → Receipt
  begun hs start anchor = record {
    start = hash_at (map some hs) start;
    start_index = start;
    end = none;
    end_index = anchor;
    anchor = hash_at (map some hs) start;
    entries = [];
  }

  module _ (hs : List Bytes) (start anchor : ℕ) (order : start ≤ anchor)
      (inside : anchor < length hs) where
    at_indexes : (leb (length (map some hs)) start || leb (length (map some hs)) anchor) ≡ false
    at_indexes = ground (arith, length-map some hs)

    returned :
        (r : Receipt)
        → (length hs == 1) ≡ false
        → build_receipt_with sum
            (hasher_intermediate sum (map some hs))
            (pad_pending (add_all sum empty (take (suc anchor) (map some hs))))
            (begun hs start anchor)
          ≡ ok r
        → hasher_receipt sum (map some hs) start anchor ≡ ok (some r)
    unfolding hasher_receipt
    returned r more made =
        let several : (length (map some hs) == 1) ≡ false =
          ground (arith, more, length-map some hs) in
        rw (hasher_receipt, at_indexes, several, made) refl

  single :
      (h : Bytes)
      → (r : Receipt) × (hasher_receipt sum (some h ∷ []) 0 0 ≡ ok (some r)) × Shows (h ∷ []) 0 0 r
  unfolding hasher_receipt merkle_hash get_md_root add_all add_to_merkle_tree validate
  single h = (
    record {
      start = some h;
      start_index = 0;
      end = some h;
      end_index = 0;
      anchor = some h;
      entries = [];
    },
    refl,
    record { start_eq = refl; anchor_eq = refl; valid = equal_bytes_refl h },
  )

  -- The first element to itself.
  first_of_many :
      (h g : Bytes) (hs : List Bytes)
      → (r : Receipt) × (hasher_receipt sum (map some (h ∷ g ∷ hs)) 0 0 ≡ ok (some r))
        × Shows (h ∷ g ∷ hs) 0 0 r
  unfolding build_receipt_with climb_loop merkle_hash get_md_root add_all add_to_merkle_tree
      validate
  first_of_many h g hs = (
    begun (h ∷ g ∷ hs) 0 0,
    returned (h ∷ g ∷ hs) 0 0 (omega arith) (omega arith) (begun (h ∷ g ∷ hs) 0 0) (ground arith)
        refl,
    record { start_eq = refl; anchor_eq = refl; valid = equal_bytes_refl h },
  )

  module _ (hs : List Bytes) (sized : (b : Bytes) → length (sum b) ≡ 32) (hashes : All IsHash hs)
      (bound : length hs < 2 ^ 63) where
    later :
        (start anchor : ℕ)
        → start ≤ anchor
        → 0 < anchor
        → anchor < length hs
        → (r : Receipt) × (hasher_receipt sum (map some hs) start anchor ≡ ok (some r))
          × Shows hs start anchor r
    unfolding pad_pending
    later start anchor order some_ inside =
        let ks = take (suc anchor) hs in
        let long = length-take_le (suc anchor) hs (omega arith) in
        let state = pad_pending (add_all sum empty (map some ks)) in
        let (h, here) = get_elem?-some hs start (omega arith) in
        let from : hash_at (map some hs) start ≡ some (block sum hs 0 start) =
          hash_at-some hs start h here ∙ (unfold block in ap (λ x. some (or_empty x)) (sym here)) in
        let (r, made, w) =
          build_receipt_with-Builds sum hs (hasher_intermediate sum (map some hs)) state
            (begun hs start anchor) (hasher_intermediate-Answers sum hs sized hashes anchor inside)
            (pad_list-Slots sum hs 0 (suc anchor) (add_all sum empty (map some ks)).pending
              (take-Slots sum hs (suc anchor) (omega arith)))
            refl from order some_ (omega (arith, bound)) in
        let root =
          fold_root-pad_list (add_all sum empty (map some ks)).pending none
          ∙ sym (merkle_hash-fold_root ks (omega (arith, long)) (omega (arith, long, bound))) in
        (
          r,
          returned hs start anchor order inside r (ground (arith, some_, inside))
              (rw (← map-take some (suc anchor) hs) made),
          record { start_eq = w.start; anchor_eq = w.anchor ∙ root; valid = w.valid },
        )

-- Receipt of a hasher with fewer than 2^63 hashes of 32 bytes, and a digest of 32 bytes: from an element
-- up to an anchor that is not before it, it returns a valid receipt from the element to the MerkleHash of
-- the elements up to the anchor.
pub hasher_receipt-Shows :
    (sum : Bytes → Bytes) (hs : List Bytes) (start anchor : ℕ)
    → ((b : Bytes) → length (sum b) ≡ 32)
    → All IsHash hs
    → length hs < 2 ^ 63
    → start ≤ anchor
    → anchor < length hs
    → (r : Receipt) × (hasher_receipt sum (map some hs) start anchor ≡ ok (some r))
      × Shows sum hs start anchor r
hasher_receipt-Shows sum hs start (suc anchor) sized hashes bound order inside =
    later sum hs sized hashes bound start (suc anchor) order (omega arith) inside
hasher_receipt-Shows sum hs (suc start) zero sized hashes bound order inside = absurd (omega arith)
hasher_receipt-Shows sum [] zero zero sized hashes bound order inside = absurd (omega arith)
hasher_receipt-Shows sum (h ∷ []) zero zero sized hashes bound order inside = single sum h
hasher_receipt-Shows sum (h ∷ g ∷ hs) zero zero sized hashes bound order inside =
    first_of_many sum h g hs

-- An index out of range gives nil.
pub hasher_receipt-outside :
    (sum : Bytes → Bytes) (h : List Hash) (start anchor : ℕ)
    → (length h ≤ start) ⊎ (length h ≤ anchor)
    → hasher_receipt sum h start anchor ≡ ok none
unfolding hasher_receipt
hasher_receipt-outside sum h start anchor out =
    let bad : (leb (length h) start || leb (length h) anchor) ≡ true = ground (arith, out) in
    rw (hasher_receipt, bad) refl
