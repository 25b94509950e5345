-- ===== src/Merkle/ReceiptList/Walked.antt =====
-- `Validate` adds the elements of a list to its state.
use accumulate.Common.{
  ◌+◌, ◌^◌, ◌≡◌, ◌<◌, inl, inr, refl, ap, List, [], ◌∷◌, ◌++◌, map, none, some, true, false, ◌==◌,
  length, All, arith, Bool-cases,
}
use accumulate.Common.Bytes.{Bytes, equal_bytes→eq}
use accumulate.Merkle.Hash.{Hash, bytes, equal}
use accumulate.Merkle.State.{MerkleState, empty, add_to_merkle_tree, add_all, get_md_root}
use accumulate.Merkle.Binding.{IsHash}
use accumulate.Merkle.Manager.AddAll.{add_all-count, add_all-pending, add_all-append}
use accumulate.Merkle.ReceiptList.{walk_elements, last_element}

module _ (sum : Bytes → Bytes) where
  pub walk_elements-add_all :
      (ms : MerkleState) (ks : List Bytes)
      → All IsHash ks
      → walk_elements sum ms (map some ks) ≡ some (add_all sum ms (map some ks))
  unfolding walk_elements add_all
  walk_elements-add_all ms [] a = refl
  walk_elements-add_all ms (k ∷ ks) (a, rest) =
      let full : (length k == 32) ≡ true = ground (arith, a) in
      rw full (walk_elements-add_all (add_to_merkle_tree sum ms (some k)) ks rest)

  -- Elements that it adds are hashes of 32 bytes.
  pub walked :
      (ms after : MerkleState) (es : List Hash)
      → walk_elements sum ms es ≡ some after
      → (ks : List Bytes) × (es ≡ map some ks)
        × All IsHash ks
        × (after ≡ add_all sum ms (map some ks))
  unfolding walk_elements add_all
  walked ms after [] e = ([], refl, tt, cc e)
  walked ms after (none ∷ es) e = absurd (cc e)
  walked ms after (some h ∷ es) e = elim (Bool-cases (length h == 32)) [
    | inl full ↦
        let (ks, same_, rest, adds) =
          walked (add_to_merkle_tree sum ms (some h)) after es (rw full at e) in
        (h ∷ ks, ap (λ t. some h ∷ t) same_, (ground (arith, full), rest), adds)
    | inr short ↦ absurd (cc (rw short at e))
  ]

  -- The root of a state with the count and Pending of some hashes, after more of them.
  pub root-append :
      (ms : MerkleState) (hs ks : List Bytes)
      → length hs + length ks < 2 ^ 64
      → ms.count ≡ length hs
      → ms.pending ≡ (add_all sum empty (map some hs)).pending
      → get_md_root sum (add_all sum ms (map some ks))
        ≡ get_md_root sum (add_all sum empty (map some (hs ++ ks)))
  unfolding get_md_root
  root-append ms hs ks bound counts pends =
      let before = add_all sum empty (map some hs) in
      let whole = add_all-append sum empty hs ks in
      let count_l = add_all-count sum ms ks (omega (arith, counts, bound)) in
      let count_b = add_all-count sum empty hs (omega (arith, bound)) in
      let count_r = add_all-count sum before ks (omega (arith, count_b, bound)) in
      let same_count : (add_all sum ms (map some ks)).count
          ≡ (add_all sum before (map some ks)).count =
        omega (arith, counts, count_l, count_b, count_r) in
      let same_pending = add_all-pending sum ms before ks pends in
      rw (whole, same_count, same_pending) refl

pub last_element-some :
    (k : Bytes) (ks : List Bytes) → (h : Bytes) × (last_element (map some (k ∷ ks)) ≡ some h)
unfolding last_element
last_element-some k [] = (k, refl)
last_element-some k (g ∷ ks) = last_element-some g ks

-- Anchors with the same bytes, of which there are some, are the same.
pub same_anchor : (a b : Hash) → equal a b ≡ true → (length (bytes b) == 0) ≡ false → a ≡ b
same_anchor none none e f = refl
same_anchor none (some b) e f =
    let same_ : [] ≡ b = equal_bytes→eq [] b e in absurd (cc (rw (← same_) at f))
same_anchor (some a) none e f = absurd (cc f)
same_anchor (some a) (some b) e f = ap some (equal_bytes→eq a b e)
