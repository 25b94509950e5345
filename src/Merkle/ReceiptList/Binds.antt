-- ===== src/Merkle/ReceiptList/Binds.antt =====
-- What a list that `Validate` accepts proves.
use accumulate.Common.{
  ◌+◌, ◌^◌, ◌≡◌, ◌<◌, ◌⊎◌, inl, inr, refl, ap, sym, ◌∙◌, List, [], ◌∷◌, ◌++◌, map, Option, some,
  true, false, ◌==◌, length, All, arith, Bool-cases, Option-cases, length-append, All-append,
}
use mathlib.Core.List.{map-append}
use accumulate.Common.Slices.{length-map}
use accumulate.Common.Bytes.{Bytes}
use accumulate.Merkle.Hash.{Hash, bytes, equal}
use accumulate.Merkle.State.{MerkleState, empty, add_all, get_md_root}
use accumulate.Merkle.Binding.{Collision, IsHash, get_md_root_binds}
use accumulate.Merkle.Receipt.{Receipt, validate}
use accumulate.Merkle.ReceiptList.{
  ReceiptList, walk_elements, last_element, check_anchor, check_elements, validate_list,
}
use accumulate.Merkle.ReceiptList.Walked.{walked, root-append, same_anchor}

module _ (sum : Bytes → Bytes) where
  -- What the tests of `Validate` have found.
  pub record Passed (ms : MerkleState) (es : List Hash) (r : Receipt) : Type 0 where
    pub after : MerkleState
    pub adds : walk_elements sum ms es ≡ some after
    pub full : (length (bytes (get_md_root sum after)) == 0) ≡ false
    pub starts : equal (last_element es) r.start ≡ true
    pub ends : equal r.anchor (get_md_root sum after) ≡ true
    pub valid : validate sum r ≡ true

  check_anchor-parts :
      (anchor last : Hash) (r : Receipt) (more : Option Receipt)
      → check_anchor sum anchor last r more ≡ true
      → ((length (bytes anchor) == 0) ≡ false)
        × (equal last r.start ≡ true)
        × (equal r.anchor anchor ≡ true)
        × (validate sum r ≡ true)
  unfolding check_anchor
  check_anchor-parts anchor last r more e = elim (Bool-cases (length (bytes anchor) == 0)) [
    | inl z ↦ absurd (cc (rw (check_anchor, z) at e))
    | inr z ↦ elim (Bool-cases (equal last r.start)) [
      | inr s ↦ absurd (cc (rw (check_anchor, z, s) at e))
      | inl s ↦ elim (Bool-cases (equal r.anchor anchor)) [
        | inr a ↦ absurd (cc (rw (check_anchor, z, s, a) at e))
        | inl a ↦ elim (Bool-cases (validate sum r)) [
          | inr v ↦ absurd (cc (rw (check_anchor, z, s, a, v) at e))
          | inl v ↦ (z, s, a, v)
        ]
      ]
    ]
  ]

  check_elements-Passed :
      (ms : MerkleState) (es : List Hash) (r : Receipt) (more : Option Receipt)
      → check_elements sum ms es r more ≡ true
      → Passed ms es r
  unfolding check_elements
  check_elements-Passed ms [] r more e = absurd (cc e)
  check_elements-Passed ms (h ∷ hs) r more e = elim (Option-cases (walk_elements sum ms (h ∷ hs))) [
    | inl n ↦ absurd (cc (rw (check_elements, n) at e))
    | inr (after, adds) ↦
        let (full, starts, ends, valid) =
          check_anchor-parts (get_md_root sum after) (last_element (h ∷ hs)) r more
            (rw (check_elements, adds) at e) in
        record {
          after = after;
          adds = adds;
          full = full;
          starts = starts;
          ends = ends;
          valid = valid;
        }
  ]

  pub validate_list-Passed :
      (l : ReceiptList) (ms : MerkleState) (r : Receipt)
      → l.merkle_state ≡ some ms
      → l.receipt ≡ some r
      → validate_list sum l ≡ true
      → Passed ms l.elements r
  unfolding validate_list
  validate_list-Passed l ms r has_state has_receipt e =
      check_elements-Passed ms l.elements r l.continued_receipt
        (rw (validate_list, has_state, has_receipt) at e)

-- A list that Validate accepts, whose state is that of some hashes and whose receipt ends at the root of
-- a chain with as many elements as these and the list's, has the elements that the chain has behind the
-- hashes, and begins with them, or the digest has a collision.
pub validate_list-binds :
    (sum : Bytes → Bytes) (l : ReceiptList) (ms : MerkleState) (r : Receipt) (hs ks : List Bytes)
    → ((b : Bytes) → length (sum b) ≡ 32)
    → l.merkle_state ≡ some ms
    → l.receipt ≡ some r
    → ms.count ≡ length hs
    → ms.pending ≡ (add_all sum empty (map some hs)).pending
    → All IsHash hs
    → All IsHash ks
    → length ks ≡ length hs + length l.elements
    → length ks < 2 ^ 64
    → r.anchor ≡ get_md_root sum (add_all sum empty (map some ks))
    → validate_list sum l ≡ true
    → (map some ks ≡ map some hs ++ l.elements) ⊎ Collision sum
validate_list-binds sum l ms r hs ks sized has_state has_receipt count pending a b long bound anchor
      e =
    let passed = validate_list-Passed sum l ms r has_state has_receipt e in
    let (es, same_, hashes, adds) = walked sum ms passed.after l.elements passed.adds in
    let size : length l.elements ≡ length es = ap length same_ ∙ length-map some es in
    let whole = length-append hs es in
    let root : get_md_root sum (add_all sum empty (map some (hs ++ es)))
        ≡ get_md_root sum (add_all sum empty (map some ks)) =
      sym (root-append sum ms hs es (omega (arith, size, long, bound)) count pending)
      ∙ ap (get_md_root sum) (sym adds)
      ∙ sym (same_anchor r.anchor (get_md_root sum passed.after) passed.ends passed.full)
      ∙ anchor in
    elim (get_md_root_binds sum sized (hs ++ es) ks (omega (arith, whole, size, long))
      (omega (arith, whole, size, long, bound)) (All-append IsHash hs es a hashes) b root) [
        | inr c ↦ inr c
        | inl equal_ ↦ inl (ap (map some) (sym equal_) ∙ (rw (map-append, same_) refl))
      ]
