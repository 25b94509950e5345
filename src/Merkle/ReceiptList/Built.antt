-- ===== src/Merkle/ReceiptList/Built.antt =====
-- What `GetReceiptList` makes of a chain.
use accumulate.Common.{
  ℕ, zero, suc, ◌+◌, ◌-◌, ◌^◌, ◌≤◌, ◌<◌, ◌≡◌, refl, ap, sym, ◌∙◌, List, [], ◌∷◌, ◌++◌, map, none,
  some, true, false, ◌==◌, ltb, leb, length, take, drop, get_elem?, All, arith, All-take-drop,
  length-take_le, take-append-drop,
}
use accumulate.Common.Slices.{length-drop, take-take_le, drop-take}
use accumulate.Common.Outcome.{ok, err}
use accumulate.Common.Bytes.{Bytes, equal_bytes_refl}
use accumulate.Merkle.Hash.{bytes}
use accumulate.Merkle.State.{MerkleState, empty, add_all, get_md_root}
use accumulate.Merkle.Manager.AddAll.{add_all-count}
use accumulate.Merkle.Root.{list_root, get_md_root-add_all}
use accumulate.Merkle.Receipt.{Receipt, validate}
use accumulate.Merkle.Binding.{IsHash, length-list_root_fuel}
use accumulate.Merkle.Manager.{Chain, get_any_state}
use accumulate.Merkle.Manager.Holds.{Holds, state_at, first_index}
use accumulate.Merkle.Manager.AnyState.{get_any_state-state_at}
use accumulate.Merkle.Building.Intermediate.{get_elem?-bound}
use accumulate.Merkle.Building.Received.{get_receipt-Receives}
use accumulate.Merkle.ReceiptList.{
  ReceiptList, last_element, check_elements, check_anchor, continues, validate_list, get_elements,
  get_receipt_list,
}
use accumulate.Merkle.ReceiptList.Walked.{walk_elements-add_all, root-append}

-- The elements from `start` to `end`.
abbrev pub between : List Bytes → ℕ → ℕ → List Bytes
between hs start end = take (end + 1 - start) (drop start hs)

last_element-take :
    (n : ℕ) (ks : List Bytes) (h : Bytes)
    → get_elem? ks n ≡ some h
    → last_element (map some (take (suc n) ks)) ≡ some h
unfolding last_element
last_element-take n [] h e = absurd (cc e)
last_element-take zero (k ∷ ks) h e = e
last_element-take (suc n) (k ∷ []) h e = absurd (cc e)
last_element-take (suc n) (k ∷ g ∷ ks) h e = last_element-take n (g ∷ ks) h e

get_elem?-drop :
    {A : Type 0} (i j : ℕ) (xs : List A) → get_elem? (drop i xs) j ≡ get_elem? xs (i + j)
get_elem?-drop zero j xs = let at : j ≡ zero + j = omega arith in ap (get_elem? xs) at
get_elem?-drop (suc i) j [] = refl
get_elem?-drop (suc i) j (x ∷ xs) =
    let at : suc (i + j) ≡ suc i + j = omega arith in
    get_elem?-drop i j xs ∙ ap (get_elem? (x ∷ xs)) at

module _ (sum : Bytes → Bytes) (p : ℕ) (c : Chain) where
  get_elements-take :
      (n i : ℕ) (ks : List Bytes)
      → ((j : ℕ) → c.element (i + j) ≡ get_elem? ks j)
      → n ≤ length ks
      → get_elements sum p c i n ≡ ok (map some (take n ks))
  unfolding get_elements
  get_elements-take zero i ks here h = refl
  get_elements-take (suc n) i [] here h = absurd (omega arith)
  get_elements-take (suc n) i (k ∷ ks) here h =
      let first : c.element i ≡ some k = ap c.element (omega arith) ∙ here 0 in
      let rest =
        get_elements-take n (i + 1) ks (λ j. ap c.element (omega arith) ∙ here (suc j))
          (omega arith) in
      rw (get_elements, first, rest) refl

module _ (sum : Bytes → Bytes) where
  -- A list passes if its receipt is valid, from its last element to its own anchor.
  checked :
      (ms : MerkleState) (ks : List Bytes) (receipt : Receipt)
      → 0 < length ks
      → All IsHash ks
      → (length (bytes (get_md_root sum (add_all sum ms (map some ks)))) == 0) ≡ false
      → receipt.start ≡ last_element (map some ks)
      → receipt.anchor ≡ get_md_root sum (add_all sum ms (map some ks))
      → validate sum receipt ≡ true
      → check_elements sum ms (map some ks) receipt none ≡ true
  unfolding check_elements check_anchor continues
  checked ms [] receipt nonempty a full starts ends valid = absurd (omega arith)
  checked ms (k ∷ ks) receipt nonempty a full starts ends valid =
      let anchor = get_md_root sum (add_all sum ms (map some (k ∷ ks))) in
      let last = last_element (map some (k ∷ ks)) in
      rw
        (
          check_elements,
          walk_elements-add_all sum ms (k ∷ ks) a,
          check_anchor,
          full,
          valid,
          starts,
          equal_bytes_refl (bytes last),
          ends,
          equal_bytes_refl (bytes anchor),
        )
        refl

module _ (sum : Bytes → Bytes) (sized : (b : Bytes) → length (sum b) ≡ 32) where
  -- The root of some hashes is not empty.
  root_bytes :
      (ks : List Bytes)
      → 0 < length ks
      → length ks < 2 ^ 64
      → All IsHash ks
      → (length (bytes (get_md_root sum (add_all sum empty (map some ks)))) == 0) ≡ false
  root_bytes ks some_ bound a =
      let size = length-list_root_fuel sum sized (length ks) ks some_ (omega arith) a in
      let full : (length (bytes (list_root sum ks)) == 0) ≡ false =
        unfold list_root in ground (arith, size) in
      rw (get_md_root-add_all sum ks bound) full

module _ (sum : Bytes → Bytes) (hs : List Bytes) where
  -- The list of the elements from `start` to `end`, of which the last is `last`.
  pub record Lists (start end : ℕ) (last : Bytes) (l : ReceiptList) : Type 0 where
    pub elements : l.elements ≡ map some (between hs start end)
    pub receipt : Receipt
    pub receipt_eq : l.receipt ≡ some receipt
    pub from_last : receipt.start ≡ some last
    pub to_root :
        receipt.anchor ≡ get_md_root sum (add_all sum empty (map some (take (suc end) hs)))
    pub valid : validate_list sum l ≡ true

module _ (sum : Bytes → Bytes) (p : ℕ) (c : Chain) (hs : List Bytes) (frequent : 1 < 2 ^ p)
    (bound : length hs < 2 ^ 63) (holds : Holds sum p c hs) where
  -- The state that the list starts from.
  state_before :
      (start : ℕ)
      → start < length hs
      → (ms : MerkleState) × (get_any_state sum p c start ≡ ok ms)
        × (ms.count ≡ length (take start hs))
        × (ms.pending ≡ (add_all sum empty (map some (take start hs))).pending)
  state_before zero h = (
    empty,
    (get_any_state-state_at sum p c hs frequent bound holds).0,
    refl,
    (unfold add_all in refl),
  )
  state_before (suc e) h = (
    state_at sum p (take (suc e) hs),
    (get_any_state-state_at sum p c hs frequent bound holds).1 e (omega arith),
    (unfold state_at in refl),
    (unfold state_at in refl),
  )

  state_at-root :
      (ks : List Bytes)
      → length ks < 2 ^ 64
      → get_md_root sum (state_at sum p ks) ≡ get_md_root sum (add_all sum empty (map some ks))
  unfolding get_md_root state_at
  state_at-root ks b =
      let count : (add_all sum empty (map some ks)).count ≡ length ks =
        add_all-count sum empty ks (omega arith) ∙ omega arith in
      rw count refl

  between-whole :
      (start end : ℕ) → start ≤ end → take start hs ++ between hs start end ≡ take (suc end) hs
  between-whole start end order =
      ap (λ t. t ++ between hs start end) (sym (take-take_le start (suc end) hs (omega arith)))
      ∙ ap (λ t. take start (take (suc end) hs) ++ t)
          (sym (drop-take start (end + 1 - start) (suc end) hs (omega arith)))
      ∙ take-append-drop start (take (suc end) hs)

  listed :
      (start end : ℕ) (last : Bytes)
      → ((b : Bytes) → length (sum b) ≡ 32)
      → All IsHash hs
      → start ≤ end
      → end < length hs
      → get_elem? hs end ≡ some last
      → first_index last hs ≡ some end
      → (l : ReceiptList) × (get_receipt_list sum p c start end ≡ ok l)
        × Lists sum hs start end last l
  unfolding get_receipt_list
  listed start end last sized a order inside is_last first =
      let ks = between hs start end in
      let n = end + 1 - start in
      let rest = length-drop start hs in
      let taken = length-take_le n (drop start hs) (omega arith) in
      let read =
        get_elements-take sum p c n start (drop start hs)
          (λ j. holds.element_eq (start + j) ∙ sym (get_elem?-drop start j hs)) (omega arith) in
      let (ms, before, count, pending) = state_before start (omega arith) in
      let (r, made, receives) =
        ((get_receipt-Receives sum p c hs last last frequent bound holds).0 end end first first).0
          (omega arith) in
      let size : n ≡ suc (end - start) = omega arith in
      let at : start + (end - start) ≡ end = omega arith in
      let ends_in : last_element (map some ks) ≡ some last =
        ap (λ t. last_element (map some (take t (drop start hs)))) size
        ∙ last_element-take (end - start) (drop start hs) last
            (get_elem?-drop start (end - start) hs ∙ ap (get_elem? hs) at ∙ is_last) in
      let whole = between-whole start end order in
      let long = length-take_le (suc end) hs (omega arith) in
      let same_root : get_md_root sum (add_all sum ms (map some ks))
          ≡ get_md_root sum (add_all sum empty (map some (take (suc end) hs))) =
        root-append sum ms (take start hs) ks
          (omega (arith, length-take_le start hs (omega arith), taken)) count pending
        ∙ ap (λ t. get_md_root sum (add_all sum empty (map some t))) whole in
      let to_root : r.anchor ≡ get_md_root sum (add_all sum empty (map some (take (suc end) hs))) =
        receives.anchor ∙ state_at-root (take (suc end) hs) (omega (arith, long)) in
      let ok_start : ltb end start ≡ false = ground arith in
      let count_head : c.head.count ≡ length hs =
        ap (λ m. m.count) holds.head_eq ∙ (unfold state_at in refl) in
      let ok_end : leb c.head.count end ≡ false = ground (arith, count_head) in
      (
        record {
          merkle_state = some ms;
          elements = map some ks;
          receipt = some r;
          continued_receipt = none;
        },
        rw (get_receipt_list, ok_start, ok_end, read, before, ends_in, made) refl,
        record {
          elements = refl;
          receipt = r;
          receipt_eq = refl;
          from_last = receives.start;
          to_root = to_root;
          valid =
              unfold validate_list in
              checked sum ms ks r (omega (arith, taken))
                (All-take-drop IsHash n (drop start hs) (All-take-drop IsHash start hs a).1).0
                (rw same_root (
                  root_bytes sum sized (take (suc end) hs) (omega (arith, long))
                    (omega (arith, long)) (All-take-drop IsHash (suc end) hs a).0))
                (receives.start ∙ sym ends_in) (to_root ∙ sym same_root) receives.valid;
        },
      )

  refused :
      (start end : ℕ)
      → (end < start
          → get_receipt_list sum p c start end
            ≡ err "start %d and end %d is invalid for ReceiptList")
        × (start ≤ end
            → length hs ≤ end
            → get_receipt_list sum p c start end ≡ err "end %d is out of range for SMT length %d")
  unfolding get_receipt_list
  refused start end = (
    (λ over. let bad : ltb end start ≡ true = ground arith in rw (get_receipt_list, bad) refl),
    (λ order out.
        let good : ltb end start ≡ false = ground arith in
        let count_head : c.head.count ≡ length hs =
          ap (λ m. m.count) holds.head_eq ∙ (unfold state_at in refl) in
        let bad : leb c.head.count end ≡ true = ground (arith, count_head) in
        rw (get_receipt_list, good, bad) refl),
  )

-- GetReceiptList, for the records of a chain of fewer than 2^63 elements of 32 bytes, a digest of 32
-- bytes and a mark power above 0: up to an element that does not occur before, it returns the elements
-- in order with a receipt from the last to the root after it, and Validate accepts the list.
pub get_receipt_list-Lists :
    (sum : Bytes → Bytes) (p : ℕ) (c : Chain) (hs : List Bytes) (start end : ℕ) (last : Bytes)
    → 1 < 2 ^ p
    → length hs < 2 ^ 63
    → Holds sum p c hs
    → ((b : Bytes) → length (sum b) ≡ 32)
    → All IsHash hs
    → start ≤ end
    → get_elem? hs end ≡ some last
    → first_index last hs ≡ some end
    → (l : ReceiptList) × (get_receipt_list sum p c start end ≡ ok l)
      × Lists sum hs start end last l
get_receipt_list-Lists sum p c hs start end last frequent bound holds sized a order is_last first =
    listed sum p c hs frequent bound holds start end last sized a order
      (get_elem?-bound hs end last is_last) is_last first
