-- ===== src/Merkle/Building/Received.antt =====
-- `GetReceipt` of two elements makes a valid receipt.
use accumulate.Common.{
  ℕ, suc, ◌^◌, ◌≤◌, ◌<◌, ◌≡◌, ◌⊎◌, inl, inr, refl, ap, sym, ◌∙◌, List, [], ◌∷◌, none, some, true,
  false, ◌==◌, ◌||◌, ◌&&◌, ltb, length, take, get_elem?, arith, Bool-cases, Option-cases,
}
use accumulate.Common.Outcome.{ok, err}
use accumulate.Common.Bytes.{Bytes}
use accumulate.Merkle.Hash.{Hash}
use accumulate.Merkle.State.{fold_root}
use accumulate.Merkle.Receipt.{Receipt, follow}
use accumulate.Merkle.Manager.{Chain}
use accumulate.Merkle.Manager.Holds.{Holds, state_at, first_index}
use accumulate.Merkle.Building.{get_receipt}
use accumulate.Merkle.Building.Blocks.{or_empty, block, Slots}
use accumulate.Merkle.Building.Intermediate.{first_index-get_elem?, get_elem?-bound, state_at-Slots}
use accumulate.Merkle.Building.Assembled.{validates}
use accumulate.Merkle.Building.Complete.{state_at-root, Receives, build_receipt-Receives}

-- The test for the first element alone.
both_zero : (s e : ℕ) → s ≤ e → (s == 0 && e == 0) ≡ (e == 0)
both_zero s e h = ground (arith, h)

-- The receipt that GetReceipt begins with.
abbrev pub begun : Bytes → Bytes → ℕ → ℕ → Receipt
begun element anchor s e = record {
  start = some element;
  start_index = s;
  end = some anchor;
  end_index = e;
  anchor = none;
  entries = [];
}

module _ (sum : Bytes → Bytes) (p : ℕ) (frequent : 1 < 2 ^ p) (c : Chain) (hs : List Bytes)
    (bound : length hs < 2 ^ 63) (holds : Holds sum p c hs) where
  -- Without full slots there is nothing to add.
  fold_root-empty :
      (i : ℕ) (ps : List Hash) (r : Hash) → Slots sum hs i 0 ps → fold_root sum ps r ≡ r
  unfolding fold_root
  fold_root-empty i [] r s = refl
  fold_root-empty i (none ∷ ps) none s = fold_root-empty (suc i) ps none s.1
  fold_root-empty i (none ∷ ps) (some x) s = fold_root-empty (suc i) ps (some x) s.1
  fold_root-empty i (some v ∷ ps) r s = absurd (omega (arith, s.0))

  one_slot :
      (ps : List Hash) → Slots sum hs 0 1 ps → fold_root sum ps none ≡ some (block sum hs 0 0)
  unfolding fold_root
  one_slot [] s = absurd (omega (arith, s))
  one_slot (none ∷ ps) s = absurd (omega (arith, s.0))
  one_slot (some v ∷ ps) s = fold_root-empty 1 ps (some v) s.2 ∙ ap some s.1

  head_count : c.head.count ≡ length hs
  head_count = ap (λ m. m.count) holds.head_eq ∙ (unfold state_at in refl)

  -- The receipt of the first element to itself.
  first_receipt :
      (element anchor : Bytes)
      → get_elem? hs 0 ≡ some element
      → Receives sum p hs
          (begun element anchor 0 0)
          (record (begun element anchor 0 0) { anchor = some element })
  first_receipt element anchor here =
      let inside = get_elem?-bound hs 0 element here in
      let leaf : some (block sum hs 0 0) ≡ some element =
        unfold block in ap (λ x. some (or_empty x)) here in
      let root =
        state_at-root sum p frequent c hs bound holds 0 inside
        ∙ one_slot (state_at sum p (take 1 hs)).pending
            (state_at-Slots sum p frequent c hs bound holds 1 inside)
        ∙ leaf in
      record {
        start = refl;
        start_index = refl;
        end = refl;
        end_index = refl;
        anchor = sym root;
        valid =
            validates sum hs (record (begun element anchor 0 0) { anchor = some element })
              (unfold follow in refl);
      }

  ordered :
      (element anchor : Bytes) (s e : ℕ)
      → c.element_index element ≡ some s
      → c.element_index anchor ≡ some e
      → get_elem? hs s ≡ some element
      → e < length hs
      → s ≤ e
      → (r : Receipt) × (get_receipt sum p c element anchor ≡ ok r)
        × Receives sum p hs (begun element anchor s e) r
  unfolding get_receipt
  ordered element anchor s e at_s at_e here inside order =
      let valid : (ltb e s || ltb c.head.count s) ≡ false = ground (arith, head_count) in
      elim (Bool-cases (e == 0)) [
        | inl z ↦
            let last : e ≡ 0 = ground (arith, z) in
            let first : s ≡ 0 = omega (arith, last, order) in
            (
              record (begun element anchor s e) { anchor = some element },
              rw (get_receipt, at_s, at_e, valid, both_zero s e order, z) refl,
              rw (last, first) (first_receipt element anchor (rw first at here)),
            )
        | inr z ↦
            let leaf : some element ≡ some (block sum hs 0 s) =
              unfold block in ap (λ x. some (or_empty x)) (sym here) in
            let (r, made, w) =
              build_receipt-Receives sum p frequent c hs bound holds (begun element anchor s e) refl
                leaf order (ground (arith, z)) inside in
            (r, rw (get_receipt, at_s, at_e, valid, both_zero s e order, z) made, w)
      ]

  reversed :
      (element anchor : Bytes) (s e : ℕ)
      → c.element_index element ≡ some s
      → c.element_index anchor ≡ some e
      → e < s
      → get_receipt sum p c element anchor ≡ err "invalid indexes for the element %d and anchor %d"
  unfolding get_receipt
  reversed element anchor s e at_s at_e order =
      let invalid : (ltb e s || ltb c.head.count s) ≡ true = ground (arith, order) in
      rw (get_receipt, at_s, at_e, invalid) refl

  unknown :
      (element anchor : Bytes)
      → (first_index element hs ≡ none) ⊎ (first_index anchor hs ≡ none)
      → get_receipt sum p c element anchor ≡ err "not found"
  unfolding get_receipt
  unknown element anchor (inl n) =
      let missing = holds.index_eq element ∙ n in rw (get_receipt, missing) refl
  unknown element anchor (inr n) =
      let missing = holds.index_eq anchor ∙ n in
      elim (Option-cases (c.element_index element)) [
        | inl m ↦ rw (get_receipt, m) refl
        | inr (s, m) ↦ rw (get_receipt, m, missing) refl
      ]

module _ (sum : Bytes → Bytes) (p : ℕ) where
  -- GetReceipt, for the records of a chain with fewer than 2^63 elements and a mark power above 0: of two
  -- hashes that are elements, of which the first occurs no later than the second, it returns a receipt
  -- from the first to the root after the second, and that receipt is valid; where it occurs later, or one
  -- of them does not occur, it returns the error.
  pub get_receipt-Receives :
      (c : Chain) (hs : List Bytes) (element anchor : Bytes)
      → 1 < 2 ^ p
      → length hs < 2 ^ 63
      → Holds sum p c hs
      → ((s e : ℕ)
          → first_index element hs ≡ some s
          → first_index anchor hs ≡ some e
          → (s ≤ e
              → (r : Receipt) × (get_receipt sum p c element anchor ≡ ok r)
                × Receives sum p hs (begun element anchor s e) r)
            × (e < s
                → get_receipt sum p c element anchor
                  ≡ err "invalid indexes for the element %d and anchor %d"))
        × ((first_index element hs ≡ none) ⊎ (first_index anchor hs ≡ none)
            → get_receipt sum p c element anchor ≡ err "not found")
  get_receipt-Receives c hs element anchor frequent bound holds = (
    (λ s e is_s is_e.
        let at_s = holds.index_eq element ∙ is_s in
        let at_e = holds.index_eq anchor ∙ is_e in
        let here = first_index-get_elem? element hs s is_s in
        let inside = get_elem?-bound hs e anchor (first_index-get_elem? anchor hs e is_e) in
        (
          ordered sum p frequent c hs bound holds element anchor s e at_s at_e here inside,
          reversed sum p frequent c hs bound holds element anchor s e at_s at_e,
        )),
    unknown sum p frequent c hs bound holds element anchor,
  )
