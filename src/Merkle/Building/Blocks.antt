-- ===== src/Merkle/Building/Blocks.antt =====
-- The hashes of the perfect subtrees over a list, and Pending in terms of them.
use accumulate.Common.{
  ℕ, zero, suc, ◌+◌, ◌-◌, ◌*◌, ◌/◌, ◌%◌, ◌<◌, ◌≡◌, refl, ap, sym, ◌∙◌, List, [], ◌∷◌, ◌++◌, map,
  Option, none, some, Bool, true, false, ◌==◌, if◌then◌else◌, length, get_elem?, arith,
}
use accumulate.Common.Bytes.{Bytes}
use accumulate.Merkle.Hash.{Hash, combine, sha256}
use accumulate.Merkle.State.{
  MerkleState, pad_list, carry, add_to_merkle_tree, add_all, intermediate_loop, keep_nil, trim_list,
}

abbrev pub or_empty : Option Bytes → Bytes
or_empty none = []
or_empty (some b) = b

-- Whether the lowest bits up to bit `d` are all set, and the number without the lowest `d` bits.
abbrev pub full : ℕ → ℕ → Bool
full zero q = q % 2 == 1
full (suc d) q = if q % 2 == 1 then full d (q / 2) else false

abbrev pub halved : ℕ → ℕ → ℕ
halved zero q = q
halved (suc d) q = halved d (q / 2)

pub full-even : (d q : ℕ) → q % 2 ≡ 0 → full d q ≡ false
full-even zero q even = ground (arith, even)
full-even (suc d) q even = ground (arith, even)

module _ (sum : Bytes → Bytes) (hs : List Bytes) where
  -- The hash of the subtree with number `j` among those of 2^i elements.
  unfoldable pub block : ℕ → ℕ → Bytes
  block zero j = or_empty (get_elem? hs j)
  block (suc i) j = sum (block i (2 * j) ++ block i (2 * j + 1))

  pub block-pair :
      (i q : ℕ) → q % 2 ≡ 1 → sum (block i (q - 1) ++ block i q) ≡ block (suc i) (q / 2)
  unfolding block
  block-pair i q odd =
      let left : q - 1 ≡ 2 * (q / 2) = omega (arith, odd) in
      let right : q ≡ 2 * (q / 2) + 1 = omega (arith, odd) in
      ap (λ x. sum (block i x ++ block i q)) left
      ∙ ap (λ x. sum (block i (2 * (q / 2)) ++ block i x)) right

  -- The slots from `i` on, for `q` subtrees of 2^i elements: a slot is full where the bit of the number
  -- is set, with the last subtree of its size.
  abbrev pub Slots : ℕ → ℕ → List Hash → Type 0
  Slots i q [] = q ≡ 0
  Slots i q (none ∷ ps) = (q % 2 ≡ 0) × Slots (suc i) (q / 2) ps
  Slots i q (some v ∷ ps) = (q % 2 ≡ 1) × (v ≡ block i (q - 1)) × Slots (suc i) (q / 2) ps

  Slots-number : (i q r : ℕ) (ps : List Hash) → q ≡ r → Slots i q ps → Slots i r ps
  Slots-number i q r ps e s = rw (← e) s

  pub pad_list-Slots : (i q : ℕ) (ps : List Hash) → Slots i q ps → Slots i q (pad_list ps)
  unfolding pad_list
  pad_list-Slots i q [] s = (omega (arith, s), omega (arith, s))
  pad_list-Slots i q (none ∷ []) s = s
  pad_list-Slots i q (some v ∷ []) (odd, e, s) = (odd, e, (omega (arith, s), omega (arith, s)))
  pad_list-Slots i q (none ∷ p ∷ ps) (even, s) = (even, pad_list-Slots (suc i) (q / 2) (p ∷ ps) s)
  pad_list-Slots i q (some v ∷ p ∷ ps) (odd, e, s) =
      (odd, e, pad_list-Slots (suc i) (q / 2) (p ∷ ps) s)

  -- The hash that is carried on from a full slot.
  carried :
      (i q : ℕ) (v : Bytes) (ps : List Hash)
      → q % 2 ≡ 1
      → v ≡ block i (q - 1)
      → Slots (suc i) (q / 2 + 1) (carry sum ps (some (block (suc i) (q / 2))))
      → Slots
          (suc i)
          ((q + 1) / 2)
          (carry sum ps (combine (sha256 sum) (some v) (some (block i q))))
  carried i q v ps odd e s =
      let number : q / 2 + 1 ≡ (q + 1) / 2 = omega (arith, odd) in
      let hash : sum (v ++ block i q) ≡ block (suc i) (q / 2) =
        ap (λ x. sum (x ++ block i q)) e ∙ block-pair i q odd in
      rw hash (Slots-number (suc i) (q / 2 + 1) ((q + 1) / 2) _ number s)

  carry-Slots :
      (i q : ℕ) (ps : List Hash)
      → Slots i q ps
      → Slots i (q + 1) (carry sum (pad_list ps) (some (block i q)))
  unfolding carry pad_list
  carry-Slots i q [] s = (omega (arith, s), ap (block i) (omega arith), omega (arith, s))
  carry-Slots i q (none ∷ []) (even, s) =
      (omega (arith, even), ap (block i) (omega arith), omega (arith, s, even))
  carry-Slots i q (none ∷ p ∷ ps) (even, s) =
      let number : q / 2 ≡ (q + 1) / 2 = omega (arith, even) in
      (
        omega (arith, even),
        ap (block i) (omega arith),
        Slots-number (suc i) (q / 2) ((q + 1) / 2) _ number
            (pad_list-Slots (suc i) (q / 2) (p ∷ ps) s),
      )
  carry-Slots i q (some v ∷ []) (odd, e, s) =
      (omega (arith, odd), carried i q v (none ∷ []) odd e (carry-Slots (suc i) (q / 2) [] s))
  carry-Slots i q (some v ∷ p ∷ ps) (odd, e, s) = (
    omega (arith, odd),
    carried i q v (pad_list (p ∷ ps)) odd e (carry-Slots (suc i) (q / 2) (p ∷ ps) s),
  )

  pub add_all-Slots :
      (m : MerkleState) (n : ℕ) (ks : List Bytes)
      → ((j : ℕ) → j < length ks → get_elem? ks j ≡ get_elem? hs (n + j))
      → Slots 0 n m.pending
      → Slots 0 (n + length ks) (add_all sum m (map some ks)).pending
  unfolding add_all add_to_merkle_tree
  add_all-Slots m n [] same_ s = Slots-number 0 n (n + 0) m.pending (omega arith) s
  add_all-Slots m n (k ∷ ks) same_ s =
      let here : block 0 n ≡ k =
        unfold block in
        ap or_empty (ap (get_elem? hs) (omega arith) ∙ sym (same_ 0 (omega arith))) in
      let next : Slots 0 (n + 1) (carry sum (pad_list m.pending) (some k)) =
        rw (← here) (carry-Slots 0 n m.pending s) in
      Slots-number 0 (n + 1 + length ks) (n + suc (length ks)) _ (omega arith) (
        add_all-Slots (add_to_merkle_tree sum m (some k)) (n + 1) ks
          (λ j l. same_ (suc j) (omega arith) ∙ ap (get_elem? hs) (omega arith)) next)

  keep_nil-Slots :
      (i q : ℕ) (ps : List Hash) → q % 2 ≡ 0 → Slots (suc i) (q / 2) ps → Slots i q (keep_nil ps)
  unfolding keep_nil
  keep_nil-Slots i q [] even s = omega (arith, s, even)
  keep_nil-Slots i q (p ∷ ps) even s = (even, s)

  pub trim_list-Slots : (i q : ℕ) (ps : List Hash) → Slots i q ps → Slots i q (trim_list ps)
  unfolding trim_list
  trim_list-Slots i q [] s = s
  trim_list-Slots i q (none ∷ ps) (even, s) =
      keep_nil-Slots i q (trim_list ps) even (trim_list-Slots (suc i) (q / 2) ps s)
  trim_list-Slots i q (some v ∷ ps) (odd, e, s) = (odd, e, trim_list-Slots (suc i) (q / 2) ps s)

  -- The loop of `GetIntermediate` finds two subtrees where the slots up to the height are full.
  abbrev pub found : ℕ → ℕ → ℕ → Option (Hash × Hash)
  found i d q =
      if full d q
      then some (some (block (i + d) (halved d q - 1)), some (block (i + d) (halved d q)))
      else none

  pub intermediate_loop-found :
      (i d q height : ℕ) (ps : List Hash)
      → height ≡ i + suc d
      → Slots i q ps
      → intermediate_loop sum ps i (some (block i q)) height ≡ found i d q
  unfolding intermediate_loop
  intermediate_loop-found i d q height [] h s = rw (full-even d q (omega (arith, s))) refl
  intermediate_loop-found i d q height (none ∷ ps) h (even, s) = rw (full-even d q even) refl
  intermediate_loop-found i zero q height (some v ∷ ps) h (odd, e, s) =
      let at : (i + 1 == height) ≡ true = ground (arith, h) in
      let bit : (q % 2 == 1) ≡ true = ground (arith, odd) in
      let level : i + 0 ≡ i = omega arith in rw (at, bit, level, e) refl
  intermediate_loop-found i (suc d) q height (some v ∷ ps) h (odd, e, s) =
      let past : (i + 1 == height) ≡ false = ground (arith, h) in
      let bit : (q % 2 == 1) ≡ true = ground (arith, odd) in
      let next : i + 1 ≡ suc i = omega arith in
      let level : i + suc d ≡ suc i + d = omega arith in
      let hash : sum (v ++ block i q) ≡ block (suc i) (q / 2) =
        ap (λ x. sum (x ++ block i q)) e ∙ block-pair i q odd in
      rw (past, bit, next, level, hash)
        (intermediate_loop-found (suc i) d (q / 2) height ps (omega (arith, h)) s)
