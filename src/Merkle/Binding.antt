-- ===== src/Merkle/Binding.antt =====
-- The root of a list binds its elements, unless the digest has a collision.
use accumulate.Common.{ℕ, zero, suc, ◌*◌, ◌^◌, ◌≤◌, ◌<◌, List, [], ◌∷◌, ◌++◌, map, some}
use accumulate.Common.{◌≡◌, ◌≢◌, refl, ap, sym, arith, length, ◌∙◌, ◌⊎◌, inl, inr}
use accumulate.Common.{take, drop, All, Bool-cases, All-take-drop}
use accumulate.Common.{length-take-drop, length-take_le, take-append-drop, take-append, drop-append}
use accumulate.Common.Bytes.{Bytes, equal_bytes, equal_bytes→eq, equal_bytes_refl}
use accumulate.Merkle.Hash.{bytes}
use accumulate.Merkle.State.{empty, get_md_root, add_all}
use accumulate.Merkle.Root.{split_from, list_root_fuel, list_root, get_md_root-add_all}

-- Two inputs of the digest with one output.
pub record Collision (sum : Bytes → Bytes) : Type 0 where
  pub first : Bytes
  pub second : Bytes
  pub differ : first ≢ second
  pub same : sum first ≡ sum second

abbrev pub IsHash : Bytes → Type 0
IsHash b = length b ≡ 32

-- Equal digests come from equal inputs, or are a collision.
pub injective_or_Collision :
    (sum : Bytes → Bytes) (x y : Bytes) → sum x ≡ sum y → (x ≡ y) ⊎ Collision sum
injective_or_Collision sum x y e = elim (Bool-cases (equal_bytes x y)) [
  | inl same ↦ inl (equal_bytes→eq x y same)
  | inr other ↦ inr (record {
    first = x;
    second = y;
    differ = λ p. cc (other, ap (equal_bytes x) p, equal_bytes_refl x);
    same = e;
  })
]

-- Two concatenations with left parts of one length are equal part by part.
pub append_parts : (a b c d : Bytes) → length a ≡ length c → a ++ b ≡ c ++ d → (a ≡ c) × (b ≡ d)
append_parts a b c d h e = (
  sym (take-append (length a) a b refl)
      ∙ ap (take (length a)) e
      ∙ take-append (length a) c d (sym h),
  sym (drop-append (length a) a b refl)
      ∙ ap (drop (length a)) e
      ∙ drop-append (length a) c d (sym h),
)

-- The split point lies strictly inside.
split_from_bounds :
    (fuel k n : ℕ) → 0 < k → k < n → (0 < split_from fuel k n) × (split_from fuel k n < n)
unfolding split_from
split_from_bounds zero k n p h = (p, h)
split_from_bounds (suc fuel) k n p h = ground (arith, split_from_bounds fuel (2 * k) n)

module _ (sum : Bytes → Bytes) (sized : (b : Bytes) → length (sum b) ≡ 32) where
  pub length-list_root_fuel :
      (fuel : ℕ) (hs : List Bytes)
      → 0 < length hs
      → length hs ≤ fuel
      → All IsHash hs
      → length (bytes (list_root_fuel sum fuel hs)) ≡ 32
  unfolding list_root_fuel
  length-list_root_fuel zero hs p h a = absurd (omega arith)
  length-list_root_fuel (suc fuel) [] p h a = absurd (omega arith)
  length-list_root_fuel (suc fuel) (x ∷ []) p h a = a.0
  length-list_root_fuel (suc fuel) (x ∷ y ∷ hs) p h a = sized _

  -- The claim for lists that one round of fuel less suffices for.
  abbrev Binds : ℕ → Type 0
  Binds fuel =
      (hs ks : List Bytes)
      → length hs ≡ length ks
      → length hs ≤ fuel
      → All IsHash hs
      → All IsHash ks
      → bytes (list_root_fuel sum fuel hs) ≡ bytes (list_root_fuel sum fuel ks)
      → (hs ≡ ks) ⊎ Collision sum

  module _ (fuel m : ℕ) (binds : Binds fuel) (hs ks : List Bytes) (l : length hs ≡ length ks) where
    halves_equal :
        0 < m
        → m < length hs
        → length hs ≤ suc fuel
        → All IsHash hs
        → All IsHash ks
        → bytes (list_root_fuel sum fuel (take m hs)) ≡ bytes (list_root_fuel sum fuel (take m ks))
        → bytes (list_root_fuel sum fuel (drop m hs)) ≡ bytes (list_root_fuel sum fuel (drop m ks))
        → (hs ≡ ks) ⊎ Collision sum
    halves_equal p q h a b el er =
        let dh = length-take-drop m hs in
        let dk = length-take-drop m ks in
        let th = length-take_le m hs (omega arith) in
        let tk = length-take_le m ks (omega arith) in
        let left =
          binds (take m hs) (take m ks) (omega arith) (omega arith) (All-take-drop IsHash m hs a).0
            (All-take-drop IsHash m ks b).0 el in
        let right =
          binds (drop m hs) (drop m ks) (omega arith) (omega arith) (All-take-drop IsHash m hs a).1
            (All-take-drop IsHash m ks b).1 er in
        elim left [
          | inr c ↦ inr c
          | inl eqs ↦ elim right [
            | inr c ↦ inr c
            | inl eqd ↦ inl (cc (take-append-drop m hs, take-append-drop m ks, eqs, eqd))
          ]
        ]

    node_binds :
        0 < m
        → m < length hs
        → length hs ≤ suc fuel
        → All IsHash hs
        → All IsHash ks
        → sum (
            bytes (list_root_fuel sum fuel (take m hs))
            ++ bytes (list_root_fuel sum fuel (drop m hs)))
          ≡ sum (
              bytes (list_root_fuel sum fuel (take m ks))
              ++ bytes (list_root_fuel sum fuel (drop m ks)))
        → (hs ≡ ks) ⊎ Collision sum
    node_binds p q h a b e =
        let th = length-take_le m hs (omega arith) in
        let tk = length-take_le m ks (omega arith) in
        let same_length : length (bytes (list_root_fuel sum fuel (take m hs)))
            ≡ length (bytes (list_root_fuel sum fuel (take m ks))) =
          length-list_root_fuel fuel (take m hs) (omega arith) (omega arith)
            (All-take-drop IsHash m hs a).0
          ∙ sym (
              length-list_root_fuel fuel (take m ks) (omega arith) (omega arith)
                (All-take-drop IsHash m ks b).0) in
        elim (injective_or_Collision sum _ _ e) [
          | inr c ↦ inr c
          | inl same ↦
              (let parts = append_parts _ _ _ _ same_length same in
                halves_equal p q h a b parts.0 parts.1)
        ]

  list_root_fuel-Binds : (fuel : ℕ) → Binds fuel
  unfolding list_root_fuel
  list_root_fuel-Binds zero [] [] l h a b e = inl refl
  list_root_fuel-Binds zero [] (k ∷ ks) l h a b e = absurd (omega arith)
  list_root_fuel-Binds zero (x ∷ hs) ks l h a b e = absurd (omega arith)
  list_root_fuel-Binds (suc fuel) [] [] l h a b e = inl refl
  list_root_fuel-Binds (suc fuel) [] (k ∷ ks) l h a b e = absurd (omega arith)
  list_root_fuel-Binds (suc fuel) (x ∷ hs) [] l h a b e = absurd (omega arith)
  list_root_fuel-Binds (suc fuel) (x ∷ []) (k ∷ []) l h a b e = inl (ap (λ t. t ∷ []) e)
  list_root_fuel-Binds (suc fuel) (x ∷ []) (k ∷ q ∷ ks) l h a b e = absurd (omega arith)
  list_root_fuel-Binds (suc fuel) (x ∷ y ∷ hs) (k ∷ []) l h a b e = absurd (omega arith)
  list_root_fuel-Binds (suc fuel) (x ∷ y ∷ hs) (k ∷ q ∷ ks) l h a b e =
      let n = length (x ∷ y ∷ hs) in
      let m = split_from n 1 n in
      let inside : (0 < m) × (m < n) = split_from_bounds n 1 n (omega arith) (omega arith) in
      let same : length (k ∷ q ∷ ks) ≡ n = sym l in
      node_binds fuel m (list_root_fuel-Binds fuel) (x ∷ y ∷ hs) (k ∷ q ∷ ks) l inside.0 inside.1 h
        a b (rw same at e)

  -- Two states built from empty ones by the same number of 32-byte hashes (fewer than 2^64) that
  -- have the same root were given the same hashes in the same order, or the digest, whose outputs
  -- have 32 bytes, has a collision.
  pub get_md_root_binds :
      (hs ks : List Bytes)
      → length hs ≡ length ks
      → length hs < 2 ^ 64
      → All IsHash hs
      → All IsHash ks
      → get_md_root sum (add_all sum empty (map some hs))
        ≡ get_md_root sum (add_all sum empty (map some ks))
      → (hs ≡ ks) ⊎ Collision sum
  unfolding list_root
  get_md_root_binds hs ks l bound a b e =
      let roots_equal : list_root sum hs ≡ list_root sum ks =
        sym (get_md_root-add_all sum hs bound)
        ∙ e
        ∙ get_md_root-add_all sum ks (omega (arith, l)) in
      list_root_fuel-Binds (length hs) hs ks l (omega arith) a b
        (ap bytes (rw (sym l) at roots_equal))
