-- ===== src/Merkle/Manager/Adding.antt =====
-- `AddHash` keeps the records those of a chain, with one element more or the same.
use accumulate.Common.{
  ℕ, zero, suc, ◌+◌, ◌-◌, ◌%◌, ◌^◌, ◌<◌, ◌≡◌, inl, inr, refl, ap, sym, ◌∙◌, List, [], ◌∷◌, ◌++◌,
  map, none, some, Bool, true, false, ◌==◌, arith, if◌then◌else◌, length, drop, Bool-cases,
  Option-cases, length-append, ==_iff,
}
use accumulate.Common.Slices.{get_elem?-append_last}
use accumulate.Common.Bytes.{Bytes}
use accumulate.Merkle.State.{add_to_merkle_tree, add_all}
use accumulate.Merkle.Manager.{Chain, clear, new_chain, append_hash, add_hash, put_at, put_index}
use accumulate.Merkle.Manager.Holds.{
  recent, first_index, state_at, is_mark, Holds, last_mark-suc_first, suc-mod_cases,
}
use accumulate.Merkle.Manager.Next.{
  first_index-append_missing, first_index-append_there, MerkleState-ext, state_at-append_first,
  state_at-append, states-append,
}

-- The elements after `AddHash`: a unique hash that is there already is not added.
unfoldable pub added : Bool → Bytes → List Bytes → List Bytes
unfolding first_index
added unique h hs = elim (first_index h hs) [
  | none ↦ hs ++ h ∷ []
  | some i ↦ if unique then hs else hs ++ h ∷ []
]

module _ (sum : Bytes → Bytes) (p : ℕ) (frequent : 1 < 2 ^ p) where
  append_hash-mark :
      (c : Chain) (hs : List Bytes) (h : Bytes)
      → suc (length hs) < 2 ^ 64
      → c.head ≡ state_at sum p hs
      → suc (length hs) % 2 ^ p ≡ 0
      → append_hash sum p c h ≡ record c {
        element = put_at c.element (length hs) h;
        head = state_at sum p (hs ++ h ∷ []);
        states = put_at c.states (length hs) (state_at sum p (hs ++ h ∷ []));
      }
  unfolding append_hash
  append_hash-mark c hs h bound e at =
      let n : c.head.count ≡ length hs = ap (λ m. m.count) e ∙ (unfold state_at in refl) in
      let next : (c.head.count + 1) % 2 ^ 64 ≡ suc (length hs) = omega (arith, n) in
      let off : length hs % 2 ^ p ≡ 0 → ⊥ = λ z.
        elim (suc-mod_cases (length hs) (2 ^ p) (omega (arith, frequent))) [
          | inl (a, b) ↦ omega (arith, frequent)
          | inr (a, b) ↦ omega arith
        ] in
      let added_ =
        ap (λ m. add_to_merkle_tree sum m (some h)) e
        ∙ state_at-append sum p frequent hs h bound off in
      let count : (state_at sum p (hs ++ h ∷ [])).count ≡ suc (length hs) =
        unfold state_at in omega (arith, length-append hs (h ∷ [])) in
      let index : (suc (length hs) + (2 ^ 64 - 1)) % 2 ^ 64 ≡ length hs = omega arith in
      rw (next, at, added_, n, count, index) refl

  append_hash-between :
      (c : Chain) (hs : List Bytes) (h : Bytes)
      → suc (length hs) < 2 ^ 64
      → c.head ≡ state_at sum p hs
      → (suc (length hs) % 2 ^ p ≡ 0 → ⊥)
      → append_hash sum p c h ≡ record c {
        element = put_at c.element (length hs) h;
        head = state_at sum p (hs ++ h ∷ []);
      }
  unfolding append_hash
  append_hash-between c hs h bound e off =
      let n : c.head.count ≡ length hs = ap (λ m. m.count) e ∙ (unfold state_at in refl) in
      let next : (c.head.count + 1) % 2 ^ 64 ≡ suc (length hs) = omega (arith, n) in
      let t : (suc (length hs) % 2 ^ p == 0) ≡ false = ground (arith, off) in
      elim (Bool-cases (length hs % 2 ^ p == 0)) [
        | inl z ↦
            let at = (==_iff (length hs % 2 ^ p) 0).0 z in
            let first : (suc (length hs) % 2 ^ p == 1) ≡ true =
              ground (arith, (last_mark-suc_first (2 ^ p) (length hs) frequent at).1) in
            let added_ =
              ap (λ m. add_to_merkle_tree sum (clear m) (some h)) e
              ∙ state_at-append_first sum p frequent hs h bound at in
            rw (next, t, first, added_, n) refl
        | inr z ↦
            let away : length hs % 2 ^ p ≡ 0 → ⊥ = λ e. ground (arith, e, z) in
            let later : (suc (length hs) % 2 ^ p == 1) ≡ false =
              elim (suc-mod_cases (length hs) (2 ^ p) (omega (arith, frequent))) [
                | inl (a, b) ↦ ground (arith, a)
                | inr (a, b) ↦ ground (arith, a, away)
              ] in
            let added_ =
              ap (λ m. add_to_merkle_tree sum m (some h)) e
              ∙ state_at-append sum p frequent hs h bound away in
            rw (next, t, later, added_, n) refl
      ]

  append_hash-Holds :
      (c : Chain) (hs : List Bytes) (h : Bytes)
      → suc (length hs) < 2 ^ 64
      → Holds sum p (record c { element_index = λ g. first_index g hs }) hs
      → ((g : Bytes) → c.element_index g ≡ first_index g (hs ++ h ∷ []))
      → Holds sum p (append_hash sum p c h) (hs ++ h ∷ [])
  unfolding put_at state_at is_mark
  append_hash-Holds c hs h bound holds index = elim (Bool-cases (suc (length hs) % 2 ^ p == 0)) [
    | inl z ↦
        let at = (==_iff (suc (length hs) % 2 ^ p) 0).0 z in
        rw (append_hash-mark c hs h bound holds.head_eq at) (record {
          head_eq = refl;
          states_eq = λ i.
              rw (states-append sum p frequent hs h i, z, holds.states_eq) (unfold put_at in refl);
          element_eq =
              λ i. rw (get_elem?-append_last hs h i, holds.element_eq) (unfold put_at in refl);
          index_eq = index;
        })
    | inr z ↦
        let off : suc (length hs) % 2 ^ p ≡ 0 → ⊥ = λ e. ground (arith, e, z) in
        rw (append_hash-between c hs h bound holds.head_eq off) (record {
          head_eq = refl;
          states_eq = λ i. rw (states-append sum p frequent hs h i, z) (holds.states_eq i);
          element_eq =
              λ i. rw (get_elem?-append_last hs h i, holds.element_eq) (unfold put_at in refl);
          index_eq = index;
        })
  ]

  -- The index is not among the records that an element's place decides.
  shared :
      {c : Chain} {hs : List Bytes}
      → Holds sum p c hs
      → Holds sum p (record c { element_index = λ g. first_index g hs }) hs
  shared holds = record {
    head_eq = holds.head_eq;
    states_eq = holds.states_eq;
    element_eq = holds.element_eq;
    index_eq = λ g. refl;
  }

  -- `AddHash` on the records of a chain with fewer than 2^63 - 1 elements gives those of the chain
  -- with the hash at the end; a unique hash that is an element already changes nothing.
  pub add_hash-Holds :
      (c : Chain) (hs : List Bytes) (h : Bytes) (unique : Bool)
      → suc (length hs) < 2 ^ 63
      → Holds sum p c hs
      → Holds sum p (add_hash sum p c h unique) (added unique h hs)
  unfolding add_hash added
  add_hash-Holds c hs h unique bound holds = elim (Option-cases (first_index h hs)) [
    | inl missing ↦
        let n : c.head.count ≡ length hs =
          ap (λ m. m.count) holds.head_eq ∙ (unfold state_at in refl) in
        rw (holds.index_eq, missing, add_hash, added)
          (append_hash-Holds (record c { element_index = put_index c.element_index h c.head.count })
            hs h (omega arith) (shared holds)
            (λ g. rw n (first_index-append_missing g h hs c missing (holds.index_eq g))))
    | inr (i, there) ↦
        rw (holds.index_eq, there, add_hash, added)
          (elim (Bool-cases unique) [
            | inl t ↦ rw t holds
            | inr f ↦ rw f (
                append_hash-Holds c hs h (omega arith) (shared holds)
                  (λ g. holds.index_eq g ∙ sym (first_index-append_there g h hs i there)))
          ])
  ]

  -- A chain without records has no elements.
  pub new_chain-Holds : Holds sum p new_chain []
  unfolding state_at is_mark first_index recent add_all
  new_chain-Holds = record {
    head_eq = MerkleState-ext _ _ refl refl (ap (map some) (sym (drop_nil _)));
    states_eq = λ i. ground arith;
    element_eq = λ i. refl;
    index_eq = λ h. refl;
  }
    where
      drop_nil : (n : ℕ) → drop {A = Bytes} n [] ≡ []
      drop_nil zero = refl
      drop_nil (suc n) = refl
