-- ===== src/Merkle/Receipt/Soundness.antt =====
-- A valid receipt for the root of a list proves that its start is a hash of the tree.
use accumulate.Common.{List, [], ◌∷◌, ◌++◌, true, false, ◌≡◌, refl, ap}
use accumulate.Common.{
  arith, ◌∙◌, sym, Bool-cases, ◌⊎◌, inl, inr, length, All, All-append, All-append_left,
  All-append_right,
}
use mathlib.Core.List.{reverse, reverse-cons}
use accumulate.Common.Bytes.{Bytes}
use accumulate.Merkle.Hash.{Hash, bytes}
use accumulate.Merkle.Forest.{Tree, leaf, node, leaves, root}
use accumulate.Merkle.Binding.{Collision, IsHash, injective_or_Collision, append_parts}
use accumulate.Merkle.Receipt.{Receipt, ReceiptEntry, apply, follow, validate}
use accumulate.Merkle.Receipt.Combine.{validate→bytes}

module _ (sum : Bytes → Bytes) where
  -- The hash is the root of a subtree: an element, or a hash computed from elements.
  abbrev pub Occurs : Bytes → Tree → Type 0
  Occurs b (leaf h) = b ≡ h
  Occurs b (node l r) = (b ≡ root sum (node l r)) ⊎ (Occurs b l ⊎ Occurs b r)

  -- An element is itself the digest of two hashes, so a path can go on below it.
  abbrev pub HasDigestLeaf : Tree → Type 0
  HasDigestLeaf (leaf h) = (a b : Bytes) × IsHash a × IsHash b × (sum (a ++ b) ≡ h)
  HasDigestLeaf (node l r) = HasDigestLeaf l ⊎ HasDigestLeaf r

  abbrev Sized : List ReceiptEntry → Type 0
  Sized = All (λ n. IsHash (bytes n.hash))

  Occurs-root : (t : Tree) → Occurs (root sum t) t
  unfolding root
  Occurs-root (leaf h) = refl
  Occurs-root (node l r) = inl refl

  -- The path from its last entry on.
  climb : List ReceiptEntry → Hash → Hash
  climb [] h = h
  climb (n ∷ ns) h = apply sum n (climb ns h)

  climb-append : (ns ms : List ReceiptEntry) (h : Hash) → climb (ns ++ ms) h ≡ climb ns (climb ms h)
  unfolding climb
  climb-append [] ms h = refl
  climb-append (n ∷ ns) ms h = ap (apply sum n) (climb-append ns ms h)

  climb-reverse : (ns : List ReceiptEntry) (h : Hash) → climb (reverse ns) h ≡ follow sum ns h
  unfolding follow climb
  climb-reverse [] h = refl
  climb-reverse (n ∷ ns) h =
      ap (λ t. climb t h) (reverse-cons n ns)
      ∙ climb-append (reverse ns) (n ∷ []) h
      ∙ climb-reverse ns (apply sum n h)

  Sized-reverse : (ns : List ReceiptEntry) → Sized ns → Sized (reverse ns)
  Sized-reverse [] h = tt
  Sized-reverse (n ∷ ns) h = rw reverse-cons (
      All-append (λ (m : ReceiptEntry). IsHash (bytes m.hash)) (reverse ns) (n ∷ [])
        (Sized-reverse ns h.1) (h.0, tt))

  module _ (sized : (b : Bytes) → length (sum b) ≡ 32) where
    length-root : (t : Tree) → All IsHash (leaves t) → length (root sum t) ≡ 32
    unfolding root leaves
    length-root (leaf h) a = a.0
    length-root (node l r) a = sized _

    length-climb :
        (ns : List ReceiptEntry) (h : Hash) → IsHash (bytes h) → IsHash (bytes (climb ns h))
    unfolding climb apply
    length-climb [] h s = s
    length-climb (n ∷ ns) h s = ground (
      arith,
      sized (bytes (climb ns h) ++ bytes n.hash),
      sized (bytes n.hash ++ bytes (climb ns h)),
    )

    abbrev pub Proven : Bytes → Tree → Type 0
    Proven b t = Occurs b t ⊎ (HasDigestLeaf t ⊎ Collision sum)

    from_left : (b : Bytes) (l r : Tree) → Proven b l → Proven b (node l r)
    from_left b l r (inl o) = inl (inr (inl o))
    from_left b l r (inr (inl d)) = inr (inl (inl d))
    from_left b l r (inr (inr c)) = inr (inr c)

    from_right : (b : Bytes) (l r : Tree) → Proven b r → Proven b (node l r)
    from_right b l r (inl o) = inl (inr (inr o))
    from_right b l r (inr (inl d)) = inr (inl (inr d))
    from_right b l r (inr (inr c)) = inr (inr c)

    apply_cases :
        (n : ReceiptEntry) (h : Hash)
        → ((n.right ≡ true) × (bytes (apply sum n h) ≡ sum (bytes h ++ bytes n.hash)))
          ⊎ ((n.right ≡ false) × (bytes (apply sum n h) ≡ sum (bytes n.hash ++ bytes h)))
    unfolding apply
    apply_cases n h = elim (Bool-cases n.right) [
      | inl e ↦ inl (e, rw e refl)
      | inr e ↦ inr (e, rw e refl)
    ]

    -- Two hashes whose digest is the root of a node are the roots of its parts.
    node_parts :
        (a b : Bytes) (l r : Tree)
        → IsHash a
        → All IsHash (leaves (node l r))
        → sum (a ++ b) ≡ root sum (node l r)
        → ((a ≡ root sum l) × (b ≡ root sum r)) ⊎ Collision sum
    unfolding root leaves
    node_parts a b l r z all e = elim (injective_or_Collision sum _ _ e) [
      | inr c ↦ inr c
      | inl same ↦ inl (
          append_parts a b (root sum l) (root sum r)
            (z ∙ sym (length-root l (All-append_left IsHash (leaves l) (leaves r) all))) same)
    ]

    leaves_left : (l r : Tree) → All IsHash (leaves (node l r)) → All IsHash (leaves l)
    unfolding leaves
    leaves_left l r a = All-append_left IsHash (leaves l) (leaves r) a

    leaves_right : (l r : Tree) → All IsHash (leaves (node l r)) → All IsHash (leaves r)
    unfolding leaves
    leaves_right l r a = All-append_right IsHash (leaves l) (leaves r) a

    climb-Proven :
        (ns : List ReceiptEntry) (h : Hash) (t : Tree)
        → Sized ns
        → IsHash (bytes h)
        → All IsHash (leaves t)
        → bytes (climb ns h) ≡ root sum t
        → Proven (bytes h) t
    unfolding climb root
    climb-Proven [] h t s z a e = inl (rw e (Occurs-root t))
    climb-Proven (n ∷ ns) h (leaf k) s z a e =
        let inner : IsHash (bytes (climb ns h)) = length-climb ns h z in
        elim (apply_cases n (climb ns h)) [
          | inl (_, p) ↦ inr (inl (bytes (climb ns h), bytes n.hash, inner, s.0, sym p ∙ e))
          | inr (_, p) ↦ inr (inl (bytes n.hash, bytes (climb ns h), s.0, inner, sym p ∙ e))
        ]
    climb-Proven (n ∷ ns) h (node l r) s z a e =
        let inner : IsHash (bytes (climb ns h)) = length-climb ns h z in
        elim (apply_cases n (climb ns h)) [
          | inl (_, p) ↦
              elim (node_parts (bytes (climb ns h)) (bytes n.hash) l r inner a (sym p ∙ e)) [
                | inr c ↦ inr (inr c)
                | inl (q, _) ↦
                    from_left (bytes h) l r (climb-Proven ns h l s.1 z (leaves_left l r a) q)
              ]
          | inr (_, p) ↦
              elim (node_parts (bytes n.hash) (bytes (climb ns h)) l r s.0 a (sym p ∙ e)) [
                | inr c ↦ inr (inr c)
                | inl (_, q) ↦
                    from_right (bytes h) l r (climb-Proven ns h r s.1 z (leaves_right l r a) q)
              ]
        ]

    -- A valid receipt of 32-byte hashes, whose anchor is the root of a tree over 32-byte hashes,
    -- starts at a hash of that tree, or some element of the tree is the digest of two hashes, or
    -- the digest, whose outputs have 32 bytes, has a collision.
    pub validate-Proven :
        (r : Receipt) (t : Tree)
        → validate sum r ≡ true
        → bytes r.anchor ≡ root sum t
        → IsHash (bytes r.start)
        → Sized r.entries
        → All IsHash (leaves t)
        → Proven (bytes r.start) t
    validate-Proven r t v e z s a =
        climb-Proven (reverse r.entries) r.start t (Sized-reverse r.entries s) z a
          (ap bytes (climb-reverse r.entries r.start) ∙ validate→bytes sum r v ∙ e)
