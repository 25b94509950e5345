-- ===== src/Bpt/Canonical.antt =====
-- One map has one tree.
use accumulate.Common.{
  ◌≤◌, ◌≡◌, inl, inr, refl, ap, sym, ◌∙◌, [], ◌∷◌, none, some, Bool, true, false, length, arith,
  Bool-cases, Option-cases, not,
}
use mathlib.Core.Path.{subst}
use accumulate.Common.Bytes.{Bytes, equal_bytes, equal_bytes→eq, equal_bytes_refl}
use accumulate.Bpt.{BptNode, Entry, nil, value, node, goes_left, pick}
use accumulate.Bpt.Keys.{Way}
use accumulate.Bpt.Trie.{
  find, count, IsEntry, IsNode, find-pick, find-On, IsEntry-pick, member, other_member,
}

-- What is computed from the values and not kept in them is left out: keys of nodes, hashes and marks.
abbrev pub bare_node : BptNode → BptNode
bare_node n = record { height = n.height; node_key = []; hash = []; dirty = false }

unfoldable pub bare : Entry → Entry
bare nil = nil
bare (value k h) = value k h
bare (node n l r) = node (bare_node n) (bare l) (bare r)

abbrev pub SameMap : Entry → Entry → Type 0
SameMap a b = (k : Bytes) → find a k ≡ find b k

same_bit : Bool → Bool → Bool
same_bit true b = b
same_bit false b = not b

same_bit→eq : (a b : Bool) → same_bit a b ≡ true → a ≡ b
unfolding same_bit
same_bit→eq true true h = refl
same_bit→eq true false h = cc
same_bit→eq false true h = cc
same_bit→eq false false h = refl

same_bit_refl : (b : Bool) → same_bit b b ≡ true
unfolding same_bit
same_bit_refl true = refl
same_bit_refl false = refl

-- A way's key is looked up in one subtree, and no other key has a value there.
find-below_same :
    (p : Way) (n m : BptNode) (l r l' r' : Entry) (b : Bool)
    → IsNode p (node n l r)
    → IsNode p (node m l' r')
    → SameMap (node n l r) (node m l' r')
    → SameMap (pick b l r) (pick b l' r')
find-below_same p n m l r l' r' b t u same_ k =
    elim (Bool-cases (same_bit (goes_left k (length p)) b)) [
      | inl e ↦
          let way = same_bit→eq _ _ e in
          sym (find-pick n l r k b (ap (goes_left k) t.0 ∙ way))
          ∙ same_ k
          ∙ find-pick m l' r' k b (ap (goes_left k) u.0 ∙ way)
      | inr e ↦
          let off : (x : Entry) → IsEntry (b ∷ p) x → find x k ≡ none = λ x v.
            elim (Option-cases (find x k)) [
              | inl z ↦ z
              | inr (h, f) ↦
                  let (key, on) = find-On (b ∷ p) x k h v f in
                  absurd (cc (rw (on.0, same_bit_refl b) at e))
            ] in
          off _ (IsEntry-pick p n l r b t) ∙ sym (off _ (IsEntry-pick p m l' r' b u))
    ]

no_value : (p : Way) (e : Entry) → IsEntry p e → 1 ≤ count e → ((k : Bytes) → find e k ≡ none) → ⊥
no_value p e t c h = let (k, v, f) = member p e t c in cc (f, h k)

one_value :
    (p : Way) (e : Entry) (j w : Bytes) → IsEntry p e → 2 ≤ count e → SameMap e (value j w) → ⊥
unfolding find
one_value p e j w t c same_ =
    let (k, v, f, differs) = other_member p e j t c in
    let missing : find e k ≡ none = same_ k ∙ rw differs refl in cc (f, missing)

-- Trees at the end of one way that have the same value for each key are the same, but for what is
-- computed from the values.
pub SameMap-bare :
    (p : Way) (a b : Entry) → IsEntry p a → IsEntry p b → SameMap a b → bare a ≡ bare b
unfolding bare find count
SameMap-bare p nil nil t u same_ = refl
SameMap-bare p nil (value k h) t u same_ = absurd (cc (same_ k, equal_bytes_refl k))
SameMap-bare p nil (node n l r) t u same_ =
    absurd (no_value p (node n l r) u (omega (arith, u.1)) (λ k. sym (same_ k)))
SameMap-bare p (value k h) nil t u same_ = absurd (no_value p (value k h) t (omega arith) same_)
SameMap-bare p (value k h) (value j w) t u same_ = elim (Bool-cases (equal_bytes k j)) [
  | inl e ↦
      let found : some h ≡ some w = rw (equal_bytes_refl k, e) at (same_ k) in
      let key = equal_bytes→eq k j e in cc
  | inr e ↦ absurd (cc (rw (equal_bytes_refl k, e) at (same_ k)))
]
SameMap-bare p (value k h) (node n l r) t u same_ =
    absurd (one_value p (node n l r) k h u u.1 (λ j. sym (same_ j)))
SameMap-bare p (node n l r) nil t u same_ =
    absurd (no_value p (node n l r) t (omega (arith, t.1)) same_)
SameMap-bare p (node n l r) (value k h) t u same_ =
    absurd (one_value p (node n l r) k h t t.1 same_)
SameMap-bare p (node n l r) (node m l' r') (high, two, tl, rt) (high', two', tl', rt') same_ =
    let left =
      SameMap-bare (true ∷ p) l l' tl tl'
        (find-below_same p n m l r l' r' true (high, tl, rt) (high', tl', rt') same_) in
    let right =
      SameMap-bare (false ∷ p) r r' rt rt'
        (find-below_same p n m l r l' r' false (high, tl, rt) (high', tl', rt') same_) in
    let height : n.height ≡ m.height = high ∙ sym high' in rw (left, right, height) refl

-- The map, the number of values and the form of a tree do not depend on what is computed.
pub find-bare : (e : Entry) (k : Bytes) → find (bare e) k ≡ find e k
unfolding find bare
find-bare nil k = refl
find-bare (value j h) k = refl
find-bare (node n l r) k = rw (find-bare l k, find-bare r k) refl

pub count-bare : (e : Entry) → count (bare e) ≡ count e
unfolding count bare
count-bare nil = refl
count-bare (value j h) = refl
count-bare (node n l r) = rw (count-bare l, count-bare r) refl

bare-IsEntry : (p : Way) (e : Entry) → IsEntry p e → IsEntry p (bare e)
unfolding bare
bare-IsEntry p nil t = t
bare-IsEntry p (value k h) t = t
bare-IsEntry p (node n l r) t = (
  t.0,
  omega (arith, count-bare l, count-bare r, t.1),
  bare-IsEntry (true ∷ p) l t.2,
  bare-IsEntry (false ∷ p) r t.3,
)

of_bare-IsEntry : (p : Way) (e : Entry) → IsEntry p (bare e) → IsEntry p e
unfolding bare
of_bare-IsEntry p nil t = t
of_bare-IsEntry p (value k h) t = t
of_bare-IsEntry p (node n l r) t = (
  t.0,
  omega (arith, count-bare l, count-bare r, t.1),
  of_bare-IsEntry (true ∷ p) l t.2,
  of_bare-IsEntry (false ∷ p) r t.3,
)

bare-IsNode : (p : Way) (e : Entry) → IsNode p e → IsNode p (bare e)
unfolding bare
bare-IsNode p nil t = t
bare-IsNode p (value k h) t = t
bare-IsNode p (node n l r) t = (t.0, bare-IsEntry (true ∷ p) l t.1, bare-IsEntry (false ∷ p) r t.2)

of_bare-IsNode : (p : Way) (e : Entry) → IsNode p (bare e) → IsNode p e
unfolding bare
of_bare-IsNode p nil t = t
of_bare-IsNode p (value k h) t = t
of_bare-IsNode p (node n l r) t =
    (t.0, of_bare-IsEntry (true ∷ p) l t.1, of_bare-IsEntry (false ∷ p) r t.2)

pub same_values-IsNode : (p : Way) (a b : Entry) → bare b ≡ bare a → IsNode p a → IsNode p b
same_values-IsNode p a b e t = of_bare-IsNode p b (subst (IsNode p) (sym e) (bare-IsNode p a t))

pub same_values-find : (a b : Entry) (k : Bytes) → bare b ≡ bare a → find b k ≡ find a k
same_values-find a b k e = sym (find-bare b k) ∙ ap (λ x. find x k) e ∙ find-bare a k

pub same_values-count : (a b : Entry) → bare b ≡ bare a → count b ≡ count a
same_values-count a b e = sym (count-bare b) ∙ ap count e ∙ count-bare a

-- The same for two trees from the root.
pub SameMap-bare_node :
    (p : Way) (a b : Entry) → IsNode p a → IsNode p b → SameMap a b → bare a ≡ bare b
unfolding bare
SameMap-bare_node p nil b t u same_ = absurd t
SameMap-bare_node p (value k h) b t u same_ = absurd t
SameMap-bare_node p (node n l r) nil t u same_ = absurd u
SameMap-bare_node p (node n l r) (value k h) t u same_ = absurd u
SameMap-bare_node p (node n l r) (node m l' r') t u same_ =
    let left =
      SameMap-bare (true ∷ p) l l' t.1 u.1 (find-below_same p n m l r l' r' true t u same_) in
    let right =
      SameMap-bare (false ∷ p) r r' t.2 u.2 (find-below_same p n m l r l' r' false t u same_) in
    let height : n.height ≡ m.height = t.0 ∙ sym u.0 in rw (left, right, height) refl
