-- ===== src/Bpt/Trie.antt =====
-- What a tree holds, and which trees are Patricia trees.
use accumulate.Common.{
  ℕ, zero, suc, ◌+◌, ◌≤◌, ◌≡◌, ◌≢◌, ◌⊎◌, inl, inr, refl, ap, sym, ◌∙◌, ◌∷◌, Option, none, some,
  Bool, true, false, ◌==◌, if◌then◌else◌, length, arith, Bool-cases,
}
use accumulate.Common.Bytes.{Bytes, equal_bytes, equal_bytes→eq, equal_bytes_refl}
use accumulate.Bpt.{BptNode, Entry, nil, value, node, goes_left, pick}
use accumulate.Bpt.Keys.{IsKey, Way, On}

-- The value of a key.
unfoldable pub find : Entry → Bytes → Option Bytes
find nil k = none
find (value j h) k = if equal_bytes k j then some h else none
find (node n l r) k = if goes_left k n.height then find l k else find r k

-- The number of values.
unfoldable pub count : Entry → ℕ
count nil = 0
count (value k h) = 1
count (node n l r) = count l + count r

-- An entry at the end of a way: the height of a node is the length of the way, a value's key is on
-- its way, and a node has more than one value.
abbrev pub IsEntry : Way → Entry → Type 0
IsEntry p nil = Unit
IsEntry p (value k h) = IsKey k × On p k
IsEntry p (node n l r) =
    (n.height ≡ length p) × (2 ≤ count l + count r) × IsEntry (true ∷ p) l × IsEntry (false ∷ p) r

-- A node that may have fewer values, such as the root.
abbrev pub IsNode : Way → Entry → Type 0
IsNode p nil = ⊥
IsNode p (value k h) = ⊥
IsNode p (node n l r) = (n.height ≡ length p) × IsEntry (true ∷ p) l × IsEntry (false ∷ p) r

pub IsNode-IsEntry : (p : Way) (e : Entry) → IsNode p e → 2 ≤ count e → IsEntry p e
unfolding count
IsNode-IsEntry p nil t c = absurd t
IsNode-IsEntry p (value k h) t c = absurd t
IsNode-IsEntry p (node n l r) (high, tl, rt) c = (high, c, tl, rt)

pub find-pick :
    (n : BptNode) (l r : Entry) (k : Bytes) (b : Bool)
    → goes_left k n.height ≡ b
    → find (node n l r) k ≡ find (pick b l r) k
unfolding find
find-pick n l r k true e = rw e refl
find-pick n l r k false e = rw e refl

pub IsEntry-pick :
    (p : Way) (n : BptNode) (l r : Entry) (b : Bool)
    → IsNode p (node n l r)
    → IsEntry (b ∷ p) (pick b l r)
IsEntry-pick p n l r true (high, tl, rt) = tl
IsEntry-pick p n l r false (high, tl, rt) = rt

-- Only keys on the way have a value.
pub find-On :
    (p : Way) (e : Entry) (k h : Bytes) → IsEntry p e → find e k ≡ some h → IsKey k × On p k
unfolding find
find-On p nil k h t f = absurd cc
find-On p (value j v) k h t f = elim (Bool-cases (equal_bytes k j)) [
  | inl e ↦ rw (equal_bytes→eq k j e) t
  | inr e ↦ absurd (cc (rw e at f))
]
find-On p (node n l r) k h (high, two, tl, rt) f = elim (Bool-cases (goes_left k n.height)) [
  | inl e ↦ let (key, on) = find-On (true ∷ p) l k h tl (rw e at f) in (key, on.1)
  | inr e ↦ let (key, on) = find-On (false ∷ p) r k h rt (rw e at f) in (key, on.1)
]

-- A value of a subtree is found in the tree.
pub find-below :
    (p : Way) (n : BptNode) (l r : Entry) (b : Bool) (k h : Bytes)
    → IsNode p (node n l r)
    → find (pick b l r) k ≡ some h
    → find (node n l r) k ≡ some h
find-below p n l r b k h t f =
    let (key, on) = find-On (b ∷ p) (pick b l r) k h (IsEntry-pick p n l r b t) f in
    find-pick n l r k b (ap (goes_left k) t.0 ∙ on.0) ∙ f

pub some_side : (a b : ℕ) → 1 ≤ a + b → (1 ≤ a) ⊎ (1 ≤ b)
some_side zero b h = inr (omega arith)
some_side (suc a) b h = inl (omega arith)

-- A tree with a value has a key.
pub member :
    (p : Way) (e : Entry)
    → IsEntry p e
    → 1 ≤ count e
    → (k : Bytes) × (h : Bytes) × (find e k ≡ some h)
unfolding find count
member p nil t c = absurd (omega arith)
member p (value k h) t c = (k, h, rw (equal_bytes_refl k) refl)
member p (node n l r) (high, two, tl, rt) c = elim (some_side (count l) (count r) c) [
  | inl left ↦
      let (k, h, f) = member (true ∷ p) l tl left in
      (k, h, find-below p n l r true k h (high, tl, rt) f)
  | inr right ↦
      let (k, h, f) = member (false ∷ p) r rt right in
      (k, h, find-below p n l r false k h (high, tl, rt) f)
]

pub apart :
    (k j : Bytes) (i : ℕ) (b c : Bool)
    → b ≢ c
    → goes_left k i ≡ b
    → goes_left j i ≡ c
    → equal_bytes k j ≡ false
apart k j i b c ne e f = elim (Bool-cases (equal_bytes k j)) [
  | inl same_ ↦ absurd (ne (sym e ∙ ap (λ x. goes_left x i) (equal_bytes→eq k j same_) ∙ f))
  | inr differs ↦ differs
]

-- A tree with two values has a key that is not the given one.
pub other_member :
    (p : Way) (e : Entry) (j : Bytes)
    → IsEntry p e
    → 2 ≤ count e
    → (k : Bytes) × (h : Bytes) × (find e k ≡ some h) × (equal_bytes k j ≡ false)
unfolding count
other_member p nil j t c = absurd (omega arith)
other_member p (value k h) j t c = absurd (omega arith)
other_member p (node n l r) j (high, two, tl, rt) c = elim (Bool-cases (goes_left j (length p))) [
  | inl e ↦ elim (Bool-cases (count r == 0)) [
    | inl z ↦
        let (k, h, f, differs) = other_member (true ∷ p) l j tl (ground (arith, z, c)) in
        (k, h, find-below p n l r true k h (high, tl, rt) f, differs)
    | inr z ↦
        let (k, h, f) = member (false ∷ p) r rt (ground (arith, z)) in
        let (key, on) = find-On (false ∷ p) r k h rt f in
        (
          k,
          h,
          find-below p n l r false k h (high, tl, rt) f,
          apart k j (length p) false true (cc) on.0 e,
        )
  ]
  | inr e ↦ elim (Bool-cases (count l == 0)) [
    | inl z ↦
        let (k, h, f, differs) = other_member (false ∷ p) r j rt (ground (arith, z, c)) in
        (k, h, find-below p n l r false k h (high, tl, rt) f, differs)
    | inr z ↦
        let (k, h, f) = member (true ∷ p) l tl (ground (arith, z)) in
        let (key, on) = find-On (true ∷ p) l k h tl f in
        (
          k,
          h,
          find-below p n l r true k h (high, tl, rt) f,
          apart k j (length p) true false (cc) on.0 e,
        )
  ]
]

pub find-count : (e : Entry) (k h : Bytes) → find e k ≡ some h → 1 ≤ count e
unfolding find count
find-count nil k h f = absurd (cc f)
find-count (value j v) k h f = omega arith
find-count (node n l r) k h f = elim (Bool-cases (goes_left k n.height)) [
  | inl g ↦ omega (arith, find-count l k h (rw g at f))
  | inr g ↦ omega (arith, find-count r k h (rw g at f))
]
