-- ===== src/Bpt/Writes.antt =====
-- A write of one value, and how many bits of a key are left.
use accumulate.Common.{
  ℕ, ◌+◌, ◌≤◌, ◌<◌, ◌≡◌, inl, inr, refl, ◌∙◌, ◌∷◌, Option, none, some, Bool, true, false,
  if◌then◌else◌, length, arith, Bool-cases, ltb, ltb→lt,
}
use accumulate.Common.Bytes.{Bytes, equal_bytes, equal_bytes_refl}
use accumulate.Bpt.{BptNode, Entry, node, goes_left, pick, put_back}
use accumulate.Bpt.Keys.{IsKey, Way, On, On-eq}
use accumulate.Bpt.Trie.{find, count, IsEntry, IsNode, find-On, apart, member, other_member}

-- The map after a write.
abbrev pub written : Bytes → Bytes → Entry → Bytes → Option Bytes
written key hash e k = if equal_bytes k key then some hash else find e k

-- Whether a key has no value yet, as a number.
abbrev pub fresh : Option Bytes → ℕ
fresh none = 1
fresh (some h) = 0

-- `e'` is `e` with the value of the key written.
pub record Writes (key hash : Bytes) (e e' : Entry) : Type 0 where
  pub finds : (k : Bytes) → find e' k ≡ written key hash e k
  pub counts : count e' ≡ count e + fresh (find e key)

-- A node with the entry of the key's side replaced.
pub put_back-Writes :
    (p : Way) (n n' : BptNode) (l r e : Entry) (b : Bool) (key hash : Bytes)
    → goes_left key n.height ≡ b
    → n'.height ≡ n.height
    → Writes key hash (pick b l r) e
    → Writes key hash (node n l r) (put_back b n' l r e)
unfolding find count
put_back-Writes p n n' l r e true key hash way high w = record {
  finds = λ k. elim (Bool-cases (goes_left k n.height)) [
    | inl t ↦ rw (high, t) (w.finds k)
    | inr t ↦ rw (high, t, apart k key n.height false true (cc) t way) refl
  ];
  counts = rw way (omega (arith, w.counts));
}
put_back-Writes p n n' l r e false key hash way high w = record {
  finds = λ k. elim (Bool-cases (goes_left k n.height)) [
    | inl t ↦ rw (high, t, apart k key n.height true false (cc) t way) refl
    | inr t ↦ rw (high, t) (w.finds k)
  ];
  counts = rw way (omega (arith, w.counts));
}

-- A node with the entry at the end of one way replaced.
pub put_back-IsNode :
    (p : Way) (n n' : BptNode) (l r e : Entry) (b : Bool)
    → n'.height ≡ n.height
    → IsNode p (node n l r)
    → IsEntry (b ∷ p) e
    → IsNode p (put_back b n' l r e)
put_back-IsNode p n n' l r e true high t u = (high ∙ t.0, u, t.2)
put_back-IsNode p n n' l r e false high t u = (high ∙ t.0, t.1, u)

-- Two keys do not share a way of all bits, so that there is a bit left for a node.
pub short_of_keys :
    (p : Way) (a b : Bytes)
    → length p ≤ 256
    → IsKey a × On p a
    → IsKey b × On p b
    → equal_bytes a b ≡ false
    → length p < 256
short_of_keys p a b h (ka, oa) (kb, ob) differs = elim (Bool-cases (ltb (length p) 256)) [
  | inl l ↦ ltb→lt _ _ l
  | inr l ↦
      let same_ = On-eq p a b (ground (arith, l, h)) ka kb oa ob in
      absurd (cc (rw (same_, equal_bytes_refl b) at differs))
]

pub short_of_node :
    (p : Way) (e : Entry) → length p ≤ 256 → IsEntry p e → 2 ≤ count e → length p < 256
short_of_node p e h t c =
    let (a, x, f) = member p e t (omega arith) in
    let (b, y, g, differs) = other_member p e a t c in
    short_of_keys p b a h (find-On p e b y t g) (find-On p e a x t f) differs
