-- ===== src/Bpt/Inserted.antt =====
-- Insert writes one value of the map, and keeps the tree a Patricia tree.
use accumulate.Common.{
  ℕ, zero, suc, ◌+◌, ◌≤◌, ◌≡◌, inl, inr, refl, ap, sym, ◌∙◌, [], ◌∷◌, none, Bool, true, false,
  length, arith, Bool-cases,
}
use accumulate.Common.Outcome.{ok, ◌>>=◌}
use accumulate.Common.Bytes.{Bytes, equal_bytes, equal_bytes→eq, equal_bytes_refl}
use accumulate.Bpt.{
  BptNode, Entry, nil, value, node, goes_left, pick, put_back, mark_dirty, set_dirty, new_node,
  insert_entry, insert_at_node, insert,
}
use accumulate.Bpt.Keys.{IsKey, Way, On}
use accumulate.Bpt.Trie.{find, count, IsEntry, IsNode, IsNode-IsEntry, IsEntry-pick}
use accumulate.Bpt.Writes.{Writes, put_back-Writes, put_back-IsNode, short_of_keys, short_of_node}

-- What `insertAtNode` with so many bits left does at the end of a way.
abbrev Inserts : ℕ → Type 0
Inserts bits =
    (p : Way) (e : Entry) (key hash : Bytes)
    → bits + length p ≡ 256
    → 1 ≤ bits
    → IsKey key
    → On p key
    → IsNode p e
    → (e' : Entry) × (insert_at_node bits e key hash ≡ ok e') × IsNode p e' × Writes key hash e e'

pub equal_bytes_sym : (a b : Bytes) → equal_bytes a b ≡ false → equal_bytes b a ≡ false
equal_bytes_sym a b h = elim (Bool-cases (equal_bytes b a)) [
  | inl e ↦ let same_ = equal_bytes→eq b a e in absurd (cc (rw (same_, equal_bytes_refl a) at h))
  | inr e ↦ e
]

-- Two keys in a node that was empty.
written_twice :
    (n : BptNode) (e1 e2 : Entry) (k h key hash : Bytes)
    → equal_bytes key k ≡ false
    → Writes key hash (node n nil nil) e1
    → Writes k h e1 e2
    → (count e2 ≡ 2) × Writes key hash (value k h) e2
unfolding find count
written_twice n e1 e2 k h key hash differs first second = (two, both)
  where
    other : equal_bytes k key ≡ false
    other = equal_bytes_sym key k differs

    none_yet : (j : Bytes) → find (node n nil nil) j ≡ none
    none_yet j = elim (Bool-cases (goes_left j n.height)) [ inl t ↦ rw t refl | inr t ↦ rw t refl ]

    absent : find e1 k ≡ none
    absent = first.finds k ∙ rw other (none_yet k)

    two : count e2 ≡ 2
    two = second.counts ∙ rw (absent, first.counts, none_yet key) refl

    both : Writes key hash (value k h) e2
    both = record {
      finds = λ j. second.finds j ∙ elim (Bool-cases (equal_bytes j k)) [
        | inl t ↦ let at_k = equal_bytes→eq j k t in rw (t, at_k, other) refl
        | inr t ↦ rw (t, first.finds j, none_yet j) refl
      ];
      counts = rw differs two;
    }

insert_value :
    (bits : ℕ) (p : Way) (height : ℕ) (k h key hash : Bytes)
    → Inserts bits
    → bits + length p ≡ 256
    → height + 1 ≡ length p
    → IsKey key
    → On p key
    → IsEntry p (value k h)
    → (e' : Entry) × (dirty : Bool) × (insert_entry
          (insert_at_node bits)
          height
          (value k h)
          key
          hash
        ≡ ok (e', dirty))
      × IsEntry p e'
      × Writes key hash (value k h) e'
unfolding insert_entry find count new_node
insert_value bits p height k h key hash inserts whole high iskey on (kk, ok_) =
    elim (Bool-cases (equal_bytes key k)) [
      | inl e ↦
          let same_ = equal_bytes→eq key k e in
          elim (Bool-cases (equal_bytes h hash)) [
            | inl v ↦
                let kept = equal_bytes→eq h hash v in
                (
                  value k h,
                  false,
                  rw (e, v, insert_entry) refl,
                  (kk, ok_),
                  record { finds = λ j. rw (same_, kept) (ground arith); counts = rw e refl },
                )
            | inr v ↦ (
              value k hash,
              true,
              rw (e, v, insert_entry) refl,
              (kk, ok_),
              record { finds = λ j. rw same_ (ground arith); counts = rw e refl },
            )
          ]
      | inr e ↦
          let room = short_of_keys p key k (omega arith) (iskey, on) (kk, ok_) e in
          let nn : Entry = node (new_node key height) nil nil in
          let (e1, s1, t1, w1) =
            inserts p nn key hash whole (omega arith) iskey on (high, tt, tt) in
          let (e2, s2, t2, w2) = inserts p e1 k h whole (omega arith) kk ok_ t1 in
          let (two, w) = written_twice (new_node key height) e1 e2 k h key hash e w1 w2 in
          (
            e2,
            false,
            rw (e, insert_entry)
                (ap (λ m. m >>= λ x. insert_at_node bits x k h >>= λ e'. ok (e', false)) s1
                  ∙ ap (λ m. m >>= λ e'. ok (e', false)) s2),
            IsNode-IsEntry p e2 t2 (omega (arith, two)),
            w,
          )
    ]

insert_child :
    (bits : ℕ) (p : Way) (height : ℕ) (c : Entry) (key hash : Bytes)
    → Inserts bits
    → bits + length p ≡ 256
    → height + 1 ≡ length p
    → IsKey key
    → On p key
    → IsEntry p c
    → (e' : Entry) × (dirty : Bool) × (insert_entry (insert_at_node bits) height c key hash
        ≡ ok (e', dirty))
      × IsEntry p e'
      × Writes key hash c e'
unfolding insert_entry find count
insert_child bits p height nil key hash inserts whole high iskey on t =
    (value key hash, true, refl, (iskey, on), record { finds = λ j. refl; counts = refl })
insert_child bits p height (value k h) key hash inserts whole high iskey on t =
    insert_value bits p height k h key hash inserts whole high iskey on t
insert_child bits p height (node n l r) key hash inserts whole high iskey on t =
    let room = short_of_node p (node n l r) (omega arith) t t.1 in
    let (e', s, u, w) =
      inserts p (node n l r) key hash whole (omega arith) iskey on (t.0, t.2, t.3) in
    (
      e',
      false,
      ap (λ m. m >>= λ e. ok (e, false)) s,
      IsNode-IsEntry p e' u (omega (arith, w.counts, t.1)),
      w,
    )

set_dirty-height : (d : Bool) (n : BptNode) → (set_dirty d n).height ≡ n.height
unfolding mark_dirty
set_dirty-height true n = refl
set_dirty-height false n = refl

insert_at_node-put_back :
    (bits : ℕ) (n : BptNode) (l r e : Entry) (d : Bool) (key hash : Bytes)
    → insert_entry (insert_at_node bits) n.height (pick (goes_left key n.height) l r) key hash
      ≡ ok (e, d)
    → insert_at_node (suc bits) (node n l r) key hash
      ≡ ok (put_back (goes_left key n.height) (set_dirty d n) l r e)
unfolding insert_at_node
insert_at_node-put_back bits n l r e d key hash s =
    ap (λ m. m >>= λ (x, y). ok (put_back (goes_left key n.height) (set_dirty y n) l r x)) s

insert_at_node-Inserts : (bits : ℕ) → Inserts bits
insert_at_node-Inserts zero p e key hash whole some_ iskey on t = absurd (omega arith)
insert_at_node-Inserts (suc bits) p nil key hash whole some_ iskey on t = absurd t
insert_at_node-Inserts (suc bits) p (value k h) key hash whole some_ iskey on t = absurd t
insert_at_node-Inserts (suc bits) p (node n l r) key hash whole some_ iskey on t =
    let b : Bool = goes_left key n.height in
    let way : goes_left key (length p) ≡ b = ap (goes_left key) (sym t.0) in
    let (e, d, s, u, w) =
      insert_child bits (b ∷ p) n.height (pick b l r) key hash (insert_at_node-Inserts bits)
        (omega arith) (omega (arith, t.0)) iskey (way, on) (IsEntry-pick p n l r b t) in
    (
      put_back b (set_dirty d n) l r e,
      insert_at_node-put_back bits n l r e d key hash s,
      put_back-IsNode p n (set_dirty d n) l r e b (set_dirty-height d n) t u,
      put_back-Writes p n (set_dirty d n) l r e b key hash refl (set_dirty-height d n) w,
    )

-- A tree from the root.
abbrev pub IsBpt : Entry → Type 0
IsBpt root = IsNode [] root

-- Insert of any key of 32 bytes ends without a panic in a Patricia tree, in which the key has the
-- hash, each other key what it had, and there is one value more just where the key had none.
pub insert-Writes :
    (root : Entry) (key hash : Bytes)
    → IsKey key
    → IsBpt root
    → (root' : Entry) × (insert root key hash ≡ ok root') × IsBpt root' × Writes key hash root root'
insert-Writes root key hash iskey t =
    unfold insert in
    insert_at_node-Inserts 256 [] root key hash (omega arith) (omega arith) iskey tt t
