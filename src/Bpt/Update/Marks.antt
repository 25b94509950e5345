-- ===== src/Bpt/Update/Marks.antt =====
-- Insert marks what it changes.
use accumulate.Common.{
  ℕ, zero, suc, ◌≤◌, ◌≡◌, ◌⊎◌, inl, inr, refl, ap, sym, Bool, true, false, arith, Bool-cases,
}
use mathlib.Core.Path.{subst}
use accumulate.Common.Outcome.{ok, >>=-ok, ok-subst}
use accumulate.Common.Bytes.{Bytes, equal_bytes}
use accumulate.Bpt.{
  BptNode, Entry, nil, value, node, goes_left, pick, put_back, mark_dirty, set_dirty, new_node,
  insert_entry, insert_at_node, insert,
}
use accumulate.Bpt.Update.{dirty_top}
use accumulate.Bpt.Update.Summary.{IsHashed}
use accumulate.Bpt.Update.Tops.{dirty_top-parts}

module _ (sum : Bytes → Bytes) where
  -- The tree is as it was, or has a dirty node.
  pub record Marks (e e' : Entry) : Type 0 where
    pub hashed : IsHashed sum e'
    pub marked : (e' ≡ e) ⊎ (1 ≤ dirty_top e')

  -- So too for an entry, unless the node above it is to be marked.
  record MarksEntry (e e' : Entry) (dirty : Bool) : Type 0 where
    hashed : IsHashed sum e'
    marked : (dirty ≡ true) ⊎ (e' ≡ e) ⊎ (1 ≤ dirty_top e')

  positive_own : (n : BptNode) (l r : Entry) → 1 ≤ dirty_top (node (mark_dirty n) l r)
  unfolding mark_dirty dirty_top
  positive_own n l r = ground arith

  positive_child :
      (n : BptNode) (l r : Entry)
      → (1 ≤ dirty_top l) ⊎ (1 ≤ dirty_top r)
      → 1 ≤ dirty_top (node n l r)
  positive_child n l r h =
      let (own, zl, zr) = dirty_top-parts n l r (dirty_top (node n l r)) (omega arith) in
      elim h [ inl p ↦ omega (arith, p, zl) | inr p ↦ omega (arith, p, zr) ]

  -- The hash of a node with a dirty node does not matter.
  marked_node :
      (e : Entry) (n : BptNode) (l r : Entry)
      → IsHashed sum l
      → IsHashed sum r
      → 1 ≤ dirty_top (node n l r)
      → Marks e (node n l r)
  marked_node e n l r hl hr positive = record {
    hashed = (hl, hr, λ z. absurd (omega (arith, z)));
    marked = inr positive;
  }

  same_node : (e e' : Entry) → e' ≡ e → IsHashed sum e → Marks e e'
  same_node e e' same_ h = record {
    hashed = subst (IsHashed sum) (sym same_) h;
    marked = inl same_;
  }

  -- A node whose child was replaced.
  put_back-Marks :
      (n : BptNode) (l r e : Entry) (b d : Bool)
      → IsHashed sum (node n l r)
      → MarksEntry (pick b l r) e d
      → Marks (node n l r) (put_back b (set_dirty d n) l r e)
  unfolding mark_dirty
  put_back-Marks n l r e true true h w =
      marked_node (node n l r) (mark_dirty n) e r w.hashed h.1 (positive_own n e r)
  put_back-Marks n l r e false true h w =
      marked_node (node n l r) (mark_dirty n) l e h.0 w.hashed (positive_own n l e)
  put_back-Marks n l r e true false h w = elim w.marked [
    | inl no_mark ↦ absurd (cc no_mark)
    | inr (inl same_) ↦ same_node (node n l r) (node n e r) (ap (λ x. node n x r) same_) h
    | inr (inr top) ↦ marked_node (node n l r) n e r w.hashed h.1 (positive_child n e r (inl top))
  ]
  put_back-Marks n l r e false false h w = elim w.marked [
    | inl no_mark ↦ absurd (cc no_mark)
    | inr (inl same_) ↦ same_node (node n l r) (node n l e) (ap (λ x. node n l x) same_) h
    | inr (inr top) ↦ marked_node (node n l r) n l e h.0 w.hashed (positive_child n l e (inr top))
  ]

  abbrev InsertMarks : ℕ → Type 0
  InsertMarks bits =
      (e e' : Entry) (key hash : Bytes)
      → insert_at_node bits e key hash ≡ ok e'
      → IsHashed sum e
      → Marks e e'

  -- The first value of a new node marks it.
  first_value :
      (bits : ℕ) (n : BptNode) (e' : Entry) (key hash : Bytes)
      → insert_at_node bits (node n nil nil) key hash ≡ ok e'
      → IsHashed sum e' × (1 ≤ dirty_top e')
  unfolding insert_at_node insert_entry mark_dirty
  first_value zero n e' key hash s = absurd (cc s)
  first_value (suc bits) n e' key hash s = elim (Bool-cases (goes_left key n.height)) [
    | inl g ↦
        let w =
          marked_node (node n nil nil) (mark_dirty n) (value key hash) nil tt tt
            (positive_own n (value key hash) nil) in
        ok-subst (λ x. IsHashed sum x × (1 ≤ dirty_top x)) (rw (g, insert_at_node) at s)
          (w.hashed, positive_own n (value key hash) nil)
    | inr g ↦
        let w =
          marked_node (node n nil nil) (mark_dirty n) nil (value key hash) tt tt
            (positive_own n nil (value key hash)) in
        ok-subst (λ x. IsHashed sum x × (1 ≤ dirty_top x)) (rw (g, insert_at_node) at s)
          (w.hashed, positive_own n nil (value key hash))
  ]

  still_marked : (e e' : Entry) → 1 ≤ dirty_top e → (e' ≡ e) ⊎ (1 ≤ dirty_top e') → 1 ≤ dirty_top e'
  still_marked e e' h (inl same_) = rw same_ h
  still_marked e e' h (inr k) = k

  pick-IsHashed :
      (n : BptNode) (l r : Entry) (b : Bool) → IsHashed sum (node n l r) → IsHashed sum (pick b l r)
  pick-IsHashed n l r true h = h.0
  pick-IsHashed n l r false h = h.1

  inserted_child :
      (bits : ℕ) (n : BptNode) (l r e' : Entry) (key hash : Bytes)
      → insert_at_node (suc bits) (node n l r) key hash ≡ ok e'
      → (c : Entry × Bool) × (insert_entry
            (insert_at_node bits)
            n.height
            (pick (goes_left key n.height) l r)
            key
            hash
          ≡ ok c)
        × (ok (put_back (goes_left key n.height) (set_dirty c.1 n) l r c.0) ≡ ok e')
  unfolding insert_at_node
  inserted_child bits n l r e' key hash s = >>=-ok _ _ e' s

  insert_entry-MarksEntry :
      (bits height : ℕ) (c e' : Entry) (d : Bool) (key hash : Bytes)
      → InsertMarks bits
      → insert_entry (insert_at_node bits) height c key hash ≡ ok (e', d)
      → IsHashed sum c
      → MarksEntry c e' d
  unfolding insert_entry new_node
  insert_entry-MarksEntry bits height nil e' d key hash ih s h =
      ok-subst (λ (x, y). MarksEntry nil x y) s (record { hashed = tt; marked = inl refl })
  insert_entry-MarksEntry bits height (node n l r) e' d key hash ih s h =
      let (x, made, rest) = >>=-ok _ (insert_at_node bits (node n l r) key hash) (e', d) s in
      let w = ih (node n l r) x key hash made h in
      ok-subst (λ (x, y). MarksEntry (node n l r) x y) rest
        (record { hashed = w.hashed; marked = inr w.marked })
  insert_entry-MarksEntry bits height (value k v) e' d key hash ih s h =
      elim (Bool-cases (equal_bytes key k)) [
        | inl e ↦ elim (Bool-cases (equal_bytes v hash)) [
          | inl f ↦
              ok-subst (λ (x, y). MarksEntry (value k v) x y) (rw (e, f, insert_entry) at s)
                (record { hashed = tt; marked = inr (inl refl) })
          | inr f ↦
              ok-subst (λ (x, y). MarksEntry (value k v) x y) (rw (e, f, insert_entry) at s)
                (record { hashed = tt; marked = inl refl })
        ]
        | inr e ↦
            let (e1, first, rest) =
              >>=-ok _ (insert_at_node bits (node (new_node key height) nil nil) key hash) (e', d)
                (rw (e, insert_entry) at s) in
            let (e2, second, last) = >>=-ok _ (insert_at_node bits e1 k v) (e', d) rest in
            let (h1, top) = first_value bits (new_node key height) e1 key hash first in
            let w = ih e1 e2 k v second h1 in
            ok-subst (λ (x, y). MarksEntry (value k v) x y) last
              (record { hashed = w.hashed; marked = inr (inr (still_marked e1 e2 top w.marked)) })
      ]

  insert_at_node-Marks : (bits : ℕ) → InsertMarks bits
  unfolding insert_at_node
  insert_at_node-Marks zero e e' key hash s h = absurd (cc s)
  insert_at_node-Marks (suc bits) nil e' key hash s h = absurd (cc s)
  insert_at_node-Marks (suc bits) (value k v) e' key hash s h = absurd (cc s)
  insert_at_node-Marks (suc bits) (node n l r) e' key hash s h =
      let b : Bool = goes_left key n.height in
      let ((c, d), made, rest) = inserted_child bits n l r e' key hash s in
      ok-subst (Marks (node n l r)) rest (
        put_back-Marks n l r c b d h (
          insert_entry-MarksEntry bits n.height (pick b l r) c d key hash
            (insert_at_node-Marks bits) made (pick-IsHashed n l r b h)))

  pub insert-Marks :
      (root root' : Entry) (key hash : Bytes)
      → insert root key hash ≡ ok root'
      → IsHashed sum root
      → Marks root root'
  unfolding insert
  insert-Marks root root' key hash s h = insert_at_node-Marks 256 root root' key hash s h
