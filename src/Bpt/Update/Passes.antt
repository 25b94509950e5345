-- ===== src/Bpt/Update/Passes.antt =====
-- One round of `Update` makes the hashes of a height right, and moves the marks down.
use accumulate.Common.{
  ℕ, suc, ◌≤◌, ◌<◌, ◌≡◌, inl, inr, refl, ap, sym, ◌∙◌, ◌∷◌, Bool, true, false, ◌||◌, ◌==◌, length,
  arith, Bool-cases,
}
use accumulate.Common.Outcome.{ok, ◌>>=◌}
use accumulate.Common.Bytes.{Bytes}
use accumulate.Bpt.{BptNode, Entry, nil, value, node, mark_dirty, set_dirty}
use accumulate.Bpt.Keys.{Way}
use accumulate.Bpt.Trie.{count}
use accumulate.Bpt.Canonical.{bare}
use accumulate.Bpt.Update.{dirty_top, refresh, update_height}
use accumulate.Bpt.Update.Summary.{
  IsLive, dirty_top-above, or_zeros, summary, summary-some, summary_same_values, IsHashed,
  get_hash-summary, hash_children-join,
}
use accumulate.Bpt.Update.Tops.{dirty_top-parts, dirty_top-bound}

module _ (sum : Bytes → Bytes) where
  -- What the round of height `h` makes of an entry whose dirty nodes are no higher.
  pub record Passes (h : ℕ) (p : Way) (e e' : Entry) (flag : Bool) : Type 0 where
    pub live : IsLive p e'
    pub hashed : IsHashed sum e'
    pub same_values : bare e' ≡ bare e
    pub counts : count e' ≡ count e
    pub low : dirty_top e' ≤ h
    pub at_height : flag ≡ true → length p ≡ h
    pub quiet : flag ≡ false → dirty_top e' ≡ 0 → dirty_top e ≡ 0

  refreshes :
      (h : ℕ) (p : Way) (n : BptNode) (l r : Entry)
      → IsLive p (node n l r)
      → IsHashed sum (node n l r)
      → n.height ≡ h
      → dirty_top (node n l r) ≤ suc h
      → (e' : Entry) × (refresh sum n l r ≡ ok e') × Passes h p (node n l r) e' true
  unfolding refresh summary bare count
  refreshes h p n l r t hashed high top =
      let (own, tl, tr_) = dirty_top-parts n l r (suc h) top in
      let zl : dirty_top l ≡ 0 = ground (arith, dirty_top-above (true ∷ p) l t.2, t.0) in
      let zr : dirty_top r ≡ 0 = ground (arith, dirty_top-above (false ∷ p) r t.3, t.0) in
      let gl = get_hash-summary sum (true ∷ p) l t.2 hashed.0 zl in
      let gr = get_hash-summary sum (false ∷ p) r t.3 hashed.1 zr in
      let (x, e) = summary-some sum (node n l r) t.1 in
      let n' : BptNode = record n { hash = x; dirty = false } in
      (
        node n' l r,
        rw (gl, gr, hash_children-join sum (summary sum l) (summary sum r) x e) refl,
        record {
          live = t;
          hashed = (hashed.0, hashed.1, λ z. ap or_zeros (sym e));
          same_values = refl;
          counts = refl;
          low =
              dirty_top-bound n' l r h (λ f. absurd (cc f)) (omega (arith, zl)) (omega (arith, zr));
          at_height = λ f. sym t.0 ∙ high;
          quiet = λ f. absurd (cc f);
        },
      )

  unchanged :
      (h : ℕ) (p : Way) (e : Entry)
      → IsLive p e
      → IsHashed sum e
      → dirty_top e ≡ 0
      → Passes h p e e false
  unchanged h p e t hashed z = record {
    live = t;
    hashed = hashed;
    same_values = refl;
    counts = refl;
    low = omega (arith, z);
    at_height = λ f. absurd (cc f);
    quiet = λ f g. z;
  }

  set_dirty-height : (d : Bool) (n : BptNode) → (set_dirty d n).height ≡ n.height
  unfolding mark_dirty
  set_dirty-height true n = refl
  set_dirty-height false n = refl

  bare-set_dirty :
      (d : Bool) (n : BptNode) (l r : Entry) → bare (node (set_dirty d n) l r) ≡ bare (node n l r)
  unfolding bare mark_dirty
  bare-set_dirty true n l r = refl
  bare-set_dirty false n l r = refl

  -- No mark at all after the two children were passed: there was none.
  no_marks :
      (n : BptNode) (l r l' r' : Entry) (a b : Bool)
      → (a ≡ false → dirty_top l' ≡ 0 → dirty_top l ≡ 0)
      → (b ≡ false → dirty_top r' ≡ 0 → dirty_top r ≡ 0)
      → dirty_top (node (set_dirty (a || b) n) l' r') ≡ 0
      → ((a || b) ≡ false) × (dirty_top (node n l r) ≡ 0)
  unfolding mark_dirty
  no_marks n l r l' r' true b ql qr z =
      let (own, zl, zr) = dirty_top-parts (mark_dirty n) l' r' 0 (omega (arith, z)) in
      absurd (omega (arith, own refl))
  no_marks n l r l' r' false true ql qr z =
      let (own, zl, zr) = dirty_top-parts (mark_dirty n) l' r' 0 (omega (arith, z)) in
      absurd (omega (arith, own refl))
  no_marks n l r l' r' false false ql qr z =
      let (own, zl, zr) = dirty_top-parts n l' r' 0 (omega (arith, z)) in
      let none_ : dirty_top (node n l r) ≤ 0 =
        dirty_top-bound n l r 0 own (omega (arith, ql refl (omega (arith, zl))))
          (omega (arith, qr refl (omega (arith, zr)))) in
      (refl, omega (arith, none_))

  -- A node below the height is marked only where a child was of the height.
  marked_below :
      (h : ℕ) (p : Way) (n : BptNode) (a b : Bool)
      → n.height ≡ length p
      → (n.dirty ≡ true → n.height < h)
      → (a ≡ true → suc (length p) ≡ h)
      → (b ≡ true → suc (length p) ≡ h)
      → (set_dirty (a || b) n).dirty ≡ true
      → (set_dirty (a || b) n).height < h
  unfolding mark_dirty
  marked_below h p n true b high own left right d = omega (arith, left refl, high)
  marked_below h p n false true high own left right d = omega (arith, right refl, high)
  marked_below h p n false false high own left right d = own d

  -- A node below the height, whose two children were passed.
  joined :
      (h : ℕ) (p : Way) (n : BptNode) (l r l' r' : Entry) (a b : Bool)
      → IsLive p (node n l r)
      → IsHashed sum (node n l r)
      → (n.height == h) ≡ false
      → dirty_top (node n l r) ≤ suc h
      → Passes h (true ∷ p) l l' a
      → Passes h (false ∷ p) r r' b
      → Passes h p (node n l r) (node (set_dirty (a || b) n) l' r') false
  unfolding bare count summary mark_dirty
  joined h p n l r l' r' a b t hashed other top left right =
      let d : Bool = a || b in
      let n' : BptNode = set_dirty d n in
      let same_ : n'.height ≡ n.height = set_dirty-height d n in
      let (own, tl, tr_) = dirty_top-parts n l r (suc h) top in
      let sl = summary_same_values sum l l' left.same_values in
      let sr = summary_same_values sum r r' right.same_values in
      let kept : dirty_top (node n' l' r') ≡ 0 → n'.hash ≡ or_zeros (summary sum (node n' l' r')) =
        λ z.
          let (unmarked, was) = no_marks n l r l' r' a b left.quiet right.quiet z in
          rw (unmarked, sl, sr) (hashed.2 was) in
      record {
        live = (same_ ∙ t.0, omega (arith, t.1, left.counts, right.counts), left.live, right.live);
        hashed = (left.hashed, right.hashed, kept);
        same_values = bare-set_dirty d n l' r' ∙ rw (left.same_values, right.same_values) refl;
        counts = omega (arith, left.counts, right.counts);
        low =
            dirty_top-bound n' l' r' h
              (marked_below h p n a b t.0 (λ f. ground (arith, own f, other)) left.at_height
                right.at_height)
              left.low right.low;
        at_height = λ f. absurd (cc f);
        quiet = λ f z. (no_marks n l r l' r' a b left.quiet right.quiet z).1;
      }

  clean_node :
      (h : ℕ) (p : Way) (n : BptNode) (l r : Entry)
      → IsLive p (node n l r)
      → n.height ≡ h
      → n.dirty ≡ false
      → dirty_top (node n l r) ≤ suc h
      → dirty_top (node n l r) ≡ 0
  clean_node h p n l r t high d top =
      let (own, tl, tr_) = dirty_top-parts n l r (suc h) top in
      let zl : dirty_top l ≡ 0 = ground (arith, dirty_top-above (true ∷ p) l t.2, t.0) in
      let zr : dirty_top r ≡ 0 = ground (arith, dirty_top-above (false ∷ p) r t.3, t.0) in
      let none_ : dirty_top (node n l r) ≤ 0 =
        dirty_top-bound n l r 0 (λ f. absurd (cc (f, d))) (omega (arith, zl)) (omega (arith, zr)) in
      omega (arith, none_)

  pub update_height-Passes :
      (h : ℕ) (p : Way) (e : Entry)
      → IsLive p e
      → IsHashed sum e
      → dirty_top e ≤ suc h
      → (e' : Entry) × (flag : Bool) × (update_height sum h e ≡ ok (e', flag))
        × Passes h p e e' flag
  unfolding update_height dirty_top
  update_height-Passes h p nil t hashed top = (nil, false, refl, unchanged h p nil t hashed refl)
  update_height-Passes h p (value k x) t hashed top =
      (value k x, false, refl, unchanged h p (value k x) t hashed refl)
  update_height-Passes h p (node n l r) t hashed top = elim (Bool-cases (n.height == h)) [
    | inl e ↦
        let high : n.height ≡ h = ground (arith, e) in
        elim (Bool-cases n.dirty) [
          | inl d ↦
              let (e', s, w) = refreshes h p n l r t hashed high top in
              (e', true, rw (e, d) (ap (λ m. m >>= λ x. ok (x, true)) s), w)
          | inr d ↦ (
            node n l r,
            false,
            rw (e, d) refl,
            unchanged h p (node n l r) t hashed (clean_node h p n l r t high d top),
          )
        ]
    | inr e ↦
        let (own, tl, tr_) = dirty_top-parts n l r (suc h) top in
        let (l', a, sl, left) = update_height-Passes h (true ∷ p) l t.2 hashed.0 tl in
        let (r', b, sr, right) = update_height-Passes h (false ∷ p) r t.3 hashed.1 tr_ in
        (
          node (set_dirty (a || b) n) l' r',
          false,
          rw (e, sl, sr) refl,
          joined h p n l r l' r' a b t hashed e top left right,
        )
  ]
