-- ===== src/Bpt/Receipt/Collected.antt =====
-- What `CollectReceipt` collects.
use accumulate.Common.{
  ℕ, zero, suc, ◌+◌, ◌-◌, ◌/◌, ◌%◌, ◌^◌, ◌≤◌, ◌<◌, ◌≡◌, inl, inr, refl, ap, sym, ◌∙◌, List, [], ◌∷◌,
  ◌++◌, Option, none, some, Bool, true, false, ◌==◌, leb, if◌then◌else◌, length, arith, Bool-cases,
}
use accumulate.Common.Outcome.{ok}
use accumulate.Common.Bytes.{Bytes, equal_bytes, equal_bytes→eq, equal_bytes_refl}
use accumulate.Merkle.Receipt.{ReceiptEntry, apply, follow}
use accumulate.Merkle.Receipt.Combine.{follow-append}
use accumulate.Bpt.{BptNode, Entry, nil, value, node, byte_at, goes_left, pick}
use accumulate.Bpt.Keys.{Way}
use accumulate.Bpt.Trie.{find, count, find-count, IsEntry, find-pick}
use accumulate.Bpt.Writes.{short_of_node}
use accumulate.Bpt.Inserted.{equal_bytes_sym}
use accumulate.Bpt.Update.{get_hash, dirty_top}
use accumulate.Bpt.Update.Summary.{
  IsEntry-IsLive, join, summary, summary-some, IsHashed, get_hash-summary,
}
use accumulate.Bpt.Update.Tops.{dirty_top-parts}
use accumulate.Bpt.Receipt.{next_bit, sibling, add_sibling, collect_receipt}

next_bit-inner : (q r : ℕ) → r < 7 → next_bit q (2 ^ (7 - r)) ≡ (q, 2 ^ (7 - suc r))
unfolding next_bit
next_bit-inner q zero h = refl
next_bit-inner q (suc zero) h = refl
next_bit-inner q (suc (suc zero)) h = refl
next_bit-inner q (suc (suc (suc zero))) h = refl
next_bit-inner q (suc (suc (suc (suc zero)))) h = refl
next_bit-inner q (suc (suc (suc (suc (suc zero))))) h = refl
next_bit-inner q (suc (suc (suc (suc (suc (suc zero)))))) h = refl
next_bit-inner q (suc (suc (suc (suc (suc (suc (suc r))))))) h = absurd (omega arith)

-- The byte's index and the mask for a height.
abbrev mask : ℕ → ℕ
mask height = 2 ^ (7 - height % 8)

next_bit-mask :
    (height : ℕ) → next_bit (height / 8) (mask height) ≡ (suc height / 8, mask (suc height))
next_bit-mask height = elim (Bool-cases (height % 8 == 7)) [
  | inl e ↦
      let last : height % 8 ≡ 7 = ground (arith, e) in
      let byte : suc height / 8 ≡ height / 8 + 1 = omega (arith, last) in
      let bit : suc height % 8 ≡ 0 = omega (arith, last) in
      rw (last, byte, bit) (unfold next_bit in refl)
  | inr e ↦
      let inner : height % 8 < 7 = ground (arith, e) in
      let byte : suc height / 8 ≡ height / 8 = omega (arith, inner) in
      let bit : suc height % 8 ≡ suc (height % 8) = omega (arith, inner) in
      rw (byte, bit) (next_bit-inner (height / 8) (height % 8) inner)
]

bit_set : (x : ℕ) → (x % 2 == 1) ≡ true → (x % 2 == 0) ≡ false
bit_set x h = ground (arith, h)

bit_clear : (x : ℕ) → (x % 2 == 1) ≡ false → (x % 2 == 0) ≡ true
bit_clear x h = ground (arith, h)

module _ (sum : Bytes → Bytes) where
  -- What is collected for a key at the end of a way.
  pub record Collects (p : Way) (e : Entry) (key : Bytes) : Type 0 where
    pub present :
        (h : Bytes)
        → find e key ≡ some h
        → (entries : List ReceiptEntry) × (collect_receipt (length p / 8) (mask (length p)) e key
            ≡ ok (some (h, entries)))
          × (follow sum entries (some h) ≡ summary sum e)
    pub absent :
        find e key ≡ none → collect_receipt (length p / 8) (mask (length p)) e key ≡ ok none

  -- The other child's hash is put behind what leads to a child's summary.
  follow-sibling :
      (other : Entry) (b : Bool) (h : Bytes) (entries : List ReceiptEntry) (x : Bytes)
      → get_hash other ≡ summary sum other
      → follow sum entries (some h) ≡ some x
      → follow sum (entries ++ sibling other b) (some h) ≡ (
          if b
          then join sum (some x) (summary sum other)
          else join sum (summary sum other) (some x))
  unfolding follow apply sibling join summary get_hash
  follow-sibling nil true h entries x g f = follow-append sum entries [] (some h) ∙ f
  follow-sibling nil false h entries x g f = follow-append sum entries [] (some h) ∙ f
  follow-sibling (value k v) true h entries x g f = follow-append sum entries _ (some h) ∙ rw f refl
  follow-sibling (value k v) false h entries x g f =
      follow-append sum entries _ (some h) ∙ rw f refl
  follow-sibling (node n l r) true h entries x g f =
      follow-append sum entries _ (some h) ∙ rw (f, ← g) refl
  follow-sibling (node n l r) false h entries x g f =
      follow-append sum entries _ (some h) ∙ rw (f, ← g) refl

  collect-left :
      (i b : ℕ) (n : BptNode) (l r : Entry) (key : Bytes) (c : Option (Bytes × List ReceiptEntry))
      → leb 32 i ≡ false
      → ((byte_at key i / b) % 2 == 0) ≡ false
      → collect_receipt (next_bit i b).0 (next_bit i b).1 l key ≡ ok c
      → collect_receipt i b (node n l r) key ≡ ok (add_sibling r true c)
  unfolding collect_receipt
  collect-left i b n l r key c room bit s = rw (room, bit, s) refl

  collect-right :
      (i b : ℕ) (n : BptNode) (l r : Entry) (key : Bytes) (c : Option (Bytes × List ReceiptEntry))
      → leb 32 i ≡ false
      → ((byte_at key i / b) % 2 == 0) ≡ true
      → collect_receipt (next_bit i b).0 (next_bit i b).1 r key ≡ ok c
      → collect_receipt i b (node n l r) key ≡ ok (add_sibling l false c)
  unfolding collect_receipt
  collect-right i b n l r key c room bit s = rw (room, bit, s) refl

  -- The step from the two children to a node.
  module _ (p : Way) (n : BptNode) (l r : Entry) (key : Bytes) (room : length p < 256)
      (high : n.height ≡ length p) where
    collect-pick :
        (b : Bool) (c : Option (Bytes × List ReceiptEntry))
        → goes_left key n.height ≡ b
        → collect_receipt (suc (length p) / 8) (mask (suc (length p))) (pick b l r) key ≡ ok c
        → collect_receipt (length p / 8) (mask (length p)) (node n l r) key
          ≡ ok (add_sibling (pick b r l) b c)
    unfolding goes_left
    collect-pick true c way s =
        let inside : leb 32 (length p / 8) ≡ false = ground (arith, room) in
        let bit : ((byte_at key (length p / 8) / mask (length p)) % 2 == 0) ≡ false =
          bit_set _ (rw high at way) in
        collect-left (length p / 8) (mask (length p)) n l r key c inside bit
          (ap (λ x. collect_receipt x.0 x.1 l key) (next_bit-mask (length p)) ∙ s)
    collect-pick false c way s =
        let inside : leb 32 (length p / 8) ≡ false = ground (arith, room) in
        let bit : ((byte_at key (length p / 8) / mask (length p)) % 2 == 0) ≡ true =
          bit_clear _ (rw high at way) in
        collect-right (length p / 8) (mask (length p)) n l r key c inside bit
          (ap (λ x. collect_receipt x.0 x.1 r key) (next_bit-mask (length p)) ∙ s)

    -- A child on the key's way, and the other child.
    collect_child :
        (b : Bool)
        → goes_left key n.height ≡ b
        → IsEntry (b ∷ p) (pick b l r)
        → get_hash (pick b r l) ≡ summary sum (pick b r l)
        → Collects (b ∷ p) (pick b l r) key
        → Collects p (node n l r) key
    unfolding add_sibling
    collect_child b way t g below = record {
      present = λ h f.
          let found : find (pick b l r) key ≡ some h = sym (find-pick n l r key b way) ∙ f in
          let (entries, c, path) = below.present h found in
          let (x, e) = summary-some sum (pick b l r) (find-count (pick b l r) key h found) in
          (
            entries ++ sibling (pick b r l) b,
            collect-pick b (some (h, entries)) way c,
            follow-sibling (pick b r l) b h entries x g (path ∙ e) ∙ summed b x e,
          );
      absent = λ f. collect-pick b none way (below.absent (sym (find-pick n l r key b way) ∙ f));
    }
      where
        summed :
            (d : Bool) (x : Bytes)
            → summary sum (pick d l r) ≡ some x
            → (if d
                then join sum (some x) (summary sum (pick d r l))
                else join sum (summary sum (pick d r l)) (some x))
              ≡ summary sum (node n l r)
        summed true x e = unfold summary in rw e refl
        summed false x e = unfold summary in rw e refl

    pub collect_node :
        IsEntry (true ∷ p) l
        → IsEntry (false ∷ p) r
        → IsHashed sum (node n l r)
        → dirty_top (node n l r) ≡ 0
        → Collects (true ∷ p) l key
        → Collects (false ∷ p) r key
        → Collects p (node n l r) key
    collect_node tl rt hashed z left right =
        let (own, zl, zr) = dirty_top-parts n l r 0 (omega (arith, z)) in
        let gl =
          get_hash-summary sum (true ∷ p) l (IsEntry-IsLive (true ∷ p) l tl) hashed.0
            (omega (arith, zl)) in
        let gr =
          get_hash-summary sum (false ∷ p) r (IsEntry-IsLive (false ∷ p) r rt) hashed.1
            (omega (arith, zr)) in
        elim (Bool-cases (goes_left key n.height)) [
          | inl way ↦ collect_child true way tl gr left
          | inr way ↦ collect_child false way rt gl right
        ]

  pub collect-Collects :
      (p : Way) (e : Entry) (key : Bytes)
      → length p ≤ 256
      → IsEntry p e
      → IsHashed sum e
      → dirty_top e ≡ 0
      → Collects p e key
  unfolding collect_receipt find summary follow count
  collect-Collects p nil key whole t hashed z = record {
    present = λ h f. absurd (cc f);
    absent = λ f. refl;
  }
  collect-Collects p (value k v) key whole t hashed z = record {
    present = λ h f. elim (Bool-cases (equal_bytes key k)) [
      | inl e ↦
          let same_ = equal_bytes→eq key k e in
          let kept : v ≡ h = cc (rw e at f) in
          ([], rw (same_, equal_bytes_refl k, kept) refl, ap some (sym kept))
      | inr e ↦ absurd (cc (rw e at f))
    ];
    absent = λ f. elim (Bool-cases (equal_bytes key k)) [
      | inl e ↦ absurd (cc (rw e at f))
      | inr e ↦ rw (equal_bytes_sym key k e) refl
    ];
  }
  collect-Collects p (node n l r) key whole t hashed z =
      let room = short_of_node p (node n l r) whole t t.1 in
      let (own, zl, zr) = dirty_top-parts n l r 0 (omega (arith, z)) in
      collect_node p n l r key room t.0 t.2 t.3 hashed z
        (collect-Collects (true ∷ p) l key (omega arith) t.2 hashed.0 (omega (arith, zl)))
        (collect-Collects (false ∷ p) r key (omega arith) t.3 hashed.1 (omega (arith, zr)))
