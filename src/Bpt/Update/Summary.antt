-- ===== src/Bpt/Update/Summary.antt =====
-- The hash of a tree that is computed from its values alone.
use accumulate.Common.{
  ◌+◌, ◌≤◌, ◌<◌, ◌≡◌, ◌⊎◌, inl, inr, refl, ap, sym, ◌∙◌, ◌∷◌, ◌++◌, none, some, true, false, length,
  arith,
}
use accumulate.Common.Outcome.{ok}
use accumulate.Common.Bytes.{Bytes}
use accumulate.Merkle.Hash.{Hash}
use accumulate.Bpt.{Entry, nil, value, node, zeros}
use accumulate.Bpt.Keys.{Way}
use accumulate.Bpt.Trie.{count, IsEntry, some_side}
use accumulate.Bpt.Canonical.{bare}
use accumulate.Bpt.Update.{get_hash, dirty_top, hash_children}

-- An entry at the end of a way, with a value in each node.
abbrev pub IsLive : Way → Entry → Type 0
IsLive p nil = Unit
IsLive p (value k h) = Unit
IsLive p (node n l r) =
    (n.height ≡ length p) × (1 ≤ count l + count r) × IsLive (true ∷ p) l × IsLive (false ∷ p) r

pub IsEntry-IsLive : (p : Way) (e : Entry) → IsEntry p e → IsLive p e
IsEntry-IsLive p nil t = tt
IsEntry-IsLive p (value k h) t = tt
IsEntry-IsLive p (node n l r) (high, two, tl, rt) =
    (high, omega arith, IsEntry-IsLive (true ∷ p) l tl, IsEntry-IsLive (false ∷ p) r rt)

-- A dirty node of a subtree is at least as high as the subtree starts.
pub dirty_top-above :
    (p : Way) (e : Entry) → IsLive p e → (dirty_top e ≡ 0) ⊎ (length p < dirty_top e)
unfolding dirty_top
dirty_top-above p nil t = inl refl
dirty_top-above p (value k h) t = inl refl
dirty_top-above p (node n l r) (high, some_, tl, rt) =
    ground (arith, high, dirty_top-above (true ∷ p) l tl, dirty_top-above (false ∷ p) r rt)

-- The hash of no children, one, or two.
unfoldable pub join : (Bytes → Bytes) → Hash → Hash → Hash
join sum none right = right
join sum (some left) none = some left
join sum (some left) (some right) = some (sum (left ++ right))

abbrev pub or_zeros : Hash → Bytes
or_zeros none = zeros
or_zeros (some h) = h

module _ (sum : Bytes → Bytes) where
  -- The summary hash, by recursion on the tree.
  unfoldable pub summary : Entry → Hash
  unfolding join
  summary nil = none
  summary (value k h) = some h
  summary (node n l r) = join sum (summary l) (summary r)

  pub summary-bare : (e : Entry) → summary (bare e) ≡ summary e
  unfolding summary bare
  summary-bare nil = refl
  summary-bare (value k h) = refl
  summary-bare (node n l r) = rw (summary-bare l, summary-bare r) refl

  -- Trees with the same values have the same summary.
  pub summary_same_values : (a b : Entry) → bare b ≡ bare a → summary b ≡ summary a
  summary_same_values a b e = sym (summary-bare b) ∙ ap summary e ∙ summary-bare a

  join-some : (x : Bytes) (b : Hash) → (h : Bytes) × (join sum (some x) b ≡ some h)
  unfolding join
  join-some x none = (x, refl)
  join-some x (some y) = (sum (x ++ y), refl)

  join-some_right : (a : Hash) (y : Bytes) → (h : Bytes) × (join sum a (some y) ≡ some h)
  unfolding join
  join-some_right none y = (y, refl)
  join-some_right (some x) y = (sum (x ++ y), refl)

  pub summary-some : (e : Entry) → 1 ≤ count e → (h : Bytes) × (summary e ≡ some h)
  unfolding summary count
  summary-some nil c = absurd (omega arith)
  summary-some (value k h) c = (h, refl)
  summary-some (node n l r) c = elim (some_side (count l) (count r) c) [
    | inl left ↦ let (x, e) = summary-some l left in rw e (join-some x (summary r))
    | inr right ↦ let (y, e) = summary-some r right in rw e (join-some_right (summary l) y)
  ]

  -- The hashes of the nodes that are not dirty, nor have a dirty node above them, are right.
  abbrev pub IsHashed : Entry → Type 0
  IsHashed nil = Unit
  IsHashed (value k h) = Unit
  IsHashed (node n l r) =
      IsHashed l
      × IsHashed r
      × (dirty_top (node n l r) ≡ 0 → n.hash ≡ or_zeros (summary (node n l r)))

  pub get_hash-summary :
      (p : Way) (e : Entry) → IsLive p e → IsHashed e → dirty_top e ≡ 0 → get_hash e ≡ summary e
  unfolding get_hash summary
  get_hash-summary p nil t h z = refl
  get_hash-summary p (value k x) t h z = refl
  get_hash-summary p (node n l r) t h z =
      let (x, e) = summary-some (node n l r) (unfold count in t.1) in
      let right : n.hash ≡ x = h.2 z ∙ ap or_zeros e in ap some right ∙ sym e

  pub hash_children-join :
      (a b : Hash) (h : Bytes) → join sum a b ≡ some h → hash_children sum a b ≡ ok h
  unfolding join hash_children
  hash_children-join none none h e = absurd cc
  hash_children-join none (some y) h e = cc
  hash_children-join (some x) none h e = cc
  hash_children-join (some x) (some y) h e = cc
