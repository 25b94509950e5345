-- ===== src/Bpt/Update/Tops.antt =====
-- The height below which all dirty nodes are, of a node and of its entries.
use accumulate.Common.{ℕ, ◌≤◌, ◌<◌, ◌≡◌, inl, inr, true, arith, Bool-cases}
use accumulate.Bpt.{BptNode, Entry, node}
use accumulate.Bpt.Update.{dirty_top}

pub dirty_top-parts :
    (n : BptNode) (l r : Entry) (b : ℕ)
    → dirty_top (node n l r) ≤ b
    → (n.dirty ≡ true → n.height < b) × (dirty_top l ≤ b) × (dirty_top r ≤ b)
unfolding dirty_top
dirty_top-parts n l r b h = (own, ground (arith, h), ground (arith, h))
  where
    own : n.dirty ≡ true → n.height < b
    own e = ground (arith, h, e)

pub dirty_top-bound :
    (n : BptNode) (l r : Entry) (b : ℕ)
    → (n.dirty ≡ true → n.height < b)
    → dirty_top l ≤ b
    → dirty_top r ≤ b
    → dirty_top (node n l r) ≤ b
unfolding dirty_top
dirty_top-bound n l r b own hl hr = elim (Bool-cases n.dirty) [
  | inl e ↦ let o = own e in ground (arith, e, o, hl, hr)
  | inr e ↦ ground (arith, e, hl, hr)
]
