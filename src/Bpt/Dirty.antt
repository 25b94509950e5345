-- ===== src/Bpt/Dirty.antt =====
-- smt/pmt/bpt.go: the DirtyMap where two nodes have one key. Above height 254 `GetNodeKey` gives the blank
-- key, under which the map holds the node that `Dirty` was called with last.
use accumulate.Common.{
  ℕ, ◌≤◌, ◌<◌, ◌≡◌, inl, inr, refl, ap, sym, ◌∙◌, [], ◌∷◌, Option, some, Bool, true, false, not,
  ◌&&◌, ◌||◌, ltb, if◌then◌else◌, length, arith, Bool-cases,
}
use mathlib.Core.Path.{subst}
use accumulate.Common.Outcome.{Outcome, ok, ◌>>=◌}
use accumulate.Common.Bytes.{Bytes, equal_bytes_refl}
use accumulate.Bpt.{BptNode, Entry, nil, value, node, goes_left, pick, insert}
use accumulate.Bpt.Keys.{Way, On-goes_left}
use accumulate.Bpt.Trie.{find, count, IsEntry, IsNode, find-On, find-below, member, other_member}
use accumulate.Bpt.Canonical.{bare}
use accumulate.Bpt.Inserted.{IsBpt}

-- If a node on the way of the key is in the DirtyMap under the blank key.
unfoldable pub holds_blank : Bytes → Entry → Bool
holds_blank key nil = false
holds_blank key (value k h) = false
holds_blank key (node n l r) =
    let left = holds_blank key l in
    let right = holds_blank key r in
    (n.dirty && ltb 254 n.height) || (if goes_left key n.height then left else right)

-- The tree with no node in the DirtyMap under the blank key.
unfoldable pub drop_blank : Entry → Entry
drop_blank nil = nil
drop_blank (value k h) = value k h
drop_blank (node n l r) =
    node (record n { dirty = n.dirty && not (ltb 254 n.height) }) (drop_blank l) (drop_blank r)

-- The tree with no node in the DirtyMap under the blank key but for one on the way of the key.
unfoldable pub drop_others : Bytes → Entry → Entry
unfolding drop_blank
drop_others key nil = nil
drop_others key (value k h) = value k h
drop_others key (node n l r) =
    let left = drop_others key l in
    let right = drop_others key r in
    if goes_left key n.height then node n left (drop_blank r) else node n (drop_blank l) right

-- `Insert` with its DirtyMap. It puts one node at most into the map under the blank key, which is on the
-- way of the key and takes the place of the node that was there.
unfoldable pub insert_tracked : Entry → Bytes → Bytes → Outcome Entry
unfolding insert holds_blank drop_others
insert_tracked root key hash =
    insert root key hash >>= λ e. ok (if holds_blank key e then drop_others key e else e)

-- No node has the blank key.
abbrev pub IsLow : Entry → Type 0
IsLow nil = Unit
IsLow (value k h) = Unit
IsLow (node n l r) = (n.height ≤ 254) × IsLow l × IsLow r

holds_blank-IsLow : (key : Bytes) (e : Entry) → IsLow e → holds_blank key e ≡ false
unfolding holds_blank
holds_blank-IsLow key nil low = refl
holds_blank-IsLow key (value k h) low = refl
holds_blank-IsLow key (node n l r) low =
    let high : ltb 254 n.height ≡ false = ground (arith, low.0) in
    let left = holds_blank-IsLow key l low.1 in
    let right = holds_blank-IsLow key r low.2 in ground (arith, high, left, right)

-- Where the keys of nodes are different the marks are the DirtyMap.
pub insert_tracked-insert :
    (root e : Entry) (key hash : Bytes)
    → insert root key hash ≡ ok e
    → IsLow e
    → insert_tracked root key hash ≡ ok e
unfolding insert_tracked
insert_tracked-insert root e key hash s low =
    ap (λ m. m >>= λ x. ok (if holds_blank key x then drop_others key x else x)) s
    ∙ rw (holds_blank-IsLow key e low) refl

IsLow-bare : (e : Entry) → IsLow e → IsLow (bare e)
unfolding bare
IsLow-bare nil low = tt
IsLow-bare (value k h) low = tt
IsLow-bare (node n l r) low = (low.0, IsLow-bare l low.1, IsLow-bare r low.2)

IsLow-unbare : (e : Entry) → IsLow (bare e) → IsLow e
unfolding bare
IsLow-unbare nil low = tt
IsLow-unbare (value k h) low = tt
IsLow-unbare (node n l r) low = (low.0, IsLow-unbare l low.1, IsLow-unbare r low.2)

pub same_values-IsLow : (a b : Entry) → bare b ≡ bare a → IsLow a → IsLow b
same_values-IsLow a b e low = IsLow-unbare b (subst IsLow (sym e) (IsLow-bare a low))

-- Two keys with the same first 255 bits.
abbrev pub Close : Bytes → Bytes → Type 0
Close a b = (i : ℕ) → i < 255 → goes_left a i ≡ goes_left b i

-- No two keys that have a value are close.
abbrev pub Spread : (Bytes → Option Bytes) → Type 0
Spread f = (a b x y : Bytes) → f a ≡ some x → f b ≡ some y → Close a b → a ≡ b

short_of_Spread :
    (p : Way) (e : Entry) → IsEntry p e → 2 ≤ count e → Spread (find e) → length p ≤ 254
short_of_Spread p e t c spread =
    let (a, x, f) = member p e t (omega arith) in
    let (b, y, g, differs) = other_member p e a t c in
    elim (Bool-cases (ltb 254 (length p))) [
      | inr l ↦ ground (arith, l)
      | inl l ↦
          let close : Close b a = λ i m.
            On-goes_left p b a i (find-On p e b y t g).1 (find-On p e a x t f).1
              (ground (arith, l, m)) in
          let same_ = spread b a y x g f close in
          absurd (cc (rw (same_, equal_bytes_refl a) at differs))
    ]

Spread-pick :
    (p : Way) (n : BptNode) (l r : Entry) (b : Bool)
    → IsNode p (node n l r)
    → Spread (find (node n l r))
    → Spread (find (pick b l r))
Spread-pick p n l r b t spread x y g h at_x at_y =
    spread x y g h (find-below p n l r b x g t at_x) (find-below p n l r b y h t at_y)

IsEntry-IsLow : (p : Way) (e : Entry) → IsEntry p e → Spread (find e) → IsLow e
unfolding count
IsEntry-IsLow p nil t spread = tt
IsEntry-IsLow p (value k h) t spread = tt
IsEntry-IsLow p (node n l r) t spread =
    let short = short_of_Spread p (node n l r) t t.1 spread in
    let here : IsNode p (node n l r) = (t.0, t.2, t.3) in
    (
      omega (arith, short, t.0),
      IsEntry-IsLow (true ∷ p) l t.2 (Spread-pick p n l r true here spread),
      IsEntry-IsLow (false ∷ p) r t.3 (Spread-pick p n l r false here spread),
    )

-- A tree whose keys are spread has no node with the blank key.
pub IsBpt-IsLow : (e : Entry) → IsBpt e → Spread (find e) → IsLow e
IsBpt-IsLow nil t spread = tt
IsBpt-IsLow (value k h) t spread = tt
IsBpt-IsLow (node n l r) t spread = (
  omega (arith, t.0),
  IsEntry-IsLow (true ∷ []) l t.1 (Spread-pick [] n l r true t spread),
  IsEntry-IsLow (false ∷ []) r t.2 (Spread-pick [] n l r false t spread),
)
