-- ===== src/Protocol/Keys/Insert.antt =====
-- `AddKeySpec` on a page of ascending entries.
use accumulate.Common.{◌≤◌, ◌≡◌, ◌≢◌, inl, inr, refl, ap, arith, sym}
use accumulate.Common.{◌⊎◌, some, List, [], ◌∷◌, ◌++◌, Bool, true, false}
use accumulate.Common.{length, head?, All}
use accumulate.Common.{All-append_right, length-append}
use accumulate.Common.Compare.{same}
use accumulate.Sorted.Search.{search, is_same}
use accumulate.Sorted.Boundary.{LastBelow, FirstAbove, boundary}
use accumulate.Sorted.Keys.{IsSorted-insert, cases, is_negative, is_zero, is_positive}
use accumulate.Url.Parts.{Url, equal}
use accumulate.Protocol.Keys.{KeySpec, by_spec, add_key_spec}
use accumulate.Protocol.Keys.Order.{After, IsAscending, Lacks, IsSorted-left, IsSorted-right}
use accumulate.Protocol.Keys.Spec.{
  by_spec-same, by_spec-same_delegate, add_key_spec-found, add_key_spec-new, Fresh, All-before,
  All-behind, Fresh-split, All-front, All-back,
}

-- An entry can give way to one with the same key hash.
replace_entry :
    (xs ys : List KeySpec) (y k : KeySpec)
    → y.public_key_hash ≡ k.public_key_hash
    → IsAscending (xs ++ y ∷ ys)
    → IsAscending (xs ++ k ∷ ys)
replace_entry [] ys y k e s = (behind ys s.0, s.1)
  where
    behind : (zs : List KeySpec) → All (After y) zs → All (After k) zs
    behind [] h = tt
    behind (z ∷ zs) h = (elim h.0 [ inl lt ↦ inl cc | inr (a, b) ↦ inr (cc, b) ], behind zs h.1)
replace_entry (x ∷ xs) ys y k e s = (among xs s.0, replace_entry xs ys y k e s.1)
  where
    among : (zs : List KeySpec) → All (After x) (zs ++ y ∷ ys) → All (After x) (zs ++ k ∷ ys)
    among [] h = (elim h.0 [ inl lt ↦ inl cc | inr (a, b) ↦ inr (a, cc) ], h.1)
    among (z ∷ zs) h = (h.0, among zs h.1)

-- What an insertion makes of a page.
abbrev pub Inserts : KeySpec → List KeySpec → List KeySpec → Type 0
Inserts k keys new =
    (front : List KeySpec) × (back : List KeySpec) × (front ++ back ≡ keys)
    × (new ≡ front ++ k ∷ back)

-- An entry gives way to one with its key hash and its delegate.
abbrev pub Replaces : KeySpec → List KeySpec → List KeySpec → Type 0
Replaces k keys new =
    (front : List KeySpec) × (y : KeySpec) × (back : List KeySpec) × (front ++ y ∷ back ≡ keys)
    × (new ≡ front ++ k ∷ back)
    × (y.public_key_hash ≡ k.public_key_hash)
    × (l : Url) × (d : Url) × (y.delegate ≡ some l)
    × (k.delegate ≡ some d)
    × (equal l d ≡ true)

-- What `AddKeySpec` must do.
abbrev pub AddsKey : KeySpec → List KeySpec → List KeySpec → Type 0
AddsKey k keys new =
    IsAscending new
    × (Inserts k keys new ⊎ Replaces k keys new)
    × (Lacks k.public_key_hash keys → Inserts k keys new)

-- The page gets no shorter.
pub AddsKey-length :
    (k : KeySpec) (keys new : List KeySpec) → AddsKey k keys new → length keys ≤ length new
AddsKey-length k keys new (_, inl (front, back, e, now), _) =
    let before = ap (length {A = KeySpec}) e in
    let after = ap (length {A = KeySpec}) now in
    omega (arith, before, after, length-append front back, length-append front (k ∷ back))
AddsKey-length k keys new (_, inr (front, y, back, e, now, _, _, _, _, _, _), _) =
    let before = ap (length {A = KeySpec}) e in
    let after = ap (length {A = KeySpec}) now in
    omega (arith, before, after, length-append front (y ∷ back), length-append front (k ∷ back))

AddsKey-found :
    (k y : KeySpec) (front ys : List KeySpec) (keys : List KeySpec)
    → front ++ y ∷ ys ≡ keys
    → IsAscending keys
    → by_spec k y ≡ same
    → AddsKey k keys (front ++ k ∷ ys)
AddsKey-found k y front ys keys e s c =
    let same_hash = by_spec-same k y c in
    let (l, d, at_y, at_k, equals) = by_spec-same_delegate k y c in
    (
      replace_entry front ys y k same_hash (rw e s),
      inr (front, y, ys, e, refl, same_hash, l, d, at_y, at_k, equals),
      λ f. absurd (
          (All-append_right (λ x. x.public_key_hash ≢ k.public_key_hash) front (y ∷ ys) (rw e f)).0
            same_hash),
    )

AddsKey-new :
    (k : KeySpec) (front back : List KeySpec) (keys : List KeySpec)
    → front ++ back ≡ keys
    → IsAscending keys
    → Fresh k keys
    → LastBelow (by_spec k) front
    → FirstAbove (by_spec k) back
    → is_same (head? back) (by_spec k) ≡ false
    → AddsKey k keys (front ++ k ∷ back)
AddsKey-new k front back keys e s f l a d =
    let s' : IsAscending (front ++ back) = rw e s in
    let (fresh_front, fresh_back) = Fresh-split k front back (rw e f) in
    let before = All-front k front (IsSorted-left front back s') l in
    let behind = All-back k back (IsSorted-right front back s') a d in
    (
      IsSorted-insert After front back k s' (All-before k front fresh_front before)
          (All-behind k back fresh_back behind),
      inl (front, back, e, refl),
      λ _. (front, back, e, refl),
    )

AddsKey-cut :
    (keys : List KeySpec) (k : KeySpec)
    → IsAscending keys
    → Fresh k keys
    → (front back : List KeySpec) → front ++ back ≡ keys
    → (search keys (by_spec k)).0 ≡ length front
    → LastBelow (by_spec k) front
    → FirstAbove (by_spec k) back
    → (found : Bool) → (search keys (by_spec k)).1 ≡ found
    → is_same (head? back) (by_spec k) ≡ found
    → AddsKey k keys (add_key_spec keys k)
unfolding is_same
AddsKey-cut keys k s f front [] e i l a true d g = cc
AddsKey-cut keys k s f front (y ∷ ys) e i l a true d g =
    let c : by_spec k y ≡ same = elim (cases (by_spec k y)) [
      | is_negative n ↦ absurd (cc (n, a))
      | is_zero n ↦ n
      | is_positive n ↦ absurd (cc (rw (n, is_same) at g))
    ] in
    rw (add_key_spec-found keys k y front ys e i d) (AddsKey-found k y front ys keys e s c)
AddsKey-cut keys k s f front back e i l a false d g =
    rw (add_key_spec-new keys k front back e i d) (AddsKey-new k front back keys e s f l a g)

-- `AddKeySpec` of an entry whose key hash is on no entry of the page, or that has none, keeps the entries
-- ascending. The new page is the old one with the entry put in, or put in the place of one entry that has
-- its key hash and an equal delegate; where the page lacks the key hash, it is put in.
pub add_key_spec-AddsKey :
    (keys : List KeySpec) (k : KeySpec)
    → IsAscending keys
    → Fresh k keys
    → AddsKey k keys (add_key_spec keys k)
add_key_spec-AddsKey keys k s f =
    let b = boundary (by_spec k) keys in
    AddsKey-cut keys k s f b.front b.back b.joins b.index b.last_below b.first_above
      (search keys (by_spec k)).1 refl (sym b.found)
