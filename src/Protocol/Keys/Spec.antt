-- ===== src/Protocol/Keys/Spec.antt =====
-- How `AddKeySpec` compares entries, and where that puts a new one.
use accumulate.Common.{◌≡◌, ◌≢◌, ◌⊎◌, inl, inr, refl, ap, ◌∙◌, sym}
use accumulate.Common.{Option, none, some, List, [], ◌∷◌, ◌++◌, true, false}
use accumulate.Common.{length, take, drop, head?, All}
use accumulate.Common.{take-append, drop-append, All-append_left, All-append_right}
use accumulate.Common.Bytes.{Bytes, compare_bytes, compare_bytes-IsOrder}
use accumulate.Common.Compare.{negative, same, positive}
use accumulate.Sorted.Search.{search, binary_insert, is_same, set}
use accumulate.Sorted.Boundary.{LastBelow, FirstAbove}
use accumulate.Sorted.Keys.{set-append, cases, is_negative, is_zero, is_positive}
use accumulate.Url.Parts.{Url, equal}
use accumulate.Url.Order.{compare-IsPreorder}
use accumulate.Protocol.Keys.{KeySpec, by_delegate, by_spec, add_key_spec, no_spec}
use accumulate.Protocol.Keys.Order.{After, IsAscending, Lacks, All-LastBelow, All-first, below_flip}

-- How `AddKeySpec` compares, by the key hashes.
by_spec-positive :
    (k y : KeySpec)
    → by_spec k y ≡ positive
    → (compare_bytes k.public_key_hash y.public_key_hash ≡ negative)
      ⊎ (y.public_key_hash ≡ k.public_key_hash)
unfolding by_spec
by_spec-positive k y h = elim (cases (compare_bytes y.public_key_hash k.public_key_hash)) [
  | is_negative c ↦ absurd (cc (rw (c, by_spec) at h))
  | is_zero c ↦ inr (compare_bytes-IsOrder.same→eq y.public_key_hash k.public_key_hash c)
  | is_positive c ↦ inl (below_flip y.public_key_hash k.public_key_hash c)
]

by_spec-negative :
    (k x : KeySpec)
    → by_spec k x ≡ negative
    → (compare_bytes x.public_key_hash k.public_key_hash ≡ negative)
      ⊎ (x.public_key_hash ≡ k.public_key_hash)
unfolding by_spec
by_spec-negative k x h = elim (cases (compare_bytes x.public_key_hash k.public_key_hash)) [
  | is_negative c ↦ inl c
  | is_zero c ↦ inr (compare_bytes-IsOrder.same→eq x.public_key_hash k.public_key_hash c)
  | is_positive c ↦ absurd (cc (rw (c, by_spec) at h))
]

pub by_spec-same : (k y : KeySpec) → by_spec k y ≡ same → y.public_key_hash ≡ k.public_key_hash
unfolding by_spec
by_spec-same k y h = elim (cases (compare_bytes y.public_key_hash k.public_key_hash)) [
  | is_negative c ↦ absurd (cc (rw (c, by_spec) at h))
  | is_zero c ↦ compare_bytes-IsOrder.same→eq y.public_key_hash k.public_key_hash c
  | is_positive c ↦ absurd (cc (rw (c, by_spec) at h))
]

by_delegate-same :
    (l k : Option Url)
    → by_delegate l k ≡ same
    → (u : Url) × (v : Url) × (l ≡ some u) × (k ≡ some v) × (equal u v ≡ true)
unfolding by_delegate
by_delegate-same none k h = absurd cc
by_delegate-same (some u) none h = absurd cc
by_delegate-same (some u) (some v) h = (u, v, refl, refl, (compare-IsPreorder.same_iff u v).0 h)

-- Entries that are the same to it have delegates, which are equal.
pub by_spec-same_delegate :
    (k y : KeySpec)
    → by_spec k y ≡ same
    → (l : Url) × (d : Url) × (y.delegate ≡ some l) × (k.delegate ≡ some d) × (equal l d ≡ true)
unfolding by_spec
by_spec-same_delegate k y h = elim (cases (compare_bytes y.public_key_hash k.public_key_hash)) [
  | is_negative c ↦ absurd (cc (rw (c, by_spec) at h))
  | is_zero c ↦ by_delegate-same y.delegate k.delegate (rw (c, by_spec) at h)
  | is_positive c ↦ absurd (cc (rw (c, by_spec) at h))
]

-- What `AddKeySpec` makes of a page cut where it searches.
pub add_key_spec-found :
    (keys : List KeySpec) (k y : KeySpec) (front ys : List KeySpec)
    → front ++ y ∷ ys ≡ keys
    → (search keys (by_spec k)).0 ≡ length front
    → (search keys (by_spec k)).1 ≡ true
    → add_key_spec keys k ≡ front ++ k ∷ ys
unfolding add_key_spec binary_insert
add_key_spec-found keys k y front ys e i f =
    rw (f, i) (ap (λ z. set z (length front) k) (sym e) ∙ set-append front ys y k)

pub add_key_spec-new :
    (keys : List KeySpec) (k : KeySpec) (front back : List KeySpec)
    → front ++ back ≡ keys
    → (search keys (by_spec k)).0 ≡ length front
    → (search keys (by_spec k)).1 ≡ false
    → add_key_spec keys k ≡ front ++ k ∷ back
unfolding add_key_spec binary_insert
add_key_spec-new keys k front back e i f =
    let before : take (length front) keys ≡ front =
      ap (take (length front)) (sym e) ∙ take-append (length front) front back refl in
    let after : drop (length front) keys ≡ back =
      ap (drop (length front)) (sym e) ∙ drop-append (length front) front back refl in
    rw (f, i, before, after) (set-append front back no_spec k)

pub AtMost : Bytes → KeySpec → Type 0
AtMost h x = (compare_bytes x.public_key_hash h ≡ negative) ⊎ (x.public_key_hash ≡ h)

pub AtLeast : Bytes → KeySpec → Type 0
AtLeast h y = (compare_bytes h y.public_key_hash ≡ negative) ⊎ (y.public_key_hash ≡ h)

AtMost-After : (h : Bytes) (x y : KeySpec) → After x y → AtMost h y → AtMost h x
unfolding AtMost
AtMost-After h x y (inl a) (inl b) =
    inl (compare_bytes-IsOrder.trans x.public_key_hash y.public_key_hash h a b)
AtMost-After h x y (inl a) (inr b) = inl cc
AtMost-After h x y (inr (a, b)) (inl c) = inl cc
AtMost-After h x y (inr (a, b)) (inr c) = inr cc

AtLeast-After : (h : Bytes) (x y : KeySpec) → After x y → AtLeast h x → AtLeast h y
unfolding AtLeast
AtLeast-After h x y (inl a) (inl b) =
    inl (compare_bytes-IsOrder.trans h x.public_key_hash y.public_key_hash b a)
AtLeast-After h x y (inl a) (inr b) = inl cc
AtLeast-After h x y (inr (a, b)) (inl c) = inl cc
AtLeast-After h x y (inr (a, b)) (inr c) = inr cc

-- An entry whose key hash is on no entry of the page, or that has none.
abbrev pub Fresh : KeySpec → List KeySpec → Type 0
Fresh k keys = Lacks k.public_key_hash keys ⊎ (k.public_key_hash ≡ [])

pub All-before :
    (k : KeySpec) (keys : List KeySpec)
    → Fresh k keys
    → All (AtMost k.public_key_hash) keys
    → All (λ x. After x k) keys
unfolding AtMost
All-before k [] f a = tt
All-before k (x ∷ ks) (inl f) a =
    (elim a.0 [ inl lt ↦ inl lt | inr e ↦ absurd (f.0 e) ], All-before k ks (inl f.1) a.1)
All-before k (x ∷ ks) (inr f) a =
    (elim a.0 [ inl lt ↦ inl lt | inr e ↦ inr (cc, f) ], All-before k ks (inr f) a.1)

pub All-behind :
    (k : KeySpec) (keys : List KeySpec)
    → Fresh k keys
    → All (AtLeast k.public_key_hash) keys
    → All (After k) keys
unfolding AtLeast
All-behind k [] f a = tt
All-behind k (x ∷ ks) (inl f) a =
    (elim a.0 [ inl lt ↦ inl lt | inr e ↦ absurd (f.0 e) ], All-behind k ks (inl f.1) a.1)
All-behind k (x ∷ ks) (inr f) a =
    (elim a.0 [ inl lt ↦ inl lt | inr e ↦ inr (f, cc) ], All-behind k ks (inr f) a.1)

pub Fresh-split :
    (k : KeySpec) (xs ys : List KeySpec) → Fresh k (xs ++ ys) → Fresh k xs × Fresh k ys
Fresh-split k xs ys (inl f) = (
  inl (All-append_left (λ x. x.public_key_hash ≢ k.public_key_hash) xs ys f),
  inl (All-append_right (λ x. x.public_key_hash ≢ k.public_key_hash) xs ys f),
)
Fresh-split k xs ys (inr f) = (inr f, inr f)

pub All-front :
    (k : KeySpec) (front : List KeySpec)
    → IsAscending front
    → LastBelow (by_spec k) front
    → All (AtMost k.public_key_hash) front
unfolding AtMost
All-front k front s l =
    All-LastBelow (AtMost k.public_key_hash) (by_spec k) front (AtMost-After k.public_key_hash)
      (by_spec-negative k) s l

pub All-back :
    (k : KeySpec) (back : List KeySpec)
    → IsAscending back
    → FirstAbove (by_spec k) back
    → is_same (head? back) (by_spec k) ≡ false
    → All (AtLeast k.public_key_hash) back
unfolding AtLeast is_same
All-back k [] s f d = tt
All-back k (y ∷ ys) s f d = elim (cases (by_spec k y)) [
  | is_negative c ↦ absurd (cc (c, f))
  | is_zero c ↦ absurd (cc (rw (c, is_same) at d))
  | is_positive c ↦
      (let least : AtLeast k.public_key_hash y = by_spec-positive k y c in
        (
          least,
          All-first (AtLeast k.public_key_hash) (by_spec k) y ys (AtLeast-After k.public_key_hash y)
              s.0 least,
        ))
]
