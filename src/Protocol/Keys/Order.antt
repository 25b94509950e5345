-- ===== src/Protocol/Keys/Order.antt =====
-- The entries of a key page stand in the order of their key hashes, each hash once: what a search
-- finds there, and that `AddKeySpec` and `RemoveKeySpecAt` keep it.
use accumulate.Common.{ℕ, ◌≡◌, ◌≢◌, ◌⊎◌, inl, inr, ap, ◌∙◌, sym}
use accumulate.Common.{List, [], ◌∷◌, ◌++◌, Option, none, some, Bool, true, false}
use accumulate.Common.{if◌then◌else◌, length, get_elem?, head?, All}
use accumulate.Common.{get_elem?-length, All-append}
use accumulate.Common.Bytes.{Bytes, compare_bytes, compare_bytes-IsOrder}
use accumulate.Common.Compare.{Sign, negative, positive, flip}
use accumulate.Sorted.Search.{search, is_same}
use accumulate.Sorted.Boundary.{LastBelow, FirstAbove, boundary}
use accumulate.Sorted.Keys.{IsSorted, cases, is_negative, is_zero, is_positive}
use accumulate.Protocol.Keys.{KeySpec, KeyPage, by_key_hash, entry_by_key_hash}

-- An entry may be followed by one with a later key hash, or by another without a key hash.
abbrev pub After : KeySpec → KeySpec → Type 0
After x y =
    (compare_bytes x.public_key_hash y.public_key_hash ≡ negative)
    ⊎ ((x.public_key_hash ≡ []) × (y.public_key_hash ≡ []))

abbrev pub IsAscending : List KeySpec → Type 0
IsAscending keys = IsSorted After keys

-- No entry has the key hash.
abbrev pub Lacks : Bytes → List KeySpec → Type 0
Lacks h keys = All (λ x. x.public_key_hash ≢ h) keys

module _ (P : KeySpec → Type 0) (cmp : KeySpec → Sign) where
  -- What holds of the last entry of a part, and of what comes before where it holds, is true of all.
  pub All-LastBelow :
      (keys : List KeySpec)
      → ((x y : KeySpec) → After x y → P y → P x)
      → ((x : KeySpec) → cmp x ≡ negative → P x)
      → IsAscending keys
      → LastBelow cmp keys
      → All P keys
  All-LastBelow [] back last s h = tt
  All-LastBelow (x ∷ []) back last s h = (last x h, tt)
  All-LastBelow (x ∷ y ∷ ks) back last s h =
      let rest = All-LastBelow (y ∷ ks) back last s.1 h in (back x y s.0.0 rest.0, rest)

  pub All-first :
      (x : KeySpec) (keys : List KeySpec)
      → ((y : KeySpec) → After x y → P x → P y)
      → All (After x) keys
      → P x
      → All P keys
  All-first x [] step s h = tt
  All-first x (y ∷ ks) step s h = (step y s.0 h, All-first x ks step s.1 h)

pub After-trans : (x y z : KeySpec) → After x y → After y z → After x z
After-trans x y z (inl a) (inl b) =
    inl (compare_bytes-IsOrder.trans x.public_key_hash y.public_key_hash z.public_key_hash a b)
After-trans x y z (inl a) (inr (b, c)) = inl (cc)
After-trans x y z (inr (a, b)) (inl c) = inl (cc)
After-trans x y z (inr (a, b)) (inr (c, d)) = inr (a, d)

-- A hash below another, from either side.
pub below_flip : (h k : Bytes) → compare_bytes h k ≡ positive → compare_bytes k h ≡ negative
below_flip h k e = compare_bytes-IsOrder.flips h k ∙ ap flip e

below_ne : (h k : Bytes) → compare_bytes h k ≡ negative → h ≢ k
below_ne h k e d = cc (e, d, compare_bytes-IsOrder.same_refl k)

Lower : Bytes → KeySpec → Type 0
Lower h x = compare_bytes x.public_key_hash h ≡ negative

Upper : Bytes → KeySpec → Type 0
Upper h x = compare_bytes h x.public_key_hash ≡ negative

Lower-After : (h : Bytes) (x y : KeySpec) → After x y → Lower h y → Lower h x
unfolding Lower
Lower-After h x y (inl a) l = compare_bytes-IsOrder.trans x.public_key_hash y.public_key_hash h a l
Lower-After h x y (inr (a, b)) l = cc

Upper-After : (h : Bytes) (x y : KeySpec) → After x y → Upper h x → Upper h y
unfolding Upper
Upper-After h x y (inl a) u = compare_bytes-IsOrder.trans h x.public_key_hash y.public_key_hash u a
Upper-After h x y (inr (a, b)) u = cc

Lower-Lacks : (h : Bytes) (keys : List KeySpec) → All (Lower h) keys → Lacks h keys
unfolding Lower
Lower-Lacks h [] a = tt
Lower-Lacks h (x ∷ ks) a = (below_ne x.public_key_hash h a.0, Lower-Lacks h ks a.1)

Upper-Lacks : (h : Bytes) (keys : List KeySpec) → All (Upper h) keys → Lacks h keys
unfolding Upper
Upper-Lacks h [] a = tt
Upper-Lacks h (x ∷ ks) a = ((λ e. below_ne h x.public_key_hash a.0 (sym e)), Upper-Lacks h ks a.1)

pub IsSorted-left : (xs ys : List KeySpec) → IsAscending (xs ++ ys) → IsAscending xs
IsSorted-left [] ys s = tt
IsSorted-left (x ∷ xs) ys s = (left xs s.0, IsSorted-left xs ys s.1)
  where
    left : (zs : List KeySpec) → All (After x) (zs ++ ys) → All (After x) zs
    left [] h = tt
    left (z ∷ zs) h = (h.0, left zs h.1)

pub IsSorted-right : (xs ys : List KeySpec) → IsAscending (xs ++ ys) → IsAscending ys
IsSorted-right [] ys s = s
IsSorted-right (x ∷ xs) ys s = IsSorted-right xs ys s.1

-- What `EntryByKeyHash` must answer.
abbrev pub Finds : List KeySpec → Bytes → Option ℕ → Type 0
Finds keys h none = Lacks h keys
Finds keys h (some i) = (e : KeySpec) × (get_elem? keys i ≡ some e) × (e.public_key_hash ≡ h)

-- The rest of a page, where its first entry is above the key hash and not equal to it.
Lacks-above :
    (h : Bytes) (back : List KeySpec)
    → IsAscending back
    → FirstAbove (by_key_hash h) back
    → is_same (head? back) (by_key_hash h) ≡ false
    → Lacks h back
unfolding is_same Upper
Lacks-above h [] s f d = tt
Lacks-above h (y ∷ ys) s f d = elim (cases (compare_bytes y.public_key_hash h)) [
  | is_negative c ↦ absurd (cc (c, f))
  | is_zero c ↦ absurd (cc (rw (c, is_same) at d))
  | is_positive c ↦
      (let upper : Upper h y = below_flip y.public_key_hash h c in
        Upper-Lacks h (y ∷ ys)
          (upper, All-first (Upper h) (by_key_hash h) y ys (Upper-After h y) s.0 upper))
]

Finds-split :
    (keys : List KeySpec) (h : Bytes) (front back : List KeySpec)
    → IsAscending front
    → IsAscending back
    → front ++ back ≡ keys
    → LastBelow (by_key_hash h) front
    → FirstAbove (by_key_hash h) back
    → (found : Bool) → is_same (head? back) (by_key_hash h) ≡ found
    → Finds keys h (if found then some (length front) else none)
unfolding is_same Lower
Finds-split keys h front [] s t e l f true d = cc
Finds-split keys h front (y ∷ ys) s t e l f true d = (
  y,
  ap (λ z. get_elem? z (length front)) (sym e) ∙ get_elem?-length front (y ∷ ys),
  elim (cases (compare_bytes y.public_key_hash h)) [
    | is_negative c ↦ absurd (cc (c, f))
    | is_zero c ↦ compare_bytes-IsOrder.same→eq y.public_key_hash h c
    | is_positive c ↦ absurd (cc (rw (c, is_same) at d))
  ],
)
Finds-split keys h front back s t e l f false d =
    let lower =
      Lower-Lacks h front
        (All-LastBelow (Lower h) (by_key_hash h) front (Lower-After h) (λ x c. c) s l) in
    rw e at (All-append (λ x. x.public_key_hash ≢ h) front back lower (Lacks-above h back t f d))

-- In a page of ascending entries `EntryByKeyHash` finds an entry with the key hash, if one has it.
pub entry_by_key_hash-Finds :
    (p : KeyPage) (h : Bytes) → IsAscending p.keys → Finds p.keys h (entry_by_key_hash p h)
unfolding entry_by_key_hash
entry_by_key_hash-Finds p h s =
    let b = boundary (by_key_hash h) p.keys in
    let s' : IsAscending (b.front ++ b.back) = rw b.joins s in
    rw (b.index) (
      Finds-split p.keys h b.front b.back (IsSorted-left b.front b.back s')
        (IsSorted-right b.front b.back s') b.joins b.last_below b.first_above
        (search p.keys (by_key_hash h)).1 (sym b.found))
