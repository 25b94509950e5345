-- ===== src/Bpt/Range/Listed.antt =====
-- The values of a tree as a list, in the order of a walk.
use accumulate.Common.{
  ◌≡◌, ◌∙◌, ap, sym, refl, inl, inr, [], ◌∷◌, ◌++◌, List, Option, none, some, Bool, true, false,
  not, if◌then◌else◌, length, arith, Bool-cases, Option-cases, length-append,
}
use accumulate.Common.Bytes.{Bytes, equal_bytes, equal_bytes→eq, equal_bytes_refl}
use accumulate.Bpt.{BptNode, Entry, nil, value, node, goes_left, pick}
use accumulate.Bpt.Keys.{Way}
use accumulate.Bpt.Trie.{find, count, IsEntry, IsNode, find-On, find-pick, IsEntry-pick}
use accumulate.Bpt.Range.{BptValue}

unfoldable pub entries : Entry → List BptValue
entries nil = []
entries (value k h) = (k, h) ∷ []
entries (node n l r) = entries l ++ entries r

unfoldable pub hash_of : Bytes → List BptValue → Option Bytes
hash_of k [] = none
hash_of k ((j, h) ∷ vs) = if equal_bytes k j then some h else hash_of k vs

-- The values behind the one of a key.
unfoldable pub after_key : Bytes → List BptValue → List BptValue
after_key k [] = []
after_key k ((j, h) ∷ vs) = if equal_bytes k j then vs else after_key k vs

-- No key has two values.
abbrev pub IsMap : List BptValue → Type 0
IsMap [] = Unit
IsMap ((k, h) ∷ vs) = (hash_of k vs ≡ none) × IsMap vs

pub hash_of-append-some :
    (k h : Bytes) (vs ws : List BptValue) → hash_of k vs ≡ some h → hash_of k (vs ++ ws) ≡ some h
unfolding hash_of
hash_of-append-some k h [] ws e = absurd (cc e)
hash_of-append-some k h ((j, v) ∷ vs) ws e = elim (Bool-cases (equal_bytes k j)) [
  | inl same_ ↦ rw same_ (rw same_ at e)
  | inr other ↦ rw other (hash_of-append-some k h vs ws (rw other at e))
]

pub hash_of-append-none :
    (k : Bytes) (vs ws : List BptValue) → hash_of k vs ≡ none → hash_of k (vs ++ ws) ≡ hash_of k ws
unfolding hash_of
hash_of-append-none k [] ws e = refl
hash_of-append-none k ((j, v) ∷ vs) ws e = elim (Bool-cases (equal_bytes k j)) [
  | inl same_ ↦ absurd (cc (rw same_ at e))
  | inr other ↦ rw other (hash_of-append-none k vs ws (rw other at e))
]

pub hash_of-append-absent :
    (k : Bytes) (vs ws : List BptValue)
    → hash_of k (vs ++ ws) ≡ none
    → (hash_of k vs ≡ none) × (hash_of k ws ≡ none)
hash_of-append-absent k vs ws e = elim (Option-cases (hash_of k vs)) [
  | inl absent ↦ (absent, sym (hash_of-append-none k vs ws absent) ∙ e)
  | inr (h, f) ↦ absurd (cc (hash_of-append-some k h vs ws f, e))
]

pub after_key-append-some :
    (k h : Bytes) (vs ws : List BptValue)
    → hash_of k vs ≡ some h
    → after_key k (vs ++ ws) ≡ after_key k vs ++ ws
unfolding hash_of after_key
after_key-append-some k h [] ws e = absurd (cc e)
after_key-append-some k h ((j, v) ∷ vs) ws e = elim (Bool-cases (equal_bytes k j)) [
  | inl same_ ↦ rw same_ refl
  | inr other ↦ rw other (after_key-append-some k h vs ws (rw other at e))
]

pub after_key-append-none :
    (k : Bytes) (vs ws : List BptValue)
    → hash_of k vs ≡ none
    → after_key k (vs ++ ws) ≡ after_key k ws
unfolding hash_of after_key
after_key-append-none k [] ws e = refl
after_key-append-none k ((j, v) ∷ vs) ws e = elim (Bool-cases (equal_bytes k j)) [
  | inl same_ ↦ absurd (cc (rw same_ at e))
  | inr other ↦ rw other (after_key-append-none k vs ws (rw other at e))
]

-- The value at a place of a map is its key's, and behind its key is what follows.
pub place_in_map :
    (k h : Bytes) (vs ws : List BptValue)
    → IsMap (vs ++ (k, h) ∷ ws)
    → (hash_of k (vs ++ (k, h) ∷ ws) ≡ some h) × (after_key k (vs ++ (k, h) ∷ ws) ≡ ws)
unfolding hash_of after_key
place_in_map k h [] ws m = (rw (equal_bytes_refl k) refl, rw (equal_bytes_refl k) refl)
place_in_map k h ((j, v) ∷ vs) ws m =
    let (found, rest) = place_in_map k h vs ws m.1 in
    elim (Bool-cases (equal_bytes k j)) [
      | inl same_ ↦ absurd (cc (found, rw (← equal_bytes→eq k j same_) at m.0))
      | inr other ↦ (rw other found, rw other rest)
    ]

not_opposite : (b : Bool) → b ≡ not b → ⊥
not_opposite true e = cc e
not_opposite false e = cc e

-- A key has no value on the side where its way does not go.
pub find-aside :
    (p : Way) (n : BptNode) (l r : Entry) (k : Bytes) (b : Bool)
    → IsNode p (node n l r)
    → goes_left k n.height ≡ b
    → find (pick (not b) l r) k ≡ none
find-aside p n l r k b t e = elim (Option-cases (find (pick (not b) l r) k)) [
  | inl absent ↦ absent
  | inr (h, f) ↦
      let (key, on) =
        find-On (not b ∷ p) (pick (not b) l r) k h (IsEntry-pick p n l r (not b) t) f in
      absurd (not_opposite b (sym e ∙ ap (goes_left k) t.0 ∙ on.0))
]

pub find-children :
    (p : Way) (n : BptNode) (l r : Entry) (k : Bytes)
    → IsNode p (node n l r)
    → find l k ≡ hash_of k (entries l)
    → find r k ≡ hash_of k (entries r)
    → find (node n l r) k ≡ hash_of k (entries l ++ entries r)
find-children p n l r k t el er = elim (Bool-cases (goes_left k n.height)) [
  | inl e ↦ elim (Option-cases (find l k)) [
    | inl absent ↦
        let none_r = sym er ∙ find-aside p n l r k true t e in
        rw
          (
            find-pick n l r k true e,
            hash_of-append-none k (entries l) (entries r) (sym el ∙ absent),
            none_r,
          )
          absent
    | inr (h, f) ↦
        rw (find-pick n l r k true e, hash_of-append-some k h (entries l) (entries r) (sym el ∙ f))
          f
  ]
  | inr e ↦
      let none_l = sym el ∙ find-aside p n l r k false t e in
      rw (find-pick n l r k false e, hash_of-append-none k (entries l) (entries r) none_l) er
]

pub find-entries :
    (p : Way) (e : Entry) (k : Bytes) → IsEntry p e → find e k ≡ hash_of k (entries e)
unfolding find hash_of entries
find-entries p nil k t = refl
find-entries p (value j h) k t = refl
find-entries p (node n l r) k (high, two, tl, rt) =
    find-children p n l r k (high, tl, rt) (find-entries (true ∷ p) l k tl)
      (find-entries (false ∷ p) r k rt)

IsMap-append :
    (vs ws : List BptValue)
    → IsMap vs
    → IsMap ws
    → ((k h : Bytes) → hash_of k vs ≡ some h → hash_of k ws ≡ none)
    → IsMap (vs ++ ws)
unfolding hash_of
IsMap-append [] ws m n other = n
IsMap-append ((j, v) ∷ vs) ws m n other = (
  hash_of-append-none j vs ws m.0 ∙ other j v (rw (equal_bytes_refl j) refl),
  IsMap-append vs ws m.1 n (λ k h e. elim (Bool-cases (equal_bytes k j)) [
    | inl same_ ↦ other k v (rw same_ refl)
    | inr differs ↦ other k h (rw differs e)
  ]),
)

pub children-IsMap :
    (p : Way) (n : BptNode) (l r : Entry)
    → IsNode p (node n l r)
    → IsMap (entries l)
    → IsMap (entries r)
    → IsMap (entries l ++ entries r)
children-IsMap p n l r (high, tl, rt) ml mr = IsMap-append (entries l) (entries r) ml mr (λ k h e.
    let f = find-entries (true ∷ p) l k tl ∙ e in
    let left = (find-On (true ∷ p) l k h tl f).1.0 in
    sym (find-entries (false ∷ p) r k rt)
    ∙ find-aside p n l r k true (high, tl, rt) (ap (goes_left k) high ∙ left))

pub entries-IsMap : (p : Way) (e : Entry) → IsEntry p e → IsMap (entries e)
unfolding entries hash_of
entries-IsMap p nil t = tt
entries-IsMap p (value k h) t = (refl, tt)
entries-IsMap p (node n l r) (high, two, tl, rt) =
    children-IsMap p n l r (high, tl, rt) (entries-IsMap (true ∷ p) l tl)
      (entries-IsMap (false ∷ p) r rt)

pub length-entries : (e : Entry) → length (entries e) ≡ count e
unfolding entries count
length-entries nil = omega arith
length-entries (value k h) = omega arith
length-entries (node n l r) =
    omega (arith, length-append (entries l) (entries r), length-entries l, length-entries r)
