-- ===== src/Bpt/Range/Walked.antt =====
-- `WalkRange` collects the values behind the key, as many as are wanted.
use mathlib.Core.List.{append_assoc, append-nil}
use accumulate.Common.{
  ℕ, ◌≤◌, ◌<◌, ◌≡◌, ◌∙◌, ap, sym, refl, inl, inr, [], ◌∷◌, ◌++◌, List, none, some, true, false,
  ◌||◌, leb, if◌then◌else◌, length, take, arith, Bool-cases, length-append, length-take_le,
}
use accumulate.Common.Slices.{take_le-append, take_all}
use accumulate.Common.Bytes.{Bytes, equal_bytes}
use accumulate.Bpt.{BptNode, Entry, nil, value, node, goes_left}
use accumulate.Bpt.Keys.{Way}
use accumulate.Bpt.Trie.{find, IsEntry, IsNode, find-pick}
use accumulate.Bpt.Writes.{short_of_node}
use accumulate.Bpt.Range.{BptValue, Walk, unless_done, walk_range}
use accumulate.Bpt.Range.Listed.{
  entries, hash_of, after_key, hash_of-append-absent, after_key-append-some, after_key-append-none,
  find-aside, find-entries,
}

unless_done-short :
    (count : ℕ) (step : Walk → Walk) (s : Walk)
    → length s.1 < count
    → unless_done count step s ≡ step s
unfolding unless_done
unless_done-short count step s room =
    let short : leb count (length s.1) ≡ false = ground (arith, room) in rw short refl

module _ (count : ℕ) (key : Bytes) where
  -- A walk with the flag adds the values of the entry, up to the count.
  abbrev Adds : Entry → Type 0
  Adds e =
      (vs : List BptValue)
      → length vs < count
      → walk_range count key e (true, vs) ≡ (true, take count (vs ++ entries e))

  then_next :
      (e : Entry) (vs : List BptValue)
      → Adds e
      → unless_done count (walk_range count key e) (true, take count vs)
        ≡ (true, take count (vs ++ entries e))
  unfolding unless_done
  then_next e vs adds = elim (Bool-cases (leb count (length vs))) [
    | inl full ↦
        let whole = length-take_le count vs (ground (arith, full)) in
        let done : leb count (length (take count vs)) ≡ true = rw whole (ground arith) in
        rw (done, take_le-append count vs (entries e) (ground (arith, full))) refl
    | inr room ↦
        rw (take_all count vs (ground (arith, room)), room) (adds vs (ground (arith, room)))
  ]

  walk_range-Adds : (e : Entry) → hash_of key (entries e) ≡ none → Adds e
  unfolding walk_range entries hash_of unless_done
  walk_range-Adds nil absent vs room = rw (append-nil vs, take_all count vs (omega arith)) refl
  walk_range-Adds (value k h) absent vs room = elim (Bool-cases (equal_bytes key k)) [
    | inl same_ ↦ absurd (cc (rw same_ at absent))
    | inr other ↦
        let fits = length-append vs ((k, h) ∷ []) in
        rw (other, take_all count (vs ++ (k, h) ∷ []) (omega (arith, fits, room))) refl
  ]
  walk_range-Adds (node n l r) absent vs room =
      let (absent_l, absent_r) = hash_of-append-absent key (entries l) (entries r) absent in
      unless_done-short count
        (λ s'.
          unless_done count (walk_range count key r)
            (if s'.0 || goes_left key n.height then walk_range count key l s' else s'))
        (true, vs) room
      ∙ ap (unless_done count (walk_range count key r)) (walk_range-Adds l absent_l vs room)
      ∙ then_next r (vs ++ entries l) (walk_range-Adds r absent_r)
      ∙ ap (λ ws. (true, take count ws)) (append_assoc vs (entries l) (entries r))

  -- A walk without the flag starts with these values, up to the count.
  abbrev pub Starts : Entry → List BptValue → Type 0
  Starts e vs = walk_range count key e (false, []) ≡ (true, take count vs)

  pub Starts-left :
      (n : BptNode) (l r : Entry) (vs : List BptValue)
      → 0 < count
      → goes_left key n.height ≡ true
      → hash_of key (entries r) ≡ none
      → Starts l vs
      → Starts (node n l r) (vs ++ entries r)
  unfolding walk_range unless_done
  Starts-left n l r vs some_ way absent starts =
      unless_done-short count
        (λ s'.
          unless_done count (walk_range count key r)
            (if s'.0 || goes_left key n.height then walk_range count key l s' else s'))
        (false, []) some_
      ∙ rw (way, starts) (then_next r vs (walk_range-Adds r absent))

  Starts-right :
      (n : BptNode) (l r : Entry) (vs : List BptValue)
      → 0 < count
      → goes_left key n.height ≡ false
      → Starts r vs
      → Starts (node n l r) vs
  unfolding walk_range unless_done
  Starts-right n l r vs some_ way starts =
      unless_done-short count
        (λ s'.
          unless_done count (walk_range count key r)
            (if s'.0 || goes_left key n.height then walk_range count key l s' else s'))
        (false, []) some_
      ∙ rw way (unless_done-short count (walk_range count key r) (false, []) some_ ∙ starts)

  pub after_node :
      (p : Way) (n : BptNode) (l r : Entry) (h : Bytes)
      → 0 < count
      → IsNode p (node n l r)
      → find (node n l r) key ≡ some h
      → (find l key ≡ some h → Starts l (after_key key (entries l)))
      → (find r key ≡ some h → Starts r (after_key key (entries r)))
      → Starts (node n l r) (after_key key (entries l ++ entries r))
  after_node p n l r h some_ (high, tl, rt) f below_l below_r =
      elim (Bool-cases (goes_left key n.height)) [
        | inl way ↦
            let fl = sym (find-pick n l r key true way) ∙ f in
            let absent =
              sym (find-entries (false ∷ p) r key rt)
              ∙ find-aside p n l r key true (high, tl, rt) way in
            rw
              (after_key-append-some key h (entries l) (entries r)
                (sym (find-entries (true ∷ p) l key tl) ∙ fl))
              (Starts-left n l r (after_key key (entries l)) some_ way absent (below_l fl))
        | inr way ↦
            let fr = sym (find-pick n l r key false way) ∙ f in
            let absent =
              sym (find-entries (true ∷ p) l key tl)
              ∙ find-aside p n l r key false (high, tl, rt) way in
            rw (after_key-append-none key (entries l) (entries r) absent)
              (Starts-right n l r (after_key key (entries r)) some_ way (below_r fr))
      ]

  -- From a key with a value a walk takes the values behind it.
  pub walk_range-after_key :
      (p : Way) (e : Entry) (h : Bytes)
      → 0 < count
      → IsEntry p e
      → find e key ≡ some h
      → Starts e (after_key key (entries e))
  unfolding walk_range entries after_key find
  walk_range-after_key p nil h some_ t f = absurd (cc f)
  walk_range-after_key p (value k v) h some_ t f = elim (Bool-cases (equal_bytes key k)) [
    | inl same_ ↦ rw (same_, take_all {A = BptValue} count [] (omega arith)) refl
    | inr other ↦ absurd (cc (rw other at f))
  ]
  walk_range-after_key p (node n l r) h some_ (high, two, tl, rt) f =
      after_node p n l r h some_ (high, tl, rt) f (walk_range-after_key (true ∷ p) l h some_ tl)
        (walk_range-after_key (false ∷ p) r h some_ rt)

  -- From a key that is before all others, and has no value, a walk takes all values.
  pub walk_range-all :
      (p : Way) (e : Entry)
      → 0 < count
      → ((i : ℕ) → i < 256 → goes_left key i ≡ true)
      → length p ≤ 256
      → IsEntry p e
      → hash_of key (entries e) ≡ none
      → Starts e (entries e)
  unfolding walk_range entries hash_of accumulate.Bpt.Trie.count
  walk_range-all p nil some_ first short t absent =
      rw (take_all {A = BptValue} count [] (omega arith)) refl
  walk_range-all p (value k v) some_ first short t absent = elim (Bool-cases (equal_bytes key k)) [
    | inl same_ ↦ absurd (cc (rw same_ at absent))
    | inr other ↦ rw (other, take_all {A = BptValue} count ((k, v) ∷ []) some_) refl
  ]
  walk_range-all p (node n l r) some_ first short (high, two, tl, rt) absent =
      let room = short_of_node p (node n l r) short (high, two, tl, rt) two in
      let (absent_l, absent_r) = hash_of-append-absent key (entries l) (entries r) absent in
      Starts-left n l r (entries l) some_ (first n.height (rw high room)) absent_r
        (walk_range-all (true ∷ p) l some_ first room tl absent_l)
