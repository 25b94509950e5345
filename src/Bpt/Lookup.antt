-- ===== src/Bpt/Lookup.antt =====
-- `Get` finds the values of the map.
use accumulate.Common.{
  ℕ, zero, suc, ◌+◌, ◌≤◌, ◌≡◌, refl, ◌∙◌, [], ◌∷◌, Option, none, some, Bool, true, false, length,
  arith,
}
use accumulate.Common.Outcome.{ok}
use accumulate.Common.Bytes.{Bytes, equal_bytes, equal_bytes→eq, equal_bytes_refl}
use accumulate.Bpt.{Entry, nil, value, node, goes_left, pick, get_entry, get_at_node, get}
use accumulate.Bpt.Keys.{Way}
use accumulate.Bpt.Trie.{find, count, IsEntry, IsNode, find-pick, IsEntry-pick}
use accumulate.Bpt.Writes.{short_of_node}
use accumulate.Bpt.Inserted.{IsBpt, equal_bytes_sym}

-- The answer of `Get` for a key: with the flag the entry is the key's value, and without it the key has
-- none.
pub record Answers (e : Entry) (key : Bytes) (entry : Option Entry) (found : Bool) : Type 0 where
  pub present : found ≡ true → (h : Bytes) × (find e key ≡ some h) × (entry ≡ some (value key h))
  pub absent : found ≡ false → find e key ≡ none

abbrev Gets : ℕ → Type 0
Gets bits =
    (p : Way) (e : Entry) (key : Bytes)
    → bits + length p ≡ 256
    → 1 ≤ bits
    → IsNode p e
    → (highest : Entry) × (entry : Option Entry) × (found : Bool) × (get_at_node bits key e
        ≡ ok (highest, entry, found))
      × Answers e key entry found

get_entry-Answers :
    (bits : ℕ) (p : Way) (highest c : Entry) (key : Bytes)
    → Gets bits
    → bits + length p ≡ 256
    → IsEntry p c
    → (top : Entry) × (entry : Option Entry) × (found : Bool) × (get_entry
          (get_at_node bits key)
          highest
          c
          key
        ≡ ok (top, entry, found))
      × Answers c key entry found
unfolding get_entry find count
get_entry-Answers bits p highest nil key ih whole t =
    (highest, none, false, refl, record { present = λ f. absurd (cc f); absent = λ f. refl })
get_entry-Answers bits p highest (value k h) key ih whole t = (
  highest,
  some (value k h),
  equal_bytes k key,
  refl,
  record {
    present = λ f.
        let same_ = equal_bytes→eq k key f in
        (h, rw (same_, equal_bytes_refl key) refl, rw same_ refl);
    absent = λ f. rw (equal_bytes_sym k key f) refl;
  },
)
get_entry-Answers bits p highest (node n l r) key ih whole t =
    let room = short_of_node p (node n l r) (omega arith) t t.1 in
    ih p (node n l r) key whole (omega arith) (t.0, t.2, t.3)

get_at_node-Answers : (bits : ℕ) → Gets bits
unfolding get_at_node
get_at_node-Answers zero p e key whole some_ t = absurd (omega arith)
get_at_node-Answers (suc bits) p nil key whole some_ t = absurd t
get_at_node-Answers (suc bits) p (value k h) key whole some_ t = absurd t
get_at_node-Answers (suc bits) p (node n l r) key whole some_ t =
    let b : Bool = goes_left key n.height in
    let (top, entry, found, s, a) =
      get_entry-Answers bits (b ∷ p) (node n l r) (pick b l r) key (get_at_node-Answers bits)
        (omega arith) (IsEntry-pick p n l r b t) in
    let same_ = find-pick n l r key b refl in
    (
      top,
      entry,
      found,
      s,
      record {
        present = λ f. let (h, g, e) = a.present f in (h, same_ ∙ g, e);
        absent = λ f. same_ ∙ a.absent f;
      },
    )

-- Get of any key in a Patricia tree ends without a panic; where its flag is set the entry is the key's
-- value, and else the key has none.
pub get-Answers :
    (root : Entry) (key : Bytes)
    → IsBpt root
    → (highest : Entry) × (entry : Option Entry) × (found : Bool) × (get root key
        ≡ ok (highest, entry, found))
      × Answers root key entry found
unfolding get
get-Answers root key t = get_at_node-Answers 256 [] root key (omega arith) (omega arith) t
