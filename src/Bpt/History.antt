-- ===== src/Bpt/History.antt =====
-- Histories of a tree: inserts and updates, one after the other.
use accumulate.Common.{
  ◌≡◌, inl, inr, refl, ap, sym, ◌∙◌, List, [], ◌∷◌, Option, none, some, if◌then◌else◌, Bool-cases,
  arith,
}
use accumulate.Common.Outcome.{Outcome, ok, ◌>>=◌}
use accumulate.Common.Bytes.{Bytes, equal_bytes, equal_bytes_refl}
use accumulate.Bpt.{Entry, goes_left, new_root}
use accumulate.Bpt.Keys.{IsKey}
use accumulate.Bpt.Trie.{find, find-count}
use accumulate.Bpt.Canonical.{SameMap, SameMap-bare_node, same_values-find}
use accumulate.Bpt.Writes.{Writes}
use accumulate.Bpt.Inserted.{insert-Writes}
use accumulate.Bpt.Dirty.{Spread, insert_tracked, insert_tracked-insert, IsBpt-IsLow}
use accumulate.Bpt.Update.{dirty_top, update}
use accumulate.Bpt.Update.Summary.{or_zeros, summary, summary_same_values}
use accumulate.Bpt.Update.Loop.{IsReady, update-summary}
use accumulate.Bpt.Update.Marks.{insert-Marks}

pub data Action : Type 0 where
  insert_value : Bytes → Bytes → Action
  update_hashes : Action

-- Keys and hashes are arrays of 32 bytes; a hash is only copied.
abbrev pub AreKeys : List Action → Type 0
AreKeys [] = Unit
AreKeys (insert_value key hash ∷ xs) = IsKey key × AreKeys xs
AreKeys (update_hashes ∷ xs) = AreKeys xs

-- The value that a key has after a history, if it had one or none before.
unfoldable pub last_value : Bytes → List Action → Option Bytes → Option Bytes
last_value k [] before = before
last_value k (insert_value key hash ∷ xs) before =
    last_value k xs (if equal_bytes k key then some hash else before)
last_value k (update_hashes ∷ xs) before = last_value k xs before

module _ (sum : Bytes → Bytes) where
  unfoldable pub run : List Action → Entry → Outcome Entry
  unfolding insert_tracked update
  run [] root = ok root
  run (insert_value key hash ∷ xs) root = insert_tracked root key hash >>= λ e. run xs e
  run (update_hashes ∷ xs) root = update sum root >>= λ (e, _). run xs e

  -- A value that a key has stays, or is replaced.
  last_value-some :
      (k : Bytes) (xs : List Action) (h : Bytes) → (g : Bytes) × (last_value k xs (some h) ≡ some g)
  unfolding last_value
  last_value-some k [] h = (h, refl)
  last_value-some k (insert_value key hash ∷ xs) h = elim (Bool-cases (equal_bytes k key)) [
    | inl e ↦ rw e (last_value-some k xs hash)
    | inr e ↦ rw e (last_value-some k xs h)
  ]
  last_value-some k (update_hashes ∷ xs) h = last_value-some k xs h

  -- The keys that have a value now have one in the end.
  Spread-now :
      (xs : List Action) (f : Bytes → Option Bytes) → Spread (λ k. last_value k xs (f k)) → Spread f
  Spread-now xs f spread a b x y at_a at_b =
      let (g, e) = last_value-some a xs x in
      let (h, u) = last_value-some b xs y in
      spread a b g h (ap (last_value a xs) at_a ∙ e) (ap (last_value b xs) at_b ∙ u)

  Spread-ext : (f g : Bytes → Option Bytes) → ((k : Bytes) → f k ≡ g k) → Spread f → Spread g
  Spread-ext f g e spread a b x y at_a at_b = spread a b x y (e a ∙ at_a) (e b ∙ at_b)

  pub insert-IsReady :
      (root : Entry) (key hash : Bytes)
      → IsKey key
      → IsReady sum root
      → ((e : Entry) → Writes key hash root e → Spread (find e))
      → (root' : Entry) × (insert_tracked root key hash ≡ ok root')
        × IsReady sum root'
        × Writes key hash root root'
  insert-IsReady root key hash iskey ready spread =
      let (e, s, t, w) = insert-Writes root key hash iskey ready.tree in
      let m = insert-Marks sum root e key hash s ready.hashed in
      let found : find e key ≡ some hash = w.finds key ∙ rw (equal_bytes_refl key) refl in
      let low = IsBpt-IsLow e t (spread e w) in
      (
        e,
        insert_tracked-insert root e key hash s low,
        record {
          tree = t;
          low = low;
          hashed = m.hashed;
          marked = inr (find-count e key hash found);
        },
        w,
      )

  pub new_root-IsReady : IsReady sum new_root
  unfolding new_root dirty_top summary
  new_root-IsReady = record {
    tree = (refl, tt, tt);
    low = (omega arith, tt, tt);
    hashed = (tt, tt, λ z. refl);
    marked = inl refl;
  }

  run-last_value :
      (xs : List Action) (root : Entry)
      → AreKeys xs
      → IsReady sum root
      → Spread (λ k. last_value k xs (find root k))
      → (root' : Entry) × (run xs root ≡ ok root')
        × IsReady sum root'
        × ((k : Bytes) → find root' k ≡ last_value k xs (find root k))
  unfolding run last_value
  run-last_value [] root keys ready spread = (root, refl, ready, λ k. refl)
  run-last_value (insert_value key hash ∷ xs) root keys ready spread =
      let later : (e : Entry) → Writes key hash root e → Spread (λ k. last_value k xs (find e k)) =
        λ e w. Spread-ext _ _ (λ k. ap (last_value k xs) (sym (w.finds k))) spread in
      let (e1, s1, r1, w) =
        insert-IsReady root key hash keys.0 ready (λ e w. Spread-now xs (find e) (later e w)) in
      let (e2, s2, r2, f) = run-last_value xs e1 keys.1 r1 (later e1 w) in
      (e2, ap (λ m. m >>= λ e. run xs e) s1 ∙ s2, r2, λ k. f k ∙ ap (last_value k xs) (w.finds k))
  run-last_value (update_hashes ∷ xs) root keys ready spread =
      let (e1, s1, r1, u) = update-summary sum root ready in
      let kept : (k : Bytes) → last_value k xs (find root k) ≡ last_value k xs (find e1 k) =
        λ k. ap (last_value k xs) (sym (same_values-find root e1 k u.same_values)) in
      let (e2, s2, r2, f) = run-last_value xs e1 keys r1 (Spread-ext _ _ kept spread) in
      (
        e2,
        ap (λ m. m >>= λ (e, _). run xs e) s1 ∙ s2,
        r2,
        λ k. f k ∙ ap (last_value k xs) (same_values-find root e1 k u.same_values),
      )

  -- Any two histories of a new tree, with any order of inserts and updates and keys of 32 bytes, no two of
  -- which agree in the first 255 bits, after which each key has the same value, end without a panic, and
  -- Update then returns the same root hash.
  pub run-root_hash :
      (xs ys : List Action)
      → AreKeys xs
      → AreKeys ys
      → ((k : Bytes) → last_value k xs none ≡ last_value k ys none)
      → Spread (λ k. last_value k xs none)
      → (a : Entry) × (b : Entry) × (a' : Entry) × (b' : Entry) × (hash : Bytes) × (run xs new_root
          ≡ ok a)
        × (run ys new_root ≡ ok b)
        × (update sum a ≡ ok (a', hash))
        × (update sum b ≡ ok (b', hash))
  run-root_hash xs ys ka kb same_ spread =
      let from_xs = Spread-ext _ _ (λ k. ap (last_value k xs) (sym (empty k))) spread in
      let from_ys = Spread-ext _ _ (λ k. same_ k ∙ ap (last_value k ys) (sym (empty k))) spread in
      let (a, sa, ra, fa) = run-last_value xs new_root ka new_root-IsReady from_xs in
      let (b, sb, rb, fb) = run-last_value ys new_root kb new_root-IsReady from_ys in
      let (a', ua, na, va) = update-summary sum a ra in
      let (b', ub, nb, vb) = update-summary sum b rb in
      let same_map : SameMap a b = λ k.
        fa k
        ∙ ap (last_value k xs) (empty k)
        ∙ same_ k
        ∙ sym (fb k ∙ ap (last_value k ys) (empty k)) in
      let same_values = SameMap-bare_node [] a b ra.tree rb.tree same_map in
      let same_summary : summary sum b ≡ summary sum a =
        summary_same_values sum a b (sym same_values) in
      (
        a,
        b,
        a',
        b',
        or_zeros (summary sum a),
        sa,
        sb,
        ua,
        ub ∙ ap (λ h. ok (b', or_zeros h)) same_summary,
      )
    where
      empty : (k : Bytes) → find new_root k ≡ none
      empty k =
          unfold new_root in
          unfold find in elim (Bool-cases (goes_left k 0)) [ inl g ↦ rw g refl | inr g ↦ rw g refl ]
