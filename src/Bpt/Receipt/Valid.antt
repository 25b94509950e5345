-- ===== src/Bpt/Receipt/Valid.antt =====
-- The receipt of a key that has a value is valid, from the value to the root hash.
use accumulate.Common.{◌≡◌, refl, ap, sym, ◌∙◌, List, [], ◌∷◌, none, some, true, false, arith}
use accumulate.Common.Outcome.{ok, ◌>>=◌}
use accumulate.Common.Bytes.{Bytes, equal_bytes_refl}
use accumulate.Merkle.Receipt.{Receipt, ReceiptEntry, follow, validate}
use accumulate.Bpt.{Entry, nil, value, node}
use accumulate.Bpt.Trie.{find, find-count}
use accumulate.Bpt.Canonical.{same_values-find}
use accumulate.Bpt.Inserted.{IsBpt}
use accumulate.Bpt.Update.{dirty_top, root_hash_of, update}
use accumulate.Bpt.Update.Summary.{or_zeros, summary, summary-some, summary_same_values, IsHashed}
use accumulate.Bpt.Update.Tops.{dirty_top-parts}
use accumulate.Bpt.Update.Loop.{IsReady, update-summary, root_hash_of-summary}
use accumulate.Bpt.Receipt.{receipt_of, get_receipt}
use accumulate.Bpt.Receipt.Collected.{Collects, collect_node, collect-Collects}

module _ (sum : Bytes → Bytes) where
  -- What GetReceipt must give for a key, where `hash` is the root hash.
  pub record Proves (root root' : Entry) (key hash : Bytes) : Type 0 where
    pub present :
        (h : Bytes)
        → find root key ≡ some h
        → (r : Receipt) × (get_receipt root' key ≡ ok (some r))
          × (r.start ≡ some h)
          × (r.anchor ≡ some hash)
          × (validate sum r ≡ true)
    pub absent : find root key ≡ none → get_receipt root' key ≡ ok none

  root-Collects :
      (root : Entry) (key : Bytes)
      → IsBpt root
      → IsHashed sum root
      → dirty_top root ≡ 0
      → Collects sum [] root key
  root-Collects nil key t hashed z = absurd t
  root-Collects (value k h) key t hashed z = absurd t
  root-Collects (node n l r) key t hashed z =
      let (own, zl, zr) = dirty_top-parts n l r 0 (omega (arith, z)) in
      collect_node sum [] n l r key (omega arith) t.0 t.1 t.2 hashed z
        (collect-Collects sum (true ∷ []) l key (omega arith) t.1 hashed.0 (omega (arith, zl)))
        (collect-Collects sum (false ∷ []) r key (omega arith) t.2 hashed.1 (omega (arith, zr)))

  validates :
      (h x : Bytes) (entries : List ReceiptEntry)
      → follow sum entries (some h) ≡ some x
      → (r : Receipt) × (receipt_of x (some (h, entries)) ≡ some r)
        × (r.start ≡ some h)
        × (r.anchor ≡ some x)
        × (validate sum r ≡ true)
  unfolding validate receipt_of
  validates h x entries f = (_, refl, refl, refl, rw f (equal_bytes_refl x))

  -- After Update of a tree between any inserts and updates, in which no node is above height 254,
  -- GetReceipt of a key that has a value returns a receipt that starts with the value, is anchored in the
  -- root hash that Update computed, and is valid; of any other key it returns nil. It ends without a
  -- panic.
  pub get_receipt-Proves :
      (root : Entry) (key : Bytes)
      → IsReady sum root
      → (root' : Entry) × (hash : Bytes) × (update sum root ≡ ok (root', hash))
        × Proves root root' key hash
  unfolding get_receipt
  get_receipt-Proves root key ready =
      let (root', s, ready', u) = update-summary sum root ready in
      let c = root-Collects root' key ready'.tree ready'.hashed u.clean in
      let same_ : (k : Bytes) → find root' k ≡ find root k =
        λ k. same_values-find root root' k u.same_values in
      let anchor : root_hash_of root' ≡ or_zeros (summary sum root) =
        root_hash_of-summary sum root' ready'.tree ready'.hashed u.clean
        ∙ ap or_zeros (summary_same_values sum root root' u.same_values) in
      (
        root',
        or_zeros (summary sum root),
        s,
        record {
          present = λ h f.
              let (entries, made, path) = c.present h (same_ key ∙ f) in
              let (x, e) = summary-some sum root (find-count root key h f) in
              let to_x : follow sum entries (some h) ≡ some x =
                path ∙ summary_same_values sum root root' u.same_values ∙ e in
              let (r, is, starts, ends, valid) = validates h x entries to_x in
              let at_x : or_zeros (summary sum root) ≡ x = ap or_zeros e in
              (
                r,
                ap (λ m. m >>= λ y. ok (receipt_of (root_hash_of root') y)) made
                    ∙ ap (λ y. ok (receipt_of y (some (h, entries)))) (anchor ∙ at_x)
                    ∙ ap ok is,
                starts,
                ends ∙ ap some (sym at_x),
                valid,
              );
          absent = λ f.
              ap (λ m. m >>= λ y. ok (receipt_of (root_hash_of root') y)) (c.absent (same_ key ∙ f))
              ∙ unfold receipt_of in refl;
        },
      )
