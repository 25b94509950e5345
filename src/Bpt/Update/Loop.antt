-- ===== src/Bpt/Update/Loop.antt =====
-- `Update` as a whole.
use accumulate.Common.{
  ℕ, zero, suc, ◌≤◌, ◌<◌, ◌≡◌, ◌⊎◌, inl, inr, refl, ap, ◌∙◌, [], ◌∷◌, true, false, length, arith,
}
use accumulate.Common.Outcome.{ok, ◌>>=◌}
use accumulate.Common.Bytes.{Bytes}
use accumulate.Bpt.{Entry, nil, value, node}
use accumulate.Bpt.Keys.{Way}
use accumulate.Bpt.Trie.{count, IsEntry}
use accumulate.Bpt.Canonical.{bare, same_values-IsNode}
use accumulate.Bpt.Writes.{short_of_node}
use accumulate.Bpt.Inserted.{IsBpt}
use accumulate.Bpt.Dirty.{IsLow, same_values-IsLow}
use accumulate.Bpt.Update.{dirty_top, update_loop, update, root_hash_of}
use accumulate.Bpt.Update.Summary.{
  IsLive, IsEntry-IsLive, or_zeros, summary, summary_same_values, IsHashed,
}
use accumulate.Bpt.Update.Tops.{dirty_top-bound}
use accumulate.Bpt.Update.Passes.{update_height-Passes}

ℕ-cases : (n : ℕ) → (n ≡ 0) ⊎ ((m : ℕ) × (n ≡ suc m))
ℕ-cases zero = inl refl
ℕ-cases (suc m) = inr (m, refl)

-- No node is higher than 255.
pub dirty_top_bound : (p : Way) (e : Entry) → length p ≤ 256 → IsEntry p e → dirty_top e ≤ 256
unfolding count dirty_top
dirty_top_bound p nil h t = omega arith
dirty_top_bound p (value k x) h t = omega arith
dirty_top_bound p (node n l r) h t =
    let room = short_of_node p (node n l r) h t t.1 in
    dirty_top-bound n l r 256 (λ d. omega (arith, t.0, room))
      (dirty_top_bound (true ∷ p) l (omega arith) t.2)
      (dirty_top_bound (false ∷ p) r (omega arith) t.3)

module _ (sum : Bytes → Bytes) where
  -- The tree after `Update`: the same values, and right hashes.
  pub record Updated (e e' : Entry) : Type 0 where
    pub same_values : bare e' ≡ bare e
    pub hashed : IsHashed sum e'
    pub clean : dirty_top e' ≡ 0

  update_loop-Updated :
      (rounds : ℕ) (e : Entry)
      → IsLive [] e
      → IsHashed sum e
      → dirty_top e < rounds
      → (e' : Entry) × (update_loop sum rounds e ≡ ok e') × Updated e e'
  unfolding update_loop
  update_loop-Updated zero e t hashed top = absurd (omega arith)
  update_loop-Updated (suc rounds) e t hashed top = elim (ℕ-cases (dirty_top e)) [
    | inl z ↦
        (e, rw (z, update_loop) refl, record { same_values = refl; hashed = hashed; clean = z })
    | inr (h, z) ↦
        let (e1, flag, s, w) = update_height-Passes sum h [] e t hashed (omega (arith, z)) in
        let (e2, s2, u) = update_loop-Updated rounds e1 w.live w.hashed (omega (arith, w.low, z)) in
        (
          e2,
          rw (z, update_loop) (ap (λ m. m >>= λ (x, _). update_loop sum rounds x) s ∙ s2),
          record {
            same_values = u.same_values ∙ w.same_values;
            hashed = u.hashed;
            clean = u.clean;
          },
        )
  ]

  -- A tree between any inserts and updates, in which no node has the blank key.
  pub record IsReady (root : Entry) : Type 0 where
    pub tree : IsBpt root
    pub low : IsLow root
    pub hashed : IsHashed sum root
    pub marked : (dirty_top root ≡ 0) ⊎ (1 ≤ count root)

  loop_of_ready :
      (root : Entry)
      → IsReady root
      → (e' : Entry) × (update_loop sum 257 root ≡ ok e') × Updated root e'
  loop_of_ready root ready = elim ready.marked [
    | inl z ↦ (
      root,
      unfold update_loop in rw (z, update_loop) refl,
      record { same_values = refl; hashed = ready.hashed; clean = z },
    )
    | inr c ↦
        update_loop-Updated 257 root (IsBpt-IsLive root ready.tree c) ready.hashed
          (omega (arith, IsBpt-dirty_top root ready.tree))
  ]
    where
      IsBpt-IsLive : (e : Entry) → IsBpt e → 1 ≤ count e → IsLive [] e
      IsBpt-IsLive nil t c = tt
      IsBpt-IsLive (value k h) t c = tt
      IsBpt-IsLive (node n l r) t c = (
        t.0,
        unfold count in c,
        IsEntry-IsLive (true ∷ []) l t.1,
        IsEntry-IsLive (false ∷ []) r t.2,
      )

      IsBpt-dirty_top : (e : Entry) → IsBpt e → dirty_top e ≤ 256
      IsBpt-dirty_top nil t = absurd t
      IsBpt-dirty_top (value k h) t = absurd t
      IsBpt-dirty_top (node n l r) t =
          dirty_top-bound n l r 256 (λ d. omega (arith, t.0))
            (dirty_top_bound (true ∷ []) l (omega arith) t.1)
            (dirty_top_bound (false ∷ []) r (omega arith) t.2)

  pub root_hash_of-summary :
      (e : Entry)
      → IsBpt e
      → IsHashed sum e
      → dirty_top e ≡ 0
      → root_hash_of e ≡ or_zeros (summary sum e)
  root_hash_of-summary nil t h z = absurd t
  root_hash_of-summary (value k x) t h z = absurd t
  root_hash_of-summary (node n l r) t h z = h.2 z

  -- Update of a tree between any inserts and updates, in which no node is above height 254, ends without
  -- a panic, keeps the map, leaves no node dirty and each hash right, and returns the root hash that is
  -- computed from the values alone.
  pub update-summary :
      (root : Entry)
      → IsReady root
      → (root' : Entry) × (update sum root ≡ ok (root', or_zeros (summary sum root)))
        × IsReady root'
        × Updated root root'
  unfolding update
  update-summary root ready =
      let (e', s, u) = loop_of_ready root ready in
      let tree = same_values-IsNode [] root e' u.same_values ready.tree in
      let hash =
        root_hash_of-summary e' tree u.hashed u.clean
        ∙ ap or_zeros (summary_same_values sum root e' u.same_values) in
      (
        e',
        ap (λ m. m >>= λ e. ok (e, root_hash_of e)) s ∙ ap (λ h. ok (e', h)) hash,
        record {
          tree = tree;
          low = same_values-IsLow root e' u.same_values ready.low;
          hashed = u.hashed;
          marked = inl u.clean;
        },
        u,
      )
