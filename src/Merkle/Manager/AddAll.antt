-- ===== src/Merkle/Manager/AddAll.antt =====
-- The Merkle state after several elements.
use accumulate.Common.{
  ℕ, ◌+◌, ◌^◌, ◌<◌, ◌≡◌, refl, sym, ◌∙◌, List, [], ◌∷◌, ◌++◌, map, some, true, false, ◌==◌, arith,
  length,
}
use mathlib.Core.List.{append-nil, append_assoc}
use accumulate.Common.Bytes.{Bytes}
use accumulate.Merkle.State.{MerkleState, add_to_merkle_tree, add_all}
use accumulate.Merkle.Manager.{replay}

module _ (sum : Bytes → Bytes) where
  pub add_all-hash_list :
      (m : MerkleState) (ks : List Bytes)
      → (add_all sum m (map some ks)).hash_list ≡ m.hash_list ++ map some ks
  unfolding add_all add_to_merkle_tree
  add_all-hash_list m [] = sym (append-nil m.hash_list)
  add_all-hash_list m (k ∷ ks) =
      add_all-hash_list (add_to_merkle_tree sum m (some k)) ks
      ∙ append_assoc m.hash_list (some k ∷ []) (map some ks)

  pub add_all-count :
      (m : MerkleState) (ks : List Bytes)
      → m.count + length ks < 2 ^ 64
      → (add_all sum m (map some ks)).count ≡ m.count + length ks
  unfolding add_all add_to_merkle_tree
  add_all-count m [] h = omega arith
  add_all-count m (k ∷ ks) h =
      let next : (add_to_merkle_tree sum m (some k)).count ≡ m.count + 1 = omega arith in
      add_all-count (add_to_merkle_tree sum m (some k)) ks (omega (arith, next))
      ∙ omega (arith, next)

  -- Pending after more hashes depends on no other field.
  pub add_all-pending :
      (m n : MerkleState) (ks : List Bytes)
      → m.pending ≡ n.pending
      → (add_all sum m (map some ks)).pending ≡ (add_all sum n (map some ks)).pending
  unfolding add_all add_to_merkle_tree
  add_all-pending m n [] e = e
  add_all-pending m n (k ∷ ks) e =
      add_all-pending (add_to_merkle_tree sum m (some k)) (add_to_merkle_tree sum n (some k)) ks
        (rw e refl)

  pub add_all-append :
      (m : MerkleState) (xs ys : List Bytes)
      → add_all sum m (map some (xs ++ ys))
        ≡ add_all sum (add_all sum m (map some xs)) (map some ys)
  unfolding add_all
  add_all-append m [] ys = refl
  add_all-append m (x ∷ xs) ys = add_all-append (add_to_merkle_tree sum m (some x)) xs ys

  -- The loop adds hashes until it has `stop` elements.
  pub replay-add_all :
      (p stop : ℕ) (m : MerkleState) (ks ls : List Bytes)
      → stop ≡ m.count + length ks
      → stop < 2 ^ 64
      → replay sum p stop m (map some (ks ++ ls)) ≡ add_all sum m (map some ks)
  unfolding replay add_all
  replay-add_all p stop m [] [] e h = refl
  replay-add_all p stop m [] (l ∷ ls) e h =
      let there : (stop == m.count) ≡ true = ground arith in rw there refl
  replay-add_all p stop m (k ∷ ks) ls e h =
      let more : (stop == m.count) ≡ false = ground arith in
      let next : (add_to_merkle_tree sum m (some k)).count ≡ m.count + 1 =
        unfold add_to_merkle_tree in omega arith in
      rw more
        (replay-add_all p stop (add_to_merkle_tree sum m (some k)) ks ls (omega (arith, next)) h)
