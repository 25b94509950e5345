-- ===== src/Merkle/Cascade.antt =====
-- internal/encoding/hash/hasher.go: `MerkleCascade`, and `MerkleHash` of a list of hashes.
use accumulate.Common.{
  ℕ, zero, suc, ◌≡◌, ◌≢◌, ◌++◌, refl, ap, sym, ◌∙◌, List, [], ◌∷◌, Option, none, some, map,
}
use accumulate.Common.{length, ◌<◌, ◌^◌, replicate}
use accumulate.Common.Bytes.{Bytes}
use accumulate.Merkle.Hash.{Hash, combine, sha256}
use accumulate.Merkle.State.{
  MerkleState, empty, pad_list, trim_list, keep_nil, carry, add_to_merkle_tree, add_all,
  get_md_root,
}
use accumulate.Merkle.Root.{list_root, get_md_root-add_all}

module _ (sum : Bytes → Bytes) where
  -- One round of the outer loop. `limit` is `maxHeight` less the loop's index, none where
  -- `maxHeight` is negative. `Combine` writes both parts to the digest.
  unfoldable pub cascade_one : List Hash → Option ℕ → Hash → List Hash
  cascade_one cascade (some zero) h = cascade
  cascade_one [] none h = h ∷ []
  cascade_one [] (some (suc n)) h = h ∷ []
  cascade_one (none ∷ cs) none h = h ∷ cs
  cascade_one (none ∷ cs) (some (suc n)) h = h ∷ cs
  cascade_one (some v ∷ cs) none h = none ∷ cascade_one cs none (combine (sha256 sum) (some v) h)
  cascade_one (some v ∷ cs) (some (suc n)) h =
      none ∷ cascade_one cs (some n) (combine (sha256 sum) (some v) h)

  -- `MerkleCascade`
  unfoldable pub merkle_cascade : List Hash → List Hash → Option ℕ → List Hash
  unfolding cascade_one
  merkle_cascade cascade [] limit = cascade
  merkle_cascade cascade (h ∷ hs) limit = merkle_cascade (cascade_one cascade limit h) hs limit

  -- `MerkleHash`: 32 zero bytes of an empty hasher, else the root of the state with all hashes.
  unfoldable pub merkle_hash : List Hash → Hash
  merkle_hash [] = some (replicate 32 0)
  merkle_hash (h ∷ hs) = get_md_root sum (add_all sum empty (h ∷ hs))

  trim_list-pad_list : (ps : List Hash) → trim_list (pad_list ps) ≡ trim_list ps
  unfolding pad_list trim_list
  trim_list-pad_list [] = refl
  trim_list-pad_list (none ∷ []) = refl
  trim_list-pad_list (some v ∷ []) = refl
  trim_list-pad_list (none ∷ q ∷ ps) = ap keep_nil (trim_list-pad_list (q ∷ ps))
  trim_list-pad_list (some v ∷ q ∷ ps) = ap (λ t. some v ∷ t) (trim_list-pad_list (q ∷ ps))

  cascade_one-keep_nil :
      (cs : List Hash) (b : Bytes) → cascade_one (keep_nil cs) none (some b) ≡ some b ∷ cs
  unfolding cascade_one keep_nil
  cascade_one-keep_nil [] b = refl
  cascade_one-keep_nil (c ∷ cs) b = refl

  keep_nil-cascade_one :
      (cs : List Hash) (h : Hash) → keep_nil (cascade_one cs none h) ≡ none ∷ cascade_one cs none h
  unfolding cascade_one keep_nil
  keep_nil-cascade_one [] h = refl
  keep_nil-cascade_one (none ∷ cs) h = refl
  keep_nil-cascade_one (some v ∷ cs) h = refl

  -- A state's list without trailing nils is the cascade; a carry on the padded list is a round.
  carry-trim_list :
      (ps : List Hash) (b : Bytes)
      → trim_list (carry sum (pad_list ps) (some b)) ≡ cascade_one (trim_list ps) none (some b)
  unfolding carry pad_list trim_list
  carry-trim_list [] b = unfold cascade_one in refl
  carry-trim_list (none ∷ []) b = unfold cascade_one in refl
  carry-trim_list (some v ∷ []) b = unfold cascade_one in refl
  carry-trim_list (none ∷ q ∷ ps) b =
      ap (λ t. some b ∷ t) (trim_list-pad_list (q ∷ ps))
      ∙ sym (cascade_one-keep_nil (trim_list (q ∷ ps)) b)
  carry-trim_list (some v ∷ q ∷ ps) b =
      let carried = carry-trim_list (q ∷ ps) (sum (v ++ b)) in
      ap keep_nil carried
      ∙ keep_nil-cascade_one (trim_list (q ∷ ps)) (some (sum (v ++ b)))
      ∙ step (trim_list (q ∷ ps))
    where
      step :
          (cs : List Hash)
          → none ∷ cascade_one cs none (some (sum (v ++ b)))
            ≡ cascade_one (some v ∷ cs) none (some b)
      step cs = unfold cascade_one in refl

  -- `MerkleCascade` without a height limit, on a cascade that is a state's Pending without its
  -- trailing nils, gives that of the state to which `AddToMerkleTree` has added the same hashes.
  pub merkle_cascade-add_all :
      (m : MerkleState) (hs : List Bytes)
      → merkle_cascade (trim_list m.pending) (map some hs) none
        ≡ trim_list (add_all sum m (map some hs)).pending
  unfolding merkle_cascade add_all add_to_merkle_tree
  merkle_cascade-add_all m [] = refl
  merkle_cascade-add_all m (b ∷ bs) =
      ap (λ cs. merkle_cascade cs (map some bs) none) (sym (carry-trim_list m.pending b))
      ∙ merkle_cascade-add_all (add_to_merkle_tree sum m (some b)) bs

  -- `MerkleHash` of fewer than 2^64 hashes is their recursively defined root, and of none it is
  -- 32 zero bytes.
  pub merkle_hash-list_root :
      (hs : List Bytes)
      → length hs < 2 ^ 64
      → (hs ≢ [] → merkle_hash (map some hs) ≡ list_root sum hs)
        × (hs ≡ [] → merkle_hash (map some hs) ≡ some (replicate 32 0))
  unfolding merkle_hash
  merkle_hash-list_root [] bound = ((λ p. absurd (p refl)), λ p. refl)
  merkle_hash-list_root (h ∷ hs) bound = ((λ p. get_md_root-add_all sum (h ∷ hs) bound), λ p. cc)
