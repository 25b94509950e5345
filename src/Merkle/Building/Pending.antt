-- ===== src/Merkle/Building/Pending.antt =====
-- The second loop of `BuildReceiptWith` goes from a subtree in Pending to the root.
use accumulate.Common.{
  ℕ, zero, suc, ◌+◌, ◌-◌, ◌/◌, ◌%◌, ◌≤◌, ◌≡◌, refl, ap, ◌∙◌, List, [], ◌∷◌, ◌++◌, none, some, true,
  false, ◌==◌, ltb, leb, arith,
}
use accumulate.Common.Bytes.{Bytes}
use accumulate.Merkle.Hash.{Hash, combine, sha256}
use accumulate.Merkle.State.{fold_root, keep_nil, trim_list}
use accumulate.Merkle.Receipt.{apply, follow}
use accumulate.Merkle.Building.{pending_loop}
use accumulate.Merkle.Building.Blocks.{block, Slots, halved}

module _ (sum : Bytes → Bytes) where
  fold_root-keep_nil :
      (ps : List Hash) (r : Hash) → fold_root sum (keep_nil ps) r ≡ fold_root sum (none ∷ ps) r
  unfolding fold_root keep_nil
  fold_root-keep_nil [] none = refl
  fold_root-keep_nil [] (some x) = refl
  fold_root-keep_nil (p ∷ ps) r = refl

  -- Trailing nils do not count.
  pub fold_root-trim_list :
      (ps : List Hash) (r : Hash) → fold_root sum (trim_list ps) r ≡ fold_root sum ps r
  unfolding fold_root trim_list
  fold_root-trim_list [] r = refl
  fold_root-trim_list (none ∷ ps) none =
      fold_root-keep_nil (trim_list ps) none ∙ fold_root-trim_list ps none
  fold_root-trim_list (none ∷ ps) (some x) =
      fold_root-keep_nil (trim_list ps) (some x) ∙ fold_root-trim_list ps (some x)
  fold_root-trim_list (some v ∷ ps) none = fold_root-trim_list ps (some v)
  fold_root-trim_list (some v ∷ ps) (some x) =
      fold_root-trim_list ps (combine (sha256 sum) (some v) (some x))

  -- Above the subtree: the loop adds the slots that are full, and follows the root.
  pending_loop-above :
      (height : ℕ) (ps : List Hash) (i : ℕ) (x : Bytes)
      → 1 ≤ height
      → height ≤ i
      → (pending_loop sum height ps i true (some x)).0 ≡ fold_root sum ps (some x)
        × (follow sum (pending_loop sum height ps i true (some x)).1 (some x)
            ≡ fold_root sum ps (some x))
  unfolding pending_loop fold_root follow apply
  pending_loop-above height [] i x pos h = (refl, refl)
  pending_loop-above height (none ∷ ps) i x pos h =
      pending_loop-above height ps (i + 1) x pos (omega arith)
  pending_loop-above height (some v ∷ ps) i x pos h =
      let not_low : ltb i (height - 1) ≡ false = ground (arith, h) in
      let adds : leb height i ≡ true = ground (arith, h) in
      let ih = pending_loop-above height ps (i + 1) (sum (v ++ x)) pos (omega arith) in
      rw (not_low, adds) ih

  halved-zero : (j : ℕ) → halved j 0 ≡ 0
  halved-zero zero = refl
  halved-zero (suc j) = halved-zero j

  Slots-next :
      (hs : List Bytes) (i q : ℕ) (ps : List Hash)
      → Slots sum hs (suc i) q ps
      → Slots sum hs (i + 1) q ps
  Slots-next hs i q ps s = let next : i + 1 ≡ suc i = omega arith in rw next s

  -- What the loop must do from a subtree `b` of 2^d elements on.
  abbrev Leads : (hs : List Bytes) (d b i : ℕ) (ps : List Hash) (hash : Hash) → Type 0
  Leads hs d b i ps hash =
      ((pending_loop sum (suc d) ps i false hash).0 ≡ fold_root sum ps hash)
      × (follow sum (pending_loop sum (suc d) ps i false hash).1 (some (block sum hs d b))
          ≡ fold_root sum ps hash)

  -- From slot `i` on, up to the subtree's slot and past it.
  pub pending_loop-Leads :
      (hs : List Bytes) (j d b i q : ℕ) (ps : List Hash) (hash : Hash)
      → i + j ≡ d
      → b % 2 ≡ 0
      → halved j q ≡ b + 1
      → Slots sum hs i q ps
      → Leads hs d b i ps hash
  unfolding pending_loop fold_root follow apply
  pending_loop-Leads hs zero d b i q [] hash at even bits s = absurd (omega (arith, s, bits))
  pending_loop-Leads hs zero d b i q (none ∷ ps) hash at even bits (z, s) =
      absurd (omega (arith, z, bits, even))
  pending_loop-Leads hs zero d b i q (some v ∷ ps) none at even bits (odd, e, s) =
      let here : (suc d - 1 == i) ≡ true = ground (arith, at) in
      let same_ : v ≡ block sum hs d b =
        e
        ∙ ap (λ n. block sum hs n (q - 1)) (omega (arith, at))
        ∙ ap (block sum hs d) (omega (arith, bits)) in
      rw (pending_loop, here, ← same_)
        (pending_loop-above (suc d) ps (i + 1) v (omega arith) (omega (arith, at)))
  pending_loop-Leads hs zero d b i q (some v ∷ ps) (some x) at even bits (odd, e, s) =
      let not_low : ltb i (suc d - 1) ≡ false = ground (arith, at) in
      let same_ : v ≡ block sum hs d b =
        e
        ∙ ap (λ n. block sum hs n (q - 1)) (omega (arith, at))
        ∙ ap (block sum hs d) (omega (arith, bits)) in
      rw (not_low, ← same_)
        (pending_loop-above (suc d) ps (i + 1) (sum (v ++ x)) (omega arith) (omega (arith, at)))
  pending_loop-Leads hs (suc j) d b i q [] hash at even bits s =
      let none_ : halved j (q / 2) ≡ 0 = ap (halved j) (omega (arith, s)) ∙ halved-zero j in
      absurd (omega (arith, none_, bits))
  pending_loop-Leads hs (suc j) d b i q (none ∷ ps) none at even bits (z, s) =
      pending_loop-Leads hs j d b (i + 1) (q / 2) ps none (omega (arith, at)) even bits
        (Slots-next hs i (q / 2) ps s)
  pending_loop-Leads hs (suc j) d b i q (none ∷ ps) (some x) at even bits (z, s) =
      pending_loop-Leads hs j d b (i + 1) (q / 2) ps (some x) (omega (arith, at)) even bits
        (Slots-next hs i (q / 2) ps s)
  pending_loop-Leads hs (suc j) d b i q (some v ∷ ps) none at even bits (odd, e, s) =
      let below : (suc d - 1 == i) ≡ false = ground (arith, at) in
      rw (pending_loop, below)
        (pending_loop-Leads hs j d b (i + 1) (q / 2) ps (some v) (omega (arith, at)) even bits
          (Slots-next hs i (q / 2) ps s))
  pending_loop-Leads hs (suc j) d b i q (some v ∷ ps) (some x) at even bits (odd, e, s) =
      let low : ltb i (suc d - 1) ≡ true = ground (arith, at) in
      rw low (
        pending_loop-Leads hs j d b (i + 1) (q / 2) ps (some (sum (v ++ x))) (omega (arith, at))
          even bits (Slots-next hs i (q / 2) ps s))
