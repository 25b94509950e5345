-- ===== src/Merkle/Hasher/Limited.antt =====
-- A cascade with a limit, and what `getIntermediate` finds in it.
use Prim.Native.String.{String}
use accumulate.Common.{
  ℕ, zero, suc, ◌+◌, ◌-◌, ◌/◌, ◌%◌, ◌<◌, ◌≡◌, refl, ap, sym, ◌∙◌, inl, inr, List, [], ◌∷◌, ◌++◌,
  map, none, some, true, false, ◌==◌, ltb, if◌then◌else◌, length, get_elem?, arith, Bool-cases,
  Option-cases,
}
use accumulate.Common.Outcome.{Outcome, ok, err}
use accumulate.Common.Bytes.{Bytes}
use accumulate.Merkle.Hash.{Hash}
use accumulate.Merkle.Cascade.{cascade_one, merkle_cascade}
use accumulate.Merkle.Building.Blocks.{or_empty, block, block-pair, full, halved, full-even}
use accumulate.Merkle.Hasher.{hash_at, combine_up, column}

module _ (sum : Bytes → Bytes) (hs : List Bytes) where
  -- The slots of the next `n` levels, from level `i` on, for `q` subtrees of 2^i elements.
  abbrev pub SlotsTo : ℕ → ℕ → ℕ → List Hash → Type 0
  SlotsTo zero i q ps = ps ≡ []
  SlotsTo (suc n) i q [] = q ≡ 0
  SlotsTo (suc n) i q (none ∷ ps) = (q % 2 ≡ 0) × SlotsTo n (suc i) (q / 2) ps
  SlotsTo (suc n) i q (some v ∷ ps) =
      (q % 2 ≡ 1) × (v ≡ block sum hs i (q - 1)) × SlotsTo n (suc i) (q / 2) ps

  SlotsTo-number : (n i q r : ℕ) (ps : List Hash) → q ≡ r → SlotsTo n i q ps → SlotsTo n i r ps
  SlotsTo-number n i q r ps e s = rw (← e) s

  pub SlotsTo-nil : (n i q : ℕ) → q ≡ 0 → SlotsTo n i q []
  SlotsTo-nil zero i q e = refl
  SlotsTo-nil (suc n) i q e = e

  cascade_one-SlotsTo :
      (n i q : ℕ) (ps : List Hash)
      → SlotsTo n i q ps
      → SlotsTo n i (q + 1) (cascade_one sum ps (some n) (some (block sum hs i q)))
  unfolding cascade_one
  cascade_one-SlotsTo zero i q [] s = s
  cascade_one-SlotsTo zero i q (p ∷ ps) s = s
  cascade_one-SlotsTo (suc n) i q [] s = (
    omega (arith, s),
    ap (block sum hs i) (omega arith),
    SlotsTo-nil n (suc i) ((q + 1) / 2) (omega (arith, s)),
  )
  cascade_one-SlotsTo (suc n) i q (none ∷ ps) (even, s) = (
    omega (arith, even),
    ap (block sum hs i) (omega arith),
    SlotsTo-number n (suc i) (q / 2) ((q + 1) / 2) ps (omega (arith, even)) s,
  )
  cascade_one-SlotsTo (suc n) i q (some v ∷ ps) (odd, e, s) =
      let hash : sum (v ++ block sum hs i q) ≡ block sum hs (suc i) (q / 2) =
        ap (λ x. sum (x ++ block sum hs i q)) e ∙ block-pair sum hs i q odd in
      (
        omega (arith, odd),
        rw hash (
            SlotsTo-number n (suc i) (q / 2 + 1) ((q + 1) / 2) _ (omega (arith, odd))
              (cascade_one-SlotsTo n (suc i) (q / 2) ps s)),
      )

  pub merkle_cascade-SlotsTo :
      (n m : ℕ) (ps : List Hash) (ks : List Bytes)
      → ((j : ℕ) → j < length ks → get_elem? ks j ≡ get_elem? hs (m + j))
      → SlotsTo n 0 m ps
      → SlotsTo n 0 (m + length ks) (merkle_cascade sum ps (map some ks) (some n))
  unfolding merkle_cascade
  merkle_cascade-SlotsTo n m ps [] same_ s = SlotsTo-number n 0 m (m + 0) ps (omega arith) s
  merkle_cascade-SlotsTo n m ps (k ∷ ks) same_ s =
      let here : block sum hs 0 m ≡ k =
        unfold block in
        ap or_empty (ap (get_elem? hs) (omega arith) ∙ sym (same_ 0 (omega arith))) in
      let next : SlotsTo n 0 (m + 1) (cascade_one sum ps (some n) (some k)) =
        rw (← here) (cascade_one-SlotsTo n 0 m ps s) in
      SlotsTo-number n 0 (m + 1 + length ks) (m + suc (length ks)) _ (omega arith) (
        merkle_cascade-SlotsTo n (m + 1) (cascade_one sum ps (some n) (some k)) ks
          (λ j l. same_ (suc j) (omega arith) ∙ ap (get_elem? hs) (omega arith)) next)

  -- What `getIntermediate` makes of the slots up to a height.
  abbrev pub Finds : ℕ → ℕ → ℕ → Outcome (Hash × Hash) → Type 0
  Finds i d q o =
      (e : String) × (o ≡ (
        if full d q
        then ok
            (some (block sum hs (i + d) (halved d q - 1)), some (block sum hs (i + d) (halved d q)))
        else err e))

  pub column-step :
      (d : ℕ) (v : Bytes) (ps : List Hash) (right : Bytes)
      → column sum (some v ∷ ps) (suc (suc d)) (some right)
        ≡ column sum ps (suc d) (some (sum (v ++ right)))
  unfolding column combine_up
  column-step d v ps right =
      let same_ : ltb (suc (length ps)) (suc (suc d)) ≡ ltb (length ps) (suc d) = ground arith in
      rw same_ refl

  -- A nil slot below the height is an error.
  column-nil :
      (d : ℕ) (ps : List Hash) (right : Hash)
      → (e : String) × (column sum (none ∷ ps) (suc (suc d)) right ≡ err e)
  unfolding column combine_up
  column-nil d ps right = elim (Bool-cases (ltb (suc (length ps)) (suc (suc d)))) [
    | inl short ↦ ("no values found at height %d", rw (column, short) refl)
    | inr long ↦ elim (Option-cases (hash_at ps d)) [
      | inl n ↦ ("nil at height %d", rw (column, long, n) refl)
      | inr (v, found_) ↦
          ("should not encounter a nil at height %d", rw (column, long, found_) refl)
    ]
  ]

  pub column-Finds :
      (i d q : ℕ) (ps : List Hash)
      → SlotsTo (suc d) i q ps
      → Finds i d q (column sum ps (suc d) (some (block sum hs i q)))
  unfolding column combine_up
  column-Finds i d q [] s =
      let short : ltb 0 (suc d) ≡ true = ground arith in
      ("no values found at height %d", rw (short, full-even d q (omega (arith, s))) refl)
  column-Finds i zero q (none ∷ ps) (even, s) =
      let room : ltb (suc (length ps)) 1 ≡ false = ground arith in
      let bit : (q % 2 == 1) ≡ false = ground (arith, even) in
      ("nil at height %d", rw (room, bit) refl)
  column-Finds i zero q (some v ∷ ps) (odd, e, s) =
      let room : ltb (suc (length ps)) 1 ≡ false = ground arith in
      let bit : (q % 2 == 1) ≡ true = ground (arith, odd) in
      let level : i + 0 ≡ i = omega arith in ("", rw (room, bit, level, e) refl)
  column-Finds i (suc d) q (none ∷ ps) (even, s) =
      let bit : (q % 2 == 1) ≡ false = ground (arith, even) in
      let (e, fails) = column-nil d ps (some (block sum hs i q)) in (e, fails ∙ rw bit refl)
  column-Finds i (suc d) q (some v ∷ ps) (odd, e, s) =
      let bit : (q % 2 == 1) ≡ true = ground (arith, odd) in
      let level : i + suc d ≡ suc i + d = omega arith in
      let hash : sum (v ++ block sum hs i q) ≡ block sum hs (suc i) (q / 2) =
        ap (λ x. sum (x ++ block sum hs i q)) e ∙ block-pair sum hs i q odd in
      let (text, rest) = column-Finds (suc i) d (q / 2) ps s in
      (
        text,
        column-step d v ps (block sum hs i q)
            ∙ ap (λ x. column sum ps (suc d) (some x)) hash
            ∙ rest
            ∙ rw (bit, level) refl,
      )
