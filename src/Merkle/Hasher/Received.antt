-- ===== src/Merkle/Hasher/Received.antt =====
-- What `getIntermediate` of a hasher answers.
use Prim.Native.String.{String}
use accumulate.Common.{
  ℕ, zero, suc, ◌+◌, ◌-◌, ◌/◌, ◌%◌, ◌≤◌, ◌<◌, ◌≡◌, refl, ap, sym, ◌∙◌, inl, inr, List, [], ◌∷◌, map,
  some, true, false, ◌==◌, leb, if◌then◌else◌, length, take, get_elem?, replicate, All, arith,
  Bool-cases, length-take_le, take-append,
}
use accumulate.Common.Slices.{length-map, map-take}
use accumulate.Common.Outcome.{ok, err, ◌>>=◌}
use accumulate.Common.Bytes.{Bytes}
use accumulate.Merkle.Hash.{Hash, bytes}
use accumulate.Merkle.Binding.{IsHash}
use accumulate.Merkle.Cascade.{merkle_cascade}
use accumulate.Merkle.Building.Blocks.{or_empty, block, full, full-even, halved}
use accumulate.Merkle.Building.Rounds.{Answers}
use accumulate.Merkle.Building.Intermediate.{get_elem?-take, get_elem?-some}
use accumulate.Merkle.Hasher.{to_32, copy_left, hash_at, column, hasher_intermediate}
use accumulate.Merkle.Hasher.Limited.{SlotsTo, SlotsTo-nil, merkle_cascade-SlotsTo, column-Finds}

pub hash_at-some :
    (hs : List Bytes) (i : ℕ) (h : Bytes)
    → get_elem? hs i ≡ some h
    → hash_at (map some hs) i ≡ some h
hash_at-some [] i h e = absurd (cc e)
hash_at-some (x ∷ xs) zero h e = e
hash_at-some (x ∷ xs) (suc i) h e = hash_at-some xs i h e

to_32-id : (b : Bytes) → IsHash b → to_32 b ≡ b
unfolding to_32
to_32-id b size = take-append 32 b (replicate 32 0) size

All-get_elem? :
    (hs : List Bytes) (i : ℕ) (h : Bytes) → All IsHash hs → get_elem? hs i ≡ some h → IsHash h
All-get_elem? [] i h a e = absurd (cc e)
All-get_elem? (x ∷ xs) zero h (s, a) e = let same_ : x ≡ h = cc e in rw (← same_) s
All-get_elem? (x ∷ xs) (suc i) h (s, a) e = All-get_elem? xs i h a e

halved_le : (d q : ℕ) → halved d q ≤ q
halved_le zero q = omega arith
halved_le (suc d) q = omega (arith, halved_le d (q / 2))

module _ (sum : Bytes → Bytes) (hs : List Bytes) (sized : (b : Bytes) → length (sum b) ≡ 32)
    (hashes : All IsHash hs) where
  block-IsHash : (d j : ℕ) → j < length hs → IsHash (block sum hs d j)
  unfolding block
  block-IsHash zero j h =
      let (b, e) = get_elem?-some hs j h in rw (ap or_empty e) (All-get_elem? hs j b hashes e)
  block-IsHash (suc d) j h = sized _

  hasher_intermediate-odd :
      (i d : ℕ) (cascade : List Hash)
      → i < length hs
      → i % 2 ≡ 1
      → merkle_cascade sum [] (take i (map some hs)) (some (suc d)) ≡ cascade
      → hasher_intermediate sum (map some hs) i (suc d)
        ≡ (column sum cascade (suc d) (some (block sum hs 0 i)) >>= copy_left)
  unfolding hasher_intermediate
  hasher_intermediate-odd i d cascade inside odd e =
      let bit : (i % 2 == 1) ≡ true = ground (arith, odd) in
      let room : leb (length (map some hs)) i ≡ false =
        ground (arith, length-map some hs, inside) in
      let (b, here) = get_elem?-some hs i inside in
      let leaf : block sum hs 0 i ≡ b = unfold block in ap or_empty here in
      let whole = to_32-id b (All-get_elem? hs i b hashes here) in
      let right : some (to_32 (bytes (hash_at (map some hs) i))) ≡ some (block sum hs 0 i) =
        ap (λ x. some (to_32 (bytes x))) (hash_at-some hs i b here) ∙ ap some (whole ∙ sym leaf) in
      let begins : hasher_intermediate sum (map some hs) i (suc d) ≡ (
          column sum (merkle_cascade sum [] (take i (map some hs)) (some (suc d))) (suc d)
            (some (to_32 (bytes (hash_at (map some hs) i))))
          >>= copy_left) =
        rw (hasher_intermediate, bit, room) refl in
      begins
      ∙ ap
          (λ cs.
            column sum cs (suc d) (some (to_32 (bytes (hash_at (map some hs) i)))) >>= copy_left)
          e
      ∙ ap (λ x. column sum cascade (suc d) x >>= copy_left) right

  -- The slots of the cascade up to an element.
  cascade-SlotsTo :
      (i n : ℕ)
      → i ≤ length hs
      → SlotsTo sum hs n 0 i (merkle_cascade sum [] (take i (map some hs)) (some n))
  cascade-SlotsTo i n h =
      let counts = length-take_le i hs h in
      let s : SlotsTo sum hs n 0 (0 + length (take i hs))
          (merkle_cascade sum [] (map some (take i hs)) (some n)) =
        merkle_cascade-SlotsTo sum hs n 0 [] (take i hs)
          (λ j l. get_elem?-take i j hs (omega (arith, counts)) ∙ ap (get_elem? hs) (omega arith))
          (SlotsTo-nil sum hs n 0 0 refl) in
      let total : 0 + length (take i hs) ≡ i = omega (arith, counts) in
      rw (← map-take some i hs) (rw total at s)

  -- The left hash is copied, which leaves it as it is.
  copied :
      (i d : ℕ) (text : String)
      → i < length hs
      → ((if full d i
            then ok (some (block sum hs d (halved d i - 1)), some (block sum hs d (halved d i)))
            else err text)
          >>= copy_left)
        ≡ (if full d i
            then ok (some (block sum hs d (halved d i - 1)), some (block sum hs d (halved d i)))
            else err text)
  unfolding copy_left block
  copied i d text inside = elim (Bool-cases (full d i)) [
    | inr f ↦ rw f refl
    | inl f ↦
        let below = halved_le d i in
        rw
          (
            f,
            to_32-id (block sum hs d (halved d i - 1))
                (block-IsHash d (halved d i - 1) (omega (arith, below, inside))),
          )
          refl
  ]

  pub hasher_intermediate-Answers :
      (end : ℕ) → end < length hs → Answers sum hs end (hasher_intermediate sum (map some hs))
  unfolding hasher_intermediate
  hasher_intermediate-Answers end inside i d height h level = elim (Bool-cases (i % 2 == 1)) [
    | inr even ↦
        let not_full = full-even d i (ground (arith, even)) in
        ("element is not odd", rw (hasher_intermediate, even, not_full) refl)
    | inl odd ↦
        let cascade = merkle_cascade sum [] (take i (map some hs)) (some (suc d)) in
        let (text, finds) =
          column-Finds sum hs 0 d i cascade (cascade-SlotsTo i (suc d) (omega arith)) in
        let at : 0 + d ≡ d = omega arith in
        (
          text,
          ap (hasher_intermediate sum (map some hs) i) level
              ∙ hasher_intermediate-odd i d cascade (omega arith) (ground (arith, odd)) refl
              ∙ ap (λ o. o >>= copy_left) (finds ∙ rw at refl)
              ∙ copied i d text (omega arith),
        )
  ]
