-- ===== src/Merkle/Building/Rounds.antt =====
-- The rounds of the first loop of `BuildReceiptWith`: each takes a larger subtree of the element, or moves
-- on to where the subtree's right neighbour ends.
use Prim.Native.String.{String}
use accumulate.Common.{
  ℕ, zero, suc, ◌+◌, ◌-◌, ◌*◌, ◌/◌, ◌%◌, ◌^◌, ◌≤◌, ◌≡◌, refl, ap, sym, ◌∙◌, List, [], ◌∷◌, ◌++◌,
  some, true, false, ◌==◌, if◌then◌else◌, arith,
}
use accumulate.Common.Outcome.{Outcome, ok, err}
use accumulate.Common.Bytes.{Bytes}
use accumulate.Merkle.Hash.{Hash}
use accumulate.Merkle.Receipt.{apply, follow}
use accumulate.Merkle.Receipt.Combine.{follow-append}
use accumulate.Merkle.Building.{Climb, entry, climb_with, climb_round}
use accumulate.Merkle.Building.Blocks.{block, block-pair, full, halved}
use accumulate.Merkle.Building.Powers.{odd_mul, even_mul, double_mul, power_double, full-end}

-- What `getIntermediate` answers up to an index: two subtrees where the index ends one of that height, and
-- an error elsewhere.
abbrev pub Answers : (Bytes → Bytes) → List Bytes → ℕ → (ℕ → ℕ → Outcome (Hash × Hash)) → Type 0
Answers sum hs end intermediate =
    (i d height : ℕ)
    → i ≤ end
    → height ≡ suc d
    → (e : String) × (intermediate i height ≡ (
        if full d i
        then ok (some (block sum hs d (halved d i - 1)), some (block sum hs d (halved d i)))
        else err e))

module _ (sum : Bytes → Bytes) (hs : List Bytes) (start end : ℕ) where
  -- The entries lead from the element to subtree `b` of 2^d elements, which ends no later than the last
  -- element. The index is where it ends, or where its right neighbour ends.
  pub record Reaches (d b : ℕ) (c : Climb) : Type 0 where
    pub level : c.height ≡ suc d
    pub path : follow sum c.entries (some (block sum hs 0 start)) ≡ some (block sum hs d b)
    pub complete : b * 2 ^ d + 2 ^ d ≤ end + 1
    pub stays : c.stay ≡ true → c.index + 1 ≡ b * 2 ^ d + 2 ^ d
    pub lags : c.stay ≡ false → (b % 2 ≡ 0) × (c.index + 1 ≡ b * 2 ^ d + 2 * 2 ^ d)

  module _ (intermediate : ℕ → ℕ → Outcome (Hash × Hash))
      (answers : Answers sum hs end intermediate) where
    -- A round that combines with the left neighbour, or with the right one.
    pub joins_left :
        (d b : ℕ) (c : Climb)
        → Reaches d b c
        → c.stay ≡ true
        → b % 2 ≡ 1
        → c.index ≤ end
        → (c' : Climb) × (climb_round intermediate c ≡ some c')
          × Reaches (suc d) (b / 2) c'
          × (c'.stay ≡ true)
    unfolding climb_round climb_with follow apply
    joins_left d b c at stay odd inside =
        let column = at.stays stay in
        let (bits, number) = full-end d b c.index column in
        let twice = odd_mul b (2 ^ d) odd in
        let p = power_double d in
        let bit : (b % 2 == 1) ≡ true = ground (arith, odd) in
        let not_even : (c.index % 2 == 0) ≡ false = ground (arith, column, twice) in
        let answer : intermediate c.index c.height
            ≡ ok (some (block sum hs d (b - 1)), some (block sum hs d b)) =
          (answers c.index d c.height inside at.level).1 ∙ rw (bits, bit, number) refl in
        let c' : Climb = record {
          index = c.index;
          height = c.height + 1;
          stay = true;
          entries = c.entries ++ entry false (some (block sum hs d (b - 1))) ∷ [];
        } in
        let whole : b / 2 * 2 ^ suc d + 2 ^ suc d ≡ b * 2 ^ d + 2 ^ d =
          ap (λ x. b / 2 * x + x) p ∙ omega (arith, twice) in
        (
          c',
          rw (not_even, answer, stay) refl,
          record {
            level = omega (arith, at.level);
            path =
                follow-append sum c.entries (entry false (some (block sum hs d (b - 1))) ∷ [])
                  (some (block sum hs 0 start))
                ∙ rw at.path (ap some (block-pair sum hs d b odd));
            complete = omega (arith, whole, at.complete);
            stays = λ f. omega (arith, whole, column);
            lags = λ f. absurd (cc f);
          },
          refl,
        )

    pub joins_right :
        (d b : ℕ) (c : Climb)
        → Reaches d b c
        → c.stay ≡ false
        → c.index ≤ end
        → (c' : Climb) × (climb_round intermediate c ≡ some c')
          × Reaches (suc d) (b / 2) c'
          × (c'.stay ≡ true)
    unfolding climb_round climb_with follow apply
    joins_right d b c at stay inside =
        let (even, column) = at.lags stay in
        let next : c.index + 1 ≡ (b + 1) * 2 ^ d + 2 ^ d = column ∙ grind arith in
        let (bits, number) = full-end d (b + 1) c.index next in
        let twice = even_mul b (2 ^ d) even in
        let p = power_double d in
        let bit : ((b + 1) % 2 == 1) ≡ true = ground (arith, even) in
        let not_even : (c.index % 2 == 0) ≡ false = ground (arith, column, twice) in
        let same_ : b + 1 - 1 ≡ b = omega arith in
        let answer : intermediate c.index c.height
            ≡ ok (some (block sum hs d b), some (block sum hs d (b + 1))) =
          (answers c.index d c.height inside at.level).1 ∙ rw (bits, bit, number, same_) refl in
        let c' : Climb = record {
          index = c.index;
          height = c.height + 1;
          stay = true;
          entries = c.entries ++ entry true (some (block sum hs d (b + 1))) ∷ [];
        } in
        let whole : b / 2 * 2 ^ suc d + 2 ^ suc d ≡ b * 2 ^ d + 2 * 2 ^ d =
          ap (λ x. b / 2 * x + x) p ∙ omega (arith, twice) in
        let odd : (b + 1) % 2 ≡ 1 = omega (arith, even) in
        let half : (b + 1) / 2 ≡ b / 2 = omega (arith, even) in
        (
          c',
          rw (not_even, answer, stay) refl,
          record {
            level = omega (arith, at.level);
            path =
                follow-append sum c.entries (entry true (some (block sum hs d (b + 1))) ∷ [])
                  (some (block sum hs 0 start))
                ∙ rw at.path (
                    ap some (
                      ap (λ x. sum (block sum hs d x ++ block sum hs d (b + 1))) (sym same_)
                      ∙ block-pair sum hs d (b + 1) odd
                      ∙ ap (block sum hs (suc d)) half));
            complete = omega (arith, whole, column, inside);
            stays = λ f. omega (arith, whole, column);
            lags = λ f. absurd (cc f);
          },
          refl,
        )

    -- A round that goes on to the right neighbour's end.
    pub moves_on :
        (d b : ℕ) (c : Climb)
        → Reaches d b c
        → c.stay ≡ true
        → b % 2 ≡ 0
        → c.index ≤ end
        → (c' : Climb) × (climb_round intermediate c ≡ some c') × Reaches d b c' × (c'.stay ≡ false)
    unfolding climb_round climb_with
    moves_on zero b c at stay even inside =
        let column = at.stays stay in
        let is_even : (c.index % 2 == 0) ≡ true = ground (arith, column, even) in
        (
          record c { index = c.index + 1; stay = false },
          rw is_even refl,
          record {
            level = at.level;
            path = at.path;
            complete = at.complete;
            stays = λ f. absurd (cc f);
            lags = λ f. (even, omega (arith, column));
          },
          refl,
        )
    moves_on (suc d) b c at stay even inside =
        let column = at.stays stay in
        let p = power_double d in
        let (bits, number) = full-end (suc d) b c.index column in
        let bit : (b % 2 == 1) ≡ false = ground (arith, even) in
        let twice = even_mul b (2 ^ suc d) even in
        let four : b / 2 * (2 * 2 ^ suc d) ≡ 2 * (b / 2 * 2 ^ suc d) =
          double_mul (b / 2) (2 ^ suc d) in
        let not_even : (c.index % 2 == 0) ≡ false = ground (arith, column, twice, four, p) in
        let (e, answers_at) = answers c.index (suc d) c.height inside at.level in
        let answer : intermediate c.index c.height ≡ err e = answers_at ∙ rw (bits, bit) refl in
        let step : c.height - 1 ≡ suc d = omega (arith, at.level) in
        (
          record c { index = c.index + 2 ^ (c.height - 1); stay = false },
          rw (not_even, answer) refl,
          record {
            level = at.level;
            path = at.path;
            complete = at.complete;
            stays = λ f. absurd (cc f);
            lags = λ f. (even, ap (λ x. c.index + 2 ^ x + 1) step ∙ omega (arith, column));
          },
          refl,
        )
