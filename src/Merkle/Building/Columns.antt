-- ===== src/Merkle/Building/Columns.antt =====
-- The first loop of `BuildReceiptWith` climbs to the largest subtree of the element that is complete.
use accumulate.Common.{
  ℕ, zero, suc, ◌+◌, ◌-◌, ◌*◌, ◌/◌, ◌%◌, ◌^◌, ◌≤◌, ◌<◌, ◌≡◌, inl, inr, refl, List, some, Bool, true,
  ◌==◌, leb, if◌then◌else◌, arith, Bool-cases,
}
use accumulate.Common.Outcome.{Outcome}
use accumulate.Common.Bytes.{Bytes}
use accumulate.Merkle.Hash.{Hash}
use accumulate.Merkle.Building.{Climb, climb_round, climb_loop}
use accumulate.Merkle.Building.Powers.{low_power}
use accumulate.Merkle.Building.Rounds.{Answers, Reaches, joins_left, joins_right, moves_on}

module _ (sum : Bytes → Bytes) (hs : List Bytes) (start end : ℕ) where
  -- The rounds that are left at most.
  abbrev rounds_left : ℕ → Bool → ℕ
  rounds_left d stay = 2 * (64 - d) + (if stay then 1 else 0)

  module _ (intermediate : ℕ → ℕ → Outcome (Hash × Hash))
      (answers : Answers sum hs end intermediate) where
    -- What the loop must end with.
    abbrev Ends : ℕ → Climb → Type 0
    Ends rounds c =
        (c' : Climb) × (climb_loop intermediate end rounds c ≡ some c')
        × (d : ℕ) × (b : ℕ) × Reaches sum hs start end d b c'
        × (end < c'.index)

    round_before :
        (rounds : ℕ) (c c1 : Climb)
        → leb c.index end ≡ true
        → climb_round intermediate c ≡ some c1
        → Ends rounds c1
        → Ends (suc rounds) c
    unfolding climb_loop
    round_before rounds c c1 inside s (c2, t, d, b, at, over) =
        (c2, rw (inside, s) t, d, b, at, over)

    pub climb_loop-Reaches :
        (rounds d b : ℕ) (c : Climb)
        → end < 2 ^ 63
        → Reaches sum hs start end d b c
        → rounds_left d c.stay < rounds
        → Ends rounds c
    unfolding climb_loop
    climb_loop-Reaches zero d b c bound at room = absurd (omega arith)
    climb_loop-Reaches (suc rounds) d b c bound at room = elim (Bool-cases (leb c.index end)) [
      | inr over ↦ (c, rw over refl, d, b, at, ground (arith, over))
      | inl inside ↦
          let within : c.index ≤ end = ground (arith, inside) in
          let level : d ≤ 63 =
            low_power d (end + 1) (omega (arith, at.complete)) (omega (arith, bound)) in
          elim (Bool-cases c.stay) [
            | inr lagging ↦
                let (c1, s, at1, stay1) =
                  joins_right sum hs start end intermediate answers d b c at lagging within in
                round_before rounds c c1 inside s (
                  climb_loop-Reaches rounds (suc d) (b / 2) c1 bound at1
                    (rw stay1 (ground (arith, room, lagging, level))))
            | inl staying ↦ elim (Bool-cases (b % 2 == 1)) [
              | inl odd ↦
                  let (c1, s, at1, stay1) =
                    joins_left sum hs start end intermediate answers d b c at staying
                      (ground (arith, odd)) within in
                  round_before rounds c c1 inside s (
                    climb_loop-Reaches rounds (suc d) (b / 2) c1 bound at1
                      (rw stay1 (ground (arith, room, staying, level))))
              | inr even ↦
                  let (c1, s, at1, stay1) =
                    moves_on sum hs start end intermediate answers d b c at staying
                      (ground (arith, even)) within in
                  round_before rounds c c1 inside s (
                    climb_loop-Reaches rounds d b c1 bound at1
                      (rw stay1 (ground (arith, room, staying))))
            ]
          ]
    ]
