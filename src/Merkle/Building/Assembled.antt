-- ===== src/Merkle/Building/Assembled.antt =====
-- `BuildReceiptWith` makes a valid receipt to the root of the state.
use accumulate.Common.{
  ℕ, suc, ◌+◌, ◌*◌, ◌%◌, ◌^◌, ◌≤◌, ◌<◌, ◌≡◌, inl, inr, refl, ap, sym, ◌∙◌, List, [], ◌++◌, none,
  some, true, false, ◌==◌, arith, Bool-cases,
}
use accumulate.Common.Outcome.{Outcome, ok}
use accumulate.Common.Bytes.{Bytes, equal_bytes_refl}
use accumulate.Merkle.Hash.{Hash, bytes}
use accumulate.Merkle.State.{MerkleState, fold_root}
use accumulate.Merkle.Receipt.{Receipt, follow, validate}
use accumulate.Merkle.Receipt.Combine.{follow-append}
use accumulate.Merkle.Building.{Climb, climb_loop, pending_loop, build_receipt_with}
use accumulate.Merkle.Building.Blocks.{block, Slots, halved}
use accumulate.Merkle.Building.Rounds.{Answers, Reaches}
use accumulate.Merkle.Building.Columns.{climb_loop-Reaches}
use accumulate.Merkle.Building.Powers.{halved-between}
use accumulate.Merkle.Building.Pending.{pending_loop-Leads}

-- A valid receipt that leads from the start of the first to a root.
pub record Builds (sum : Bytes → Bytes) (r : Receipt) (root : Hash) (r' : Receipt) : Type 0 where
  pub start : r'.start ≡ r.start
  pub start_index : r'.start_index ≡ r.start_index
  pub end : r'.end ≡ r.end
  pub end_index : r'.end_index ≡ r.end_index
  pub anchor : r'.anchor ≡ root
  pub valid : validate sum r' ≡ true

not_first : (n : ℕ) → 0 < n → (n == 0) ≡ false
not_first n h = ground (arith, h)

module _ (sum : Bytes → Bytes) (hs : List Bytes) where
  pub validates : (r : Receipt) → follow sum r.entries r.start ≡ r.anchor → validate sum r ≡ true
  unfolding validate
  validates r e = rw e (equal_bytes_refl (bytes r.anchor))

  -- The loop ends behind the last element, in the column of the right neighbour.
  lagging :
      (start e d b : ℕ) (c' : Climb)
      → Reaches sum hs start e d b c'
      → e < c'.index
      → (b % 2 ≡ 0) × (c'.index + 1 ≡ b * 2 ^ d + 2 * 2 ^ d)
  lagging start e d b c' at over = elim (Bool-cases c'.stay) [
    | inl t ↦ absurd (omega (arith, at.stays t, at.complete, over))
    | inr t ↦ at.lags t
  ]

  module _ (intermediate : ℕ → ℕ → Outcome (Hash × Hash)) (state : MerkleState) where
    built :
        (r : Receipt) (c' : Climb) (d : ℕ)
        → climb_loop intermediate r.end_index 130
            (record { index = r.start_index; height = 1; stay = true; entries = r.entries })
          ≡ some c'
        → c'.height ≡ suc d
        → (r.end_index == 0) ≡ false
        → build_receipt_with sum intermediate state r
          ≡ ok (record r {
            anchor = (pending_loop sum (suc d) state.pending 0 false none).0;
            entries = c'.entries ++ (pending_loop sum (suc d) state.pending 0 false none).1;
          })
    unfolding build_receipt_with
    built r c' d climbs level last = rw (build_receipt_with, climbs, last, level) refl

    pub build_receipt_with-Builds :
        (r : Receipt)
        → Answers sum hs r.end_index intermediate
        → Slots sum hs 0 (suc r.end_index) state.pending
        → r.entries ≡ []
        → r.start ≡ some (block sum hs 0 r.start_index)
        → r.start_index ≤ r.end_index
        → 0 < r.end_index
        → r.end_index < 2 ^ 63
        → (r' : Receipt) × (build_receipt_with sum intermediate state r ≡ ok r')
          × Builds sum r (fold_root sum state.pending none) r'
    build_receipt_with-Builds r answers slots none_yet from order later inside =
        let e = r.end_index in
        let s0 : Climb = record {
          index = r.start_index;
          height = 1;
          stay = true;
          entries = r.entries;
        } in
        let begins : Reaches sum hs r.start_index e 0 r.start_index s0 = record {
          level = omega arith;
          path = rw none_yet (unfold follow in refl);
          complete = omega (arith, order);
          stays = λ f. omega arith;
          lags = λ f. absurd (cc f);
        } in
        let (c', climbs, d, b, at, over) =
          climb_loop-Reaches sum hs r.start_index e intermediate answers 130 0 r.start_index s0
            inside begins (omega arith) in
        let column = lagging r.start_index e d b c' at over in
        let bits : halved d (suc e) ≡ b + 1 =
          halved-between d b (suc e) (omega (arith, at.complete)) (omega (arith, column.1, over)) in
        let (root, path) =
          pending_loop-Leads sum hs d d b 0 (suc e) state.pending none (omega arith) column.0 bits
            slots in
        let out = pending_loop sum (suc d) state.pending 0 false none in
        let leads : follow sum (c'.entries ++ out.1) r.start ≡ out.0 =
          ap (follow sum (c'.entries ++ out.1)) from
          ∙ follow-append sum c'.entries out.1 (some (block sum hs 0 r.start_index))
          ∙ ap (follow sum out.1) at.path
          ∙ path
          ∙ sym root in
        (
          record r { anchor = out.0; entries = c'.entries ++ out.1 },
          built r c' d climbs at.level (not_first e later),
          record {
            start = refl;
            start_index = refl;
            end = refl;
            end_index = refl;
            anchor = root;
            valid = validates (record r { anchor = out.0; entries = c'.entries ++ out.1 }) leads;
          },
        )
