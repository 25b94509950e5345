-- ===== src/Merkle/Building/Complete.antt =====
-- `BuildReceipt` makes a valid receipt.
use accumulate.Common.{
  ℕ, suc, ◌+◌, ◌^◌, ◌≤◌, ◌<◌, ◌≡◌, refl, ap, sym, ◌∙◌, List, [], none, some, true, false, ◌==◌,
  length, take, arith, length-take_le,
}
use accumulate.Common.Outcome.{ok}
use accumulate.Common.Bytes.{Bytes}
use accumulate.Merkle.State.{fold_root, get_md_root, trim, trim_list}
use accumulate.Merkle.Receipt.{Receipt, validate}
use accumulate.Merkle.Manager.{Chain, get_any_state, chain_intermediate}
use accumulate.Merkle.Manager.Holds.{Holds, state_at}
use accumulate.Merkle.Manager.AnyState.{get_any_state-state_at}
use accumulate.Merkle.Building.{build_receipt}
use accumulate.Merkle.Building.Blocks.{block, trim_list-Slots}
use accumulate.Merkle.Building.Assembled.{build_receipt_with-Builds}
use accumulate.Merkle.Building.Pending.{fold_root-trim_list}
use accumulate.Merkle.Building.Intermediate.{state_at-Slots, chain_intermediate-Answers}

module _ (sum : Bytes → Bytes) (p : ℕ) (hs : List Bytes) where
  -- A receipt that leads from its start to the root after its end.
  pub record Receives (r r' : Receipt) : Type 0 where
    pub start : r'.start ≡ r.start
    pub start_index : r'.start_index ≡ r.start_index
    pub end : r'.end ≡ r.end
    pub end_index : r'.end_index ≡ r.end_index
    pub anchor : r'.anchor ≡ get_md_root sum (state_at sum p (take (suc r.end_index) hs))
    pub valid : validate sum r' ≡ true

module _ (sum : Bytes → Bytes) (p : ℕ) (frequent : 1 < 2 ^ p) (c : Chain) (hs : List Bytes)
    (bound : length hs < 2 ^ 63) (holds : Holds sum p c hs) where
  pub state_at-root :
      (n : ℕ)
      → suc n ≤ length hs
      → get_md_root sum (state_at sum p (take (suc n) hs))
        ≡ fold_root sum (state_at sum p (take (suc n) hs)).pending none
  unfolding get_md_root state_at
  state_at-root n h =
      let full : (length (take (suc n) hs) == 0) ≡ false =
        ground (arith, length-take_le (suc n) hs h) in
      rw full refl

  pub build_receipt-Receives :
      (r : Receipt)
      → r.entries ≡ []
      → r.start ≡ some (block sum hs 0 r.start_index)
      → r.start_index ≤ r.end_index
      → 0 < r.end_index
      → r.end_index < length hs
      → (r' : Receipt) × (build_receipt sum p c r ≡ ok r') × Receives sum p hs r r'
  unfolding build_receipt trim
  build_receipt-Receives r none_yet from order later inside =
      let e = r.end_index in
      let slots = state_at-Slots sum p frequent c hs bound holds (suc e) (omega arith) in
      let state = state_at sum p (take (suc e) hs) in
      let reached = (get_any_state-state_at sum p c hs frequent bound holds).1 e inside in
      let there : get_any_state sum p c (e + 1) ≡ ok state =
        ap (get_any_state sum p c) (omega arith) ∙ reached in
      let (r', made, w) =
        build_receipt_with-Builds sum hs (chain_intermediate sum p c) (trim state) r
          (chain_intermediate-Answers sum p frequent c hs bound holds e inside)
          (trim_list-Slots sum hs 0 (suc e) state.pending slots) none_yet from order later
          (omega (arith, bound)) in
      let anchored : fold_root sum (trim_list state.pending) none ≡ get_md_root sum state =
        fold_root-trim_list sum state.pending none ∙ sym (state_at-root e (omega arith)) in
      (
        r',
        rw (build_receipt, there) made,
        record {
          start = w.start;
          start_index = w.start_index;
          end = w.end;
          end_index = w.end_index;
          anchor = w.anchor ∙ anchored;
          valid = w.valid;
        },
      )
