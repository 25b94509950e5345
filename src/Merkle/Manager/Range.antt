-- ===== src/Merkle/Manager/Range.antt =====
-- `GetRange` returns a part of the chain's elements.
use accumulate.Common.{
  ℕ, ◌-◌, ◌^◌, ◌≤◌, ◌<◌, ◌≡◌, ◌⊎◌, inl, inr, refl, ap, sym, ◌∙◌, List, map, some, true, false, ◌==◌,
  ◌||◌, ltb, leb, arith, length, take, drop, Bool-cases,
}
use accumulate.Common.Outcome.{ok, err}
use accumulate.Common.Slices.{take_all, length-drop}
use accumulate.Common.Bytes.{Bytes}
use accumulate.Merkle.Manager.{Chain, get_range}
use accumulate.Merkle.Manager.Holds.{state_at, Holds}
use accumulate.Merkle.Manager.Slices.{collect-slice}

module _ (sum : Bytes → Bytes) (p : ℕ) where
  -- GetRange, for the records of a chain with fewer than 2^63 elements and a mark power above 0:
  -- where `begin` is the index of an element and not past `end`, it returns the elements from
  -- `begin` up to, and without, `end`, or up to the last; else it returns the error.
  pub get_range-take :
      (c : Chain) (hs : List Bytes) (begin end : ℕ)
      → 1 < 2 ^ p
      → length hs < 2 ^ 63
      → Holds sum p c hs
      → (begin ≤ end
          → begin < length hs
          → get_range sum p c begin end ≡ ok (map some (take (end - begin) (drop begin hs))))
        × (end < begin ⊎ length hs ≤ begin → get_range sum p c begin end ≡ err "impossible range")
  unfolding get_range
  get_range-take c hs begin end frequent bound holds = (within, outside)
    where
      count : c.head.count ≡ length hs
      count = ap (λ m. m.count) holds.head_eq ∙ state_at-count hs
        where
          state_at-count : (ks : List Bytes) → (state_at sum p ks).count ≡ length ks
          state_at-count ks = unfold state_at in refl

      outside :
          end < begin ⊎ length hs ≤ begin → get_range sum p c begin end ≡ err "impossible range"
      outside h =
          let bad : (ltb end begin || leb c.head.count begin) ≡ true = ground (arith, count, h) in
          rw (get_range, bad) refl

      within :
          begin ≤ end
          → begin < length hs
          → get_range sum p c begin end ≡ ok (map some (take (end - begin) (drop begin hs)))
      within order inside =
          let good : (ltb end begin || leb c.head.count begin) ≡ false = ground (arith, count) in
          elim (Bool-cases (ltb c.head.count end)) [
            | inl t ↦
                let apart : (c.head.count == begin) ≡ false = ground (arith, count) in
                let all = length-drop begin hs in
                rw (get_range, good, t, apart)
                  (collect-slice sum p frequent c hs bound holds (omega arith) begin c.head.count
                      (omega (arith, count)) (omega (arith, count))
                    ∙ ap (λ ks. ok (map some ks))
                        (take_all (c.head.count - begin) (drop begin hs) (omega (arith, all, count))
                          ∙ sym (
                              take_all (end - begin) (drop begin hs)
                                (ground (arith, all, t, count)))))
            | inr f ↦ elim (Bool-cases (end == begin)) [
              | inl z ↦
                  let none_ : end - begin ≡ 0 = ground (arith, z) in
                  rw (get_range, good, f, z, none_) refl
              | inr z ↦
                  rw (get_range, good, f, z)
                    (collect-slice sum p frequent c hs bound holds (omega arith) begin end order
                      (ground (arith, f, count)))
            ]
          ]
