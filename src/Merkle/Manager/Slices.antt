-- ===== src/Merkle/Manager/Slices.antt =====
-- What `collect` takes from the hash lists of the states one mark apart.
use accumulate.Common.{
  ℕ, zero, suc, ◌+◌, ◌-◌, ◌*◌, ◌/◌, ◌%◌, ◌^◌, ◌≤◌, ◌<◌, ◌≡◌, ◌⊎◌, inl, inr, refl, ap, sym, ◌∙◌,
  List, [], ◌++◌, map, none, some, true, false, ◌==◌, ltb, leb, arith, length, take, drop,
  Bool-cases, ==_iff, length-take_le, leb→le, le→leb,
}
use accumulate.Common.Outcome.{ok, ◌>>=◌}
use accumulate.Common.Slices.{
  drop-take, length-drop, map-take, map-drop, length-map, take-block, length_of_take, drop-drop,
}
use native.Mathlib.Nat.{mod-eq_of_lt, mul-mod_left, div-add-mod', lt-div-mul-add, suc-mul, add-mul}
use accumulate.Common.Bytes.{Bytes}
use accumulate.Merkle.Hash.{Hash}
use accumulate.Merkle.State.{MerkleState}
use accumulate.Merkle.Manager.{Chain, expected_of, get_state, collect, slice}
use accumulate.Merkle.Manager.Holds.{last_mark, recent, state_at, Holds}
use accumulate.Merkle.Manager.Marks.{
  last_mark-block, head-count, get_state-mark, get_state-missing, recent-next_mark,
}

-- A multiple that is not 0 is at least the number.
multiple_le : (q f n : ℕ) → n ≡ q * f → 0 < n → f ≤ n
multiple_le zero f n e h = absurd (omega arith)
multiple_le (suc q) f n e h = omega (arith, suc-mul q f)

module _ (sum : Bytes → Bytes) (p : ℕ) (frequent : 1 < 2 ^ p) (c : Chain) (hs : List Bytes)
    (bound : length hs < 2 ^ 63) (holds : Holds sum p c hs) (nonempty : 0 < length hs) where
  -- The hash list of the state one mark after `last`.
  mark-hash_list :
      (q last : ℕ)
      → last ≡ q * 2 ^ p
      → last + 2 ^ p ≤ length hs
      → (state_at sum p (take (last + 2 ^ p) hs)).hash_list ≡ map some (take (2 ^ p) (drop last hs))
  mark-hash_list q last e le =
      recent-next_mark sum p frequent c hs bound holds nonempty q last (last + 2 ^ p) e le
        (omega (arith, frequent)) (inl refl)
      ∙ ap (map some) (drop-take last (2 ^ p) (last + 2 ^ p) hs refl)

  -- The head after the last mark: as many hashes as the loop expects, the last elements.
  head-expected_of :
      (q last : ℕ)
      → last ≡ q * 2 ^ p
      → last ≤ length hs
      → length hs < last + 2 ^ p
      → (length c.head.hash_list ≡ expected_of sum p (length hs - last))
        × (last < length hs → c.head.hash_list ≡ map some (drop last hs))
  unfolding state_at recent
  head-expected_of q last e le hi =
      let some_ = frequent in
      let kept : c.head.hash_list ≡ map some (recent (2 ^ p) hs) =
        ap (λ m. m.hash_list) holds.head_eq in
      elim (at_last (length hs) le) [
        | inl at ↦
            let d : length hs - last ≡ 0 = omega arith in
            let whole : length hs % 2 ^ p ≡ 0 =
              ap (λ k. k % 2 ^ p) (at ∙ e) ∙ mul-mod_left q (2 ^ p) in
            let full : last_mark (2 ^ p) (length hs) ≡ length hs - 2 ^ p =
              unfold last_mark in ground (arith, whole) in
            let enough : 2 ^ p ≤ length hs = multiple_le q (2 ^ p) (length hs) (at ∙ e) nonempty in
            (
              rw (kept, d, length-map, full, length-drop) (ground (arith, enough)),
              λ l. absurd (omega arith),
            )
        | inr l ↦
            let mark =
              last_mark-block (2 ^ p) q last (length hs) (omega (arith, frequent)) e l
                (omega arith) in
            let rem : (length hs - last) % 2 ^ p ≡ length hs - last = mod-eq_of_lt (omega arith) in
            (
              rw (kept, mark, length-map, length-drop) (ground (arith, rem)),
              λ l. rw (kept, mark) refl,
            )
      ]
    where
      at_last : (n : ℕ) → last ≤ n → (n ≡ last) ⊎ (last < n)
      at_last n h = omega arith

  collect-mark :
      (marks last : ℕ) (m : MerkleState) (rest : List Hash)
      → get_state sum p c (last + 2 ^ p - 1) ≡ some m
      → length m.hash_list ≡ 2 ^ p
      → collect sum p marks c (last + 2 ^ p) ≡ ok rest
      → collect sum p (suc marks) c last ≡ ok (m.hash_list ++ rest)
  unfolding collect
  collect-mark marks last m rest g l r =
      let good : (length m.hash_list == 2 ^ p) ≡ true = ground (arith, l) in
      rw (collect, g, good, r) refl

  collect-head :
      (marks last : ℕ)
      → get_state sum p c (last + 2 ^ p - 1) ≡ none
      → last ≤ c.head.count
      → length c.head.hash_list ≡ expected_of sum p (c.head.count - last)
      → collect sum p (suc marks) c last ≡ ok c.head.hash_list
  unfolding collect
  collect-head marks last g l e =
      let good : (length c.head.hash_list == expected_of sum p (c.head.count - last)) ≡ true =
        (==_iff _ _).1 e in
      let known : ltb c.head.count last ≡ false = ground (arith, l) in
      rw (collect, g, known, good) refl

  -- The first hashes that the loop collects are the elements from its mark on.
  collect-drop :
      (marks q last k : ℕ)
      → last ≡ q * 2 ^ p
      → k ≤ marks * 2 ^ p
      → last + k ≤ length hs
      → (ls : List Hash) × (collect sum p marks c last ≡ ok ls)
        × (take k ls ≡ map some (take k (drop last hs)))
  collect-drop zero q last k e few fits =
      let none_ : k ≡ 0 = omega (arith, few) in ([], (unfold collect in refl), rw none_ refl)
  collect-drop (suc marks) q last k e few fits =
      elim (Bool-cases (leb (last + 2 ^ p) (length hs))) [
        | inl t ↦
            let le : last + 2 ^ p ≤ length hs = leb→le _ _ t in
            let next : last + 2 ^ p ≡ suc q * 2 ^ p = rw suc-mul (omega (arith, e)) in
            let (rest, collects, taken) =
              collect-drop marks (suc q) (last + 2 ^ p) (k - 2 ^ p) next
                (omega (arith, suc-mul marks (2 ^ p))) (omega (arith, le, fits)) in
            let block = mark-hash_list q last e le in
            let m = state_at sum p (take (last + 2 ^ p) hs) in
            let index : suc (last + 2 ^ p - 1) ≡ last + 2 ^ p = omega (arith, frequent) in
            let multiple : suc (last + 2 ^ p - 1) % 2 ^ p ≡ 0 =
              ap (λ n. n % 2 ^ p) (index ∙ next) ∙ mul-mod_left (suc q) (2 ^ p) in
            let there =
              get_state-mark sum p frequent c hs bound holds nonempty (last + 2 ^ p - 1) multiple
                (omega (arith, frequent, le))
              ∙ ap (λ n. some (state_at sum p (take n hs))) index in
            let room : 2 ^ p ≤ length (drop last hs) = omega (arith, length-drop last hs, le) in
            let size : length m.hash_list ≡ 2 ^ p =
              ap length block
              ∙ length-map some (take (2 ^ p) (drop last hs))
              ∙ length-take_le (2 ^ p) (drop last hs) room in
            let after =
              taken
              ∙ ap (λ ks. map some (take (k - 2 ^ p) ks))
                  (sym (drop-drop (2 ^ p) last (last + 2 ^ p) hs refl)) in
            (
              m.hash_list ++ rest,
              collect-mark marks last m rest there size collects,
              ap (λ ls. take k (ls ++ rest)) block
                  ∙ take-block some (2 ^ p) k (drop last hs) rest room after,
            )
        | inr f ↦
            let short : length hs < last + 2 ^ p = ground (arith, f) in
            let (length_eq, list_eq) = head-expected_of q last e (omega arith) short in
            let count = head-count sum p frequent c hs bound holds nonempty in
            let missing =
              get_state-missing sum p frequent c hs bound holds nonempty (last + 2 ^ p - 1)
                (λ at l. omega (arith, frequent)) in
            (
              c.head.hash_list,
              collect-head marks last missing (omega (arith, count)) (rw count length_eq),
              elim (inside (length hs) (omega arith)) [
                | inl at ↦ let none_ : k ≡ 0 = omega arith in rw none_ refl
                | inr l ↦ ap (take k) (list_eq l) ∙ sym (map-take some k (drop last hs))
              ],
            )
      ]
    where
      inside : (n : ℕ) → last ≤ n → (n ≡ last) ⊎ (last < n)
      inside n h = omega arith

  -- The slice of what the loop collects.
  pub collect-slice :
      (begin stop : ℕ)
      → begin ≤ stop
      → stop ≤ length hs
      → (collect sum p ((stop - (begin - begin % 2 ^ p)) / 2 ^ p + 1) c (begin - begin % 2 ^ p)
          >>= λ hl. slice sum p hl (begin % 2 ^ p) (begin % 2 ^ p + stop - begin))
        ≡ ok (map some (take (stop - begin) (drop begin hs)))
  unfolding slice
  collect-slice begin stop order inside =
      let whole = div-add-mod' begin (2 ^ p) in
      let start = begin - begin % 2 ^ p in
      let first = begin % 2 ^ p in
      let at : start ≡ begin / 2 ^ p * 2 ^ p = omega (arith, whole) in
      let k = first + stop - begin in
      let size : k ≡ stop - start = omega (arith, whole, order) in
      let room = lt-div-mul-add {a = stop - start} {b = 2 ^ p} (omega (arith, frequent)) in
      let (hl, collects, taken) =
        collect-drop ((stop - start) / 2 ^ p + 1) (begin / 2 ^ p) start k at
          (rw add-mul (omega (arith, size, room))) (omega (arith, size, inside, whole, order)) in
      let full : k ≤ length hl = length_of_take k hl (
        ap length taken
        ∙ length-map some (take k (drop start hs))
        ∙ length-take_le k (drop start hs) (omega (arith, length-drop start hs, size, inside))) in
      let fits = le→leb k (length hl) full in
      rw (collects, fits, taken)
        (ap ok (
          sym (map-drop some first (take k (drop start hs)))
          ∙ ap (map some) (
              drop-take first (stop - begin) k (drop start hs) (omega (arith, whole, order))
              ∙ ap (take (stop - begin)) (drop-drop first start begin hs (omega (arith, whole))))))
