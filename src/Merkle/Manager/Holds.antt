-- ===== src/Merkle/Manager/Holds.antt =====
-- What the records of a chain hold after some hashes.
use accumulate.Common.{
  ℕ, suc, ◌+◌, ◌-◌, ◌%◌, ◌≤◌, ◌<◌, ◌≡◌, ◌⊎◌, inl, inr, ap, ◌∙◌, List, [], ◌∷◌, map, Option, none,
  some, Bool, ◌==◌, ◌&&◌, ltb, arith, if◌then◌else◌, length, take, drop, get_elem?,
}
use native.Mathlib.Nat.{mod-lt, suc-mod, mod-eq_of_lt, mod_self, mod-le}
use accumulate.Common.Bytes.{Bytes, equal_bytes}
use accumulate.Merkle.State.{MerkleState, empty, add_all}
use accumulate.Merkle.Manager.{Chain, mark_freq}

-- The number of elements before the last mark's own: all of them are older than its HashList.
unfoldable pub last_mark : ℕ → ℕ → ℕ
last_mark f n = if n % f == 0 then n - f else n - n % f

-- The elements of the last mark, those that HashList keeps.
unfoldable pub recent : ℕ → List Bytes → List Bytes
unfolding last_mark
recent f hs = drop (last_mark f (length hs)) hs

-- The index of the first of the elements that is the hash.
unfoldable pub first_index : Bytes → List Bytes → Option ℕ
unfolding equal_bytes
first_index h [] = none
first_index h (g ∷ gs) =
    let rest = first_index h gs in
    if equal_bytes h g then some 0 else elim rest [ none ↦ none | some i ↦ some (suc i) ]

module _ (sum : Bytes → Bytes) (mark_power : ℕ) where
  -- The state of the chain with these elements.
  unfoldable pub state_at : List Bytes → MerkleState
  unfolding recent add_all
  state_at hs = record {
    count = length hs;
    pending = (add_all sum empty (map some hs)).pending;
    hash_list = map some (recent (mark_freq sum mark_power) hs);
  }

  -- Whether the state with `i + 1` elements is at a mark.
  unfoldable pub is_mark : List Bytes → ℕ → Bool
  is_mark hs i = (suc i % mark_freq sum mark_power == 0) && ltb i (length hs)

  -- The records of a chain with these elements: the head is their state, a state is kept at each
  -- mark and at no other index, and each element and the index of each hash are kept.
  pub record Holds (c : Chain) (hs : List Bytes) : Type 0 where
    pub head_eq : c.head ≡ state_at hs
    pub states_eq :
        (i : ℕ) → c.states i ≡ (if is_mark hs i then some (state_at (take (suc i) hs)) else none)
    pub element_eq : (i : ℕ) → c.element i ≡ get_elem? hs i
    pub index_eq : (h : Bytes) → c.element_index h ≡ first_index h hs

-- How a remainder goes on.
pub suc-mod_cases :
    (n f : ℕ)
    → 0 < f
    → ((suc n % f ≡ 0) × (n % f + 1 ≡ f)) ⊎ ((suc n % f ≡ n % f + 1) × (n % f + 1 < f))
suc-mod_cases n f pos =
    let bound = mod-lt n pos in
    elim (mod_step (n % f) bound) [
      | inl e ↦ inl (suc-mod n f ∙ ap (λ t. t % f) e ∙ mod_self f, omega arith)
      | inr l ↦ inr (suc-mod n f ∙ mod-eq_of_lt l ∙ omega arith, omega arith)
    ]
  where
    mod_step : (r : ℕ) → r < f → (suc r ≡ f) ⊎ (suc r < f)
    mod_step r h = omega arith

pub last_mark-suc_first :
    (f n : ℕ) → 1 < f → n % f ≡ 0 → (last_mark f (suc n) ≡ n) × (suc n % f ≡ 1)
unfolding last_mark
last_mark-suc_first f n big at = elim (suc-mod_cases n f (omega arith)) [
  | inl (a, b) ↦ absurd (omega arith)
  | inr (a, b) ↦ (ground (arith, a), omega arith)
]

pub last_mark-suc : (f n : ℕ) → 1 < f → (n % f ≡ 0 → ⊥) → last_mark f (suc n) ≡ last_mark f n
unfolding last_mark
last_mark-suc f n big off = elim (suc-mod_cases n f (omega arith)) [
  | inl (a, b) ↦ ground (arith, a, b, mod-le n f)
  | inr (a, b) ↦ ground (arith, a, b, mod-le n f)
]

pub last_mark_le : (f n : ℕ) → last_mark f n ≤ n
unfolding last_mark
last_mark_le f n = ground arith
