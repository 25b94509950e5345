-- ===== src/Merkle/Root.antt =====
-- `GetMDRoot` against a recursive definition of the Merkle root of a list: split at the largest
-- power of two below its length, and hash the roots of the two parts.
use accumulate.Common.{ℕ, zero, suc, ◌+◌, ◌*◌, ◌^◌, ◌≤◌, ◌<◌, List, [], ◌∷◌, ◌++◌, map}
use accumulate.Common.{Option, none, some, ◌≡◌, refl, sym, arith, length, length-append, ◌∙◌}
use accumulate.Common.{
  ltb, if◌then◌else◌, take, drop, take-append, drop-append, lt→ltb, ◌==◌, false,
}
use native.Mathlib.Nat.{two-pow-succ, one-le-pow}
use mathlib.Core.List.{append-nil, append_assoc}
use accumulate.Common.Bytes.{Bytes}
use accumulate.Merkle.Hash.{Hash, combine, sha256}
use accumulate.Merkle.State.{MerkleState, empty, fold_root, get_md_root, add_all}
use accumulate.Merkle.Forest.{
  Tree, leaf, node, leaves, IsPerfect, IsForest, forest_leaves, roots, root, length-leaves,
  Represents, add_all-Represents,
}

-- The largest power of two below `n`, doubling from `k`.
unfoldable pub split_from : ℕ → ℕ → ℕ → ℕ
split_from zero k n = k
split_from (suc fuel) k n =
    let rest = split_from fuel (2 * k) n in if ltb (2 * k) n then rest else k

module _ (sum : Bytes → Bytes) where
  unfoldable pub list_root_fuel : ℕ → List Bytes → Hash
  list_root_fuel zero hs = none
  list_root_fuel (suc fuel) [] = none
  list_root_fuel (suc fuel) (h ∷ []) = some h
  list_root_fuel (suc fuel) (h ∷ g ∷ hs) =
      let n = length (h ∷ g ∷ hs) in
      let k = split_from n 1 n in
      combine (sha256 sum) (list_root_fuel fuel (take k (h ∷ g ∷ hs)))
        (list_root_fuel fuel (drop k (h ∷ g ∷ hs)))

  -- The root of a list of hashes; nil of the empty list.
  unfoldable pub list_root : List Bytes → Hash
  unfolding list_root_fuel split_from
  list_root hs = list_root_fuel (length hs) hs

le_scale : (j k : ℕ) → k ≤ k * 2 ^ j
le_scale j k = let pos : 1 ≤ 2 ^ j = one-le-pow j 2 (omega arith) in grind arith

split_from-eq :
    (fuel j k n : ℕ)
    → 0 < k
    → k * 2 ^ j < n
    → n ≤ 2 * (k * 2 ^ j)
    → n < fuel + k
    → split_from fuel k n ≡ k * 2 ^ j
unfolding split_from
split_from-eq zero j k n p h g e = absurd (omega (arith, le_scale j k))
split_from-eq (suc fuel) zero k n p h g e = ground (arith)
split_from-eq (suc fuel) (suc j) k n p h g e =
    let double : k * 2 ^ suc j ≡ 2 * k * 2 ^ j = rw two-pow-succ (grind arith) in
    let big : 2 * k < n = omega (arith, le_scale j (2 * k), double) in
    rw (lt→ltb _ _ big, double)
      (split_from-eq fuel j (2 * k) n (omega arith) (omega (arith, double)) (omega (arith, double))
        (omega arith))

-- Each node splits at a power of two that its left part fills and its right part does not pass.
abbrev IsDag : Tree → Type 0
IsDag (leaf b) = Unit
IsDag (node l r) =
    (k : ℕ) × (length (leaves l) ≡ 2 ^ k) × (length (leaves r) ≤ 2 ^ k) × IsDag l × IsDag r

leaves_nonempty : (t : Tree) → 0 < length (leaves t)
unfolding leaves
leaves_nonempty (leaf b) = omega arith
leaves_nonempty (node l r) = omega (arith, length-append (leaves l) (leaves r), leaves_nonempty l)

IsPerfect-IsDag : (i : ℕ) (t : Tree) → IsPerfect i t → IsDag t
IsPerfect-IsDag zero (leaf b) h = tt
IsPerfect-IsDag zero (node l r) h = absurd h
IsPerfect-IsDag (suc i) (leaf b) h = absurd h
IsPerfect-IsDag (suc i) (node l r) h = (
  i,
  length-leaves i l h.0,
  omega (arith, length-leaves i r h.1),
  IsPerfect-IsDag i l h.0,
  IsPerfect-IsDag i r h.1,
)

module _ (sum : Bytes → Bytes) where
  list_root_fuel-split :
      (fuel k : ℕ) (xs ys : List Bytes)
      → length xs ≡ 2 ^ k
      → length ys ≤ 2 ^ k
      → 0 < length ys
      → list_root_fuel sum (suc fuel) (xs ++ ys)
        ≡ combine (sha256 sum) (list_root_fuel sum fuel xs) (list_root_fuel sum fuel ys)
  unfolding list_root_fuel
  list_root_fuel-split fuel k [] ys e le pos = absurd (omega (arith, one-le-pow k 2 (omega arith)))
  list_root_fuel-split fuel k (x ∷ []) [] e le pos = absurd (omega arith)
  list_root_fuel-split fuel k (x ∷ []) (y ∷ ys) e le pos =
      let n = length (x ∷ y ∷ ys) in
      let at : split_from n 1 n ≡ length (x ∷ []) =
        split_from-eq n k 1 n (omega arith) (omega arith) (omega arith) (omega arith)
        ∙ omega arith in
      rw at refl
  list_root_fuel-split fuel k (x ∷ z ∷ xs) ys e le pos =
      let n = length (x ∷ z ∷ xs ++ ys) in
      let count : n ≡ length (x ∷ z ∷ xs) + length ys = omega (arith, length-append xs ys) in
      let at : split_from n 1 n ≡ length (x ∷ z ∷ xs) =
        split_from-eq n k 1 n (omega arith) (omega (arith, count)) (omega (arith, count))
          (omega arith)
        ∙ omega arith in
      rw (at, take-append (length xs) xs ys refl, drop-append (length xs) xs ys refl) refl

  list_root_fuel-IsDag :
      (fuel : ℕ) (t : Tree)
      → IsDag t
      → length (leaves t) ≤ fuel
      → list_root_fuel sum fuel (leaves t) ≡ some (root sum t)
  unfolding leaves root
  list_root_fuel-IsDag zero t d h = absurd (omega (arith, leaves_nonempty t))
  list_root_fuel-IsDag (suc fuel) (leaf b) d h = unfold list_root_fuel in refl
  list_root_fuel-IsDag (suc fuel) (node l r) (k, full, fits, dl, dr) h =
      let count : length (leaves l ++ leaves r) ≡ length (leaves l) + length (leaves r) =
        length-append (leaves l) (leaves r) in
      rw
        (
          list_root_fuel-split fuel k (leaves l) (leaves r) full fits (leaves_nonempty r),
          list_root_fuel-IsDag fuel l dl (omega (arith, leaves_nonempty r, count)),
          list_root_fuel-IsDag fuel r dr (omega (arith, leaves_nonempty l, count)),
        )
        refl

-- The loop of `GetMDRoot` on trees.
join : List (Option Tree) → Option Tree → Option Tree
join [] acc = acc
join (v ∷ f) none = join f v
join (none ∷ f) (some t) = join f (some t)
join (some u ∷ f) (some t) = join f (some (node u t))

module _ (sum : Bytes → Bytes) where
  abbrev hash_of : Option Tree → Hash
  hash_of none = none
  hash_of (some t) = some (root sum t)

  fold_root-roots :
      (f : List (Option Tree)) (acc : Option Tree)
      → fold_root sum (roots sum f) (hash_of acc) ≡ hash_of (join f acc)
  unfolding fold_root join root
  fold_root-roots [] acc = refl
  fold_root-roots (none ∷ f) none = fold_root-roots f none
  fold_root-roots (some u ∷ f) none = fold_root-roots f (some u)
  fold_root-roots (none ∷ f) (some t) = fold_root-roots f (some t)
  fold_root-roots (some u ∷ f) (some t) = fold_root-roots f (some (node u t))

-- What the loop has gathered when it reaches slot `i`.
abbrev Gathered : ℕ → Option Tree → Type 0
Gathered i none = Unit
Gathered i (some t) = IsDag t × (length (leaves t) ≤ 2 ^ i)

abbrev acc_leaves : Option Tree → List Bytes
acc_leaves none = []
acc_leaves (some t) = leaves t

IsJoined : List Bytes → Option Tree → Type 0
IsJoined hs none = hs ≡ []
IsJoined hs (some t) = IsDag t × (leaves t ≡ hs)

join-IsJoined :
    (i : ℕ) (f : List (Option Tree)) (acc : Option Tree)
    → IsForest i f
    → Gathered i acc
    → IsJoined (forest_leaves f ++ acc_leaves acc) (join f acc)
unfolding join forest_leaves leaves IsJoined
join-IsJoined i [] none h g = refl
join-IsJoined i [] (some t) h g = (g.0, refl)
join-IsJoined i (none ∷ f) none h g = join-IsJoined (suc i) f none h tt
join-IsJoined i (none ∷ f) (some t) h g =
    join-IsJoined (suc i) f (some t) h (g.0, omega (arith, two-pow-succ i))
join-IsJoined i (some u ∷ f) none h g = rw append-nil (
    join-IsJoined (suc i) f (some u) h.1
      (IsPerfect-IsDag i u h.0, omega (arith, two-pow-succ i, length-leaves i u h.0)))
join-IsJoined i (some u ∷ f) (some t) h g = rw append_assoc (
    join-IsJoined (suc i) f (some (node u t)) h.1 (
      (i, length-leaves i u h.0, g.1, IsPerfect-IsDag i u h.0, g.0),
      omega (arith, two-pow-succ i, length-leaves i u h.0, length-append (leaves u) (leaves t)),
    ))

module _ (sum : Bytes → Bytes) where
  list_root-IsJoined :
      (hs : List Bytes) (t : Option Tree) → IsJoined hs t → list_root sum hs ≡ hash_of sum t
  unfolding IsJoined list_root
  list_root-IsJoined hs none h = rw h refl
  list_root-IsJoined hs (some t) (d, e) =
      rw (← e) (list_root_fuel-IsDag sum (length (leaves t)) t d (omega arith))

  pub get_md_root-Represents :
      (m : MerkleState) (hs : List Bytes)
      → Represents sum m hs
      → length hs < 2 ^ 64
      → get_md_root sum m ≡ list_root sum hs
  unfolding get_md_root list_root list_root_fuel
  get_md_root-Represents m [] r bound = let e : m.count ≡ 0 = omega (arith, r.count_eq) in rw e refl
  get_md_root-Represents m (h ∷ hs) r bound =
      let full : (m.count == 0) ≡ false = ground (arith, r.count_eq) in
      let joined = join-IsJoined 0 r.forest none r.is_forest tt in
      rw (full, r.pending_eq, fold_root-roots sum r.forest none)
        (sym (
          list_root-IsJoined (h ∷ hs) (join r.forest none)
            (rw (append-nil, r.leaves_eq) at joined)))

  -- The root that `GetMDRoot` returns after adding fewer than 2^64 hashes to an empty state is
  -- the recursively defined root of the list of those hashes, nil where there are none.
  pub get_md_root-add_all :
      (hs : List Bytes)
      → length hs < 2 ^ 64
      → get_md_root sum (add_all sum empty (map some hs)) ≡ list_root sum hs
  get_md_root-add_all hs bound =
      get_md_root-Represents (add_all sum empty (map some hs)) hs (add_all-Represents sum hs) bound
