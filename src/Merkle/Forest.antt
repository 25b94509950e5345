-- ===== src/Merkle/Forest.antt =====
-- What Pending stands for: one perfect tree for each slot that is not nil.
use accumulate.Common.{ℕ, zero, suc, ◌^◌, ◌%◌, List, [], ◌∷◌, ◌++◌, map, Option, none, some}
use accumulate.Common.{◌≡◌, refl, ap, arith, length, length-append, ◌∙◌}
use native.Mathlib.Nat.{two-pow-succ}
use mathlib.Core.List.{append-nil, append_assoc, map-append}
use accumulate.Common.Bytes.{Bytes}
use accumulate.Merkle.Hash.{Hash}
use accumulate.Merkle.State.{MerkleState, empty, pad_list, carry, add_to_merkle_tree, add_all}

pub data Tree : Type 0 where
  leaf : Bytes → Tree
  node : Tree → Tree → Tree

unfoldable pub leaves : Tree → List Bytes
leaves (leaf b) = b ∷ []
leaves (node l r) = leaves l ++ leaves r

abbrev pub IsPerfect : ℕ → Tree → Type 0
IsPerfect zero (leaf b) = Unit
IsPerfect zero (node l r) = ⊥
IsPerfect (suc n) (leaf b) = ⊥
IsPerfect (suc n) (node l r) = IsPerfect n l × IsPerfect n r

-- Slot `i` holds a perfect tree of height `i`, or none.
abbrev pub IsForest : ℕ → List (Option Tree) → Type 0
IsForest i [] = Unit
IsForest i (none ∷ f) = IsForest (suc i) f
IsForest i (some t ∷ f) = IsPerfect i t × IsForest (suc i) f

-- The leaves from the oldest on: the higher slots are older.
unfoldable pub forest_leaves : List (Option Tree) → List Bytes
forest_leaves [] = []
forest_leaves (none ∷ f) = forest_leaves f
forest_leaves (some t ∷ f) = forest_leaves f ++ leaves t

-- The carry on trees.
unfoldable pub grow : List (Option Tree) → Tree → List (Option Tree)
grow [] t = some t ∷ []
grow (none ∷ f) t = some t ∷ f
grow (some u ∷ f) t = none ∷ grow f (node u t)

pub IsForest-grow :
    (i : ℕ) (f : List (Option Tree)) (t : Tree)
    → IsForest i f
    → IsPerfect i t
    → IsForest i (grow f t)
unfolding grow
IsForest-grow i [] t h p = (p, tt)
IsForest-grow i (none ∷ f) t h p = (p, h)
IsForest-grow i (some u ∷ f) t h p = IsForest-grow (suc i) f (node u t) h.1 (h.0, p)

pub forest_leaves-grow :
    (f : List (Option Tree)) (t : Tree) → forest_leaves (grow f t) ≡ forest_leaves f ++ leaves t
unfolding grow forest_leaves leaves
forest_leaves-grow [] t = refl
forest_leaves-grow (none ∷ f) t = refl
forest_leaves-grow (some u ∷ f) t = simp (forest_leaves-grow f (node u t), append_assoc)

pub length-leaves : (i : ℕ) (t : Tree) → IsPerfect i t → length (leaves t) ≡ 2 ^ i
unfolding leaves
length-leaves zero (leaf b) h = refl
length-leaves zero (node l r) h = absurd h
length-leaves (suc n) (leaf b) h = absurd h
length-leaves (suc n) (node l r) h =
    length-append (leaves l) (leaves r)
    ∙ omega (arith, length-leaves n l h.0, length-leaves n r h.1, two-pow-succ n)

module _ (sum : Bytes → Bytes) where
  unfoldable pub root : Tree → Bytes
  root (leaf b) = b
  root (node l r) = sum (root l ++ root r)

  abbrev pub roots : List (Option Tree) → List Hash
  roots [] = []
  roots (none ∷ f) = none ∷ roots f
  roots (some t ∷ f) = some (root t) ∷ roots f

  pub roots-pad_list : (f : List (Option Tree)) → pad_list (roots f) ≡ roots (pad_list f)
  unfolding pad_list
  roots-pad_list [] = refl
  roots-pad_list (none ∷ []) = refl
  roots-pad_list (some u ∷ []) = refl
  roots-pad_list (none ∷ none ∷ f) = ap (λ ps. none ∷ ps) (roots-pad_list (none ∷ f))
  roots-pad_list (none ∷ some v ∷ f) = ap (λ ps. none ∷ ps) (roots-pad_list (some v ∷ f))
  roots-pad_list (some u ∷ none ∷ f) = ap (λ ps. some (root u) ∷ ps) (roots-pad_list (none ∷ f))
  roots-pad_list (some u ∷ some v ∷ f) = ap (λ ps. some (root u) ∷ ps) (roots-pad_list (some v ∷ f))

  -- A slot of the padded list is empty, so the carry stops there.
  pub HasRoom : List (Option Tree) → Type 0
  HasRoom [] = ⊥
  HasRoom (none ∷ f) = Unit
  HasRoom (some t ∷ f) = HasRoom f

  HasRoom-pad_list : (f : List (Option Tree)) → HasRoom (pad_list f)
  unfolding pad_list HasRoom
  HasRoom-pad_list [] = tt
  HasRoom-pad_list (none ∷ []) = tt
  HasRoom-pad_list (some u ∷ []) = tt
  HasRoom-pad_list (none ∷ q ∷ f) = tt
  HasRoom-pad_list (some u ∷ q ∷ f) = HasRoom-pad_list (q ∷ f)

  carry-roots :
      (f : List (Option Tree)) (t : Tree)
      → HasRoom f
      → carry sum (roots f) (some (root t)) ≡ roots (grow f t)
  unfolding carry grow root HasRoom
  carry-roots [] t h = absurd h
  carry-roots (none ∷ f) t h = refl
  carry-roots (some u ∷ f) t h = ap (λ ps. none ∷ ps) (carry-roots f (node u t) h)

  -- `AddToMerkleTree` on Pending is the carry on the padded forest.
  pub carry-pad_list :
      (f : List (Option Tree)) (t : Tree)
      → carry sum (pad_list (roots f)) (some (root t)) ≡ roots (grow (pad_list f) t)
  carry-pad_list f t = rw roots-pad_list (carry-roots (pad_list f) t (HasRoom-pad_list f))

pub forest_leaves-pad_list : (f : List (Option Tree)) → forest_leaves (pad_list f) ≡ forest_leaves f
unfolding pad_list forest_leaves
forest_leaves-pad_list [] = refl
forest_leaves-pad_list (none ∷ []) = refl
forest_leaves-pad_list (some u ∷ []) = refl
forest_leaves-pad_list (none ∷ q ∷ f) = forest_leaves-pad_list (q ∷ f)
forest_leaves-pad_list (some u ∷ q ∷ f) = ap (λ ls. ls ++ leaves u) (forest_leaves-pad_list (q ∷ f))

pub IsForest-pad_list : (i : ℕ) (f : List (Option Tree)) → IsForest i f → IsForest i (pad_list f)
unfolding pad_list
IsForest-pad_list i [] h = tt
IsForest-pad_list i (none ∷ []) h = tt
IsForest-pad_list i (some u ∷ []) h = (h.0, tt)
IsForest-pad_list i (none ∷ q ∷ f) h = IsForest-pad_list (suc i) (q ∷ f) h
IsForest-pad_list i (some u ∷ q ∷ f) h = (h.0, IsForest-pad_list (suc i) (q ∷ f) h.1)

-- The state after some hashes: Pending is the roots of a forest whose leaves are those hashes in
-- order, HashList is the hashes, and Count is their number as an int64.
pub record Represents (sum : Bytes → Bytes) (m : MerkleState) (hs : List Bytes) : Type 0 where
  pub forest : List (Option Tree)
  pub is_forest : IsForest 0 forest
  pub leaves_eq : forest_leaves forest ≡ hs
  pub pending_eq : m.pending ≡ roots sum forest
  pub list_eq : m.hash_list ≡ map some hs
  pub count_eq : m.count ≡ length hs % 2 ^ 64

pub Represents-empty : (sum : Bytes → Bytes) → Represents sum empty []
unfolding forest_leaves
Represents-empty sum = record {
  forest = [];
  is_forest = tt;
  leaves_eq = refl;
  pending_eq = refl;
  list_eq = refl;
  count_eq = refl;
}

module _ (sum : Bytes → Bytes) where
  -- Adding a hash to a state that represents some hashes represents one more.
  pub add_to_merkle_tree-Represents :
      (m : MerkleState) (hs : List Bytes) (h : Bytes)
      → Represents sum m hs
      → Represents sum (add_to_merkle_tree sum m (some h)) (hs ++ h ∷ [])
  unfolding add_to_merkle_tree
  add_to_merkle_tree-Represents m hs h r = record {
    forest = grow (pad_list r.forest) (leaf h);
    is_forest =
        IsForest-grow 0 (pad_list r.forest) (leaf h) (IsForest-pad_list 0 r.forest r.is_forest) tt;
    leaves_eq =
        forest_leaves-grow (pad_list r.forest) (leaf h)
        ∙ (rw forest_leaves-pad_list (rw r.leaves_eq (unfold leaves in refl)));
    pending_eq = rw r.pending_eq (unfold root in carry-pad_list sum r.forest (leaf h));
    list_eq = rw (map-append, r.list_eq) refl;
    count_eq = omega (arith, r.count_eq, length-append hs (h ∷ []));
  }

  Represents-add_all :
      (m : MerkleState) (hs ks : List Bytes)
      → Represents sum m hs
      → Represents sum (add_all sum m (map some ks)) (hs ++ ks)
  unfolding add_all
  Represents-add_all m hs [] r = rw append-nil r
  Represents-add_all m hs (k ∷ ks) r =
      let next = add_to_merkle_tree-Represents m hs k r in
      rw append_assoc at
        (Represents-add_all (add_to_merkle_tree sum m (some k)) (hs ++ k ∷ []) ks next)

  -- From the empty state, after any hashes, the state represents exactly them.
  pub add_all-Represents : (hs : List Bytes) → Represents sum (add_all sum empty (map some hs)) hs
  add_all-Represents hs = Represents-add_all empty [] hs (Represents-empty sum)
