-- ===== src/Merkle/Tests.antt =====
-- Runs of the Merkle theorems on small inputs, with a toy digest of 32 equal bytes.
use accumulate.Common.{ℕ, ◌+◌, ◌*◌, ◌%◌, ◌≡◌, refl, List, [], ◌∷◌, ◌++◌, map, none, some, true}
use accumulate.Common.{arith, replicate, ◌⊎◌}
use accumulate.Common.Outcome.{ok}
use accumulate.Common.Bytes.{Bytes, equal_bytes}
use accumulate.Merkle.State.{empty, add_all, add_to_merkle_tree, get_md_root, trim_list}
use accumulate.Merkle.Forest.{
  leaf, leaves, node, root, Represents, Represents-empty, add_to_merkle_tree-Represents,
}
use accumulate.Merkle.Root.{list_root, get_md_root-add_all}
use accumulate.Merkle.Binding.{Collision, get_md_root_binds}
use accumulate.Merkle.Cascade.{merkle_cascade, merkle_cascade-add_all}
use accumulate.Merkle.Receipt.{Receipt, validate, contains, combine_receipts}
use accumulate.Merkle.Receipt.Combine.{combine_receipts-validate}
use accumulate.Merkle.Receipt.Contains.{PassesThrough, contains-PassesThrough}
use accumulate.Merkle.Receipt.Soundness.{Proven, validate-Proven}

abbrev add_bytes : Bytes → ℕ
add_bytes [] = 7
add_bytes (b ∷ bs) = (b + 3 * add_bytes bs) % 256

-- Every output has 32 bytes.
abbrev toy : Bytes → Bytes
toy b = replicate 32 (add_bytes b)

abbrev a : Bytes
a = replicate 32 1

abbrev b : Bytes
b = replicate 32 2

abbrev c : Bytes
c = replicate 32 3

abbrev three : List Bytes
three = a ∷ b ∷ c ∷ []

runs_pending :
    (add_all toy empty (map some three)).pending ≡ some c ∷ some (toy (a ++ b)) ∷ none ∷ []
unfolding add_all add_to_merkle_tree
runs_pending = refl

runs_root : get_md_root toy (add_all toy empty (map some three)) ≡ some (toy (toy (a ++ b) ++ c))
unfolding add_all add_to_merkle_tree get_md_root
runs_root = refl

add_to_merkle_tree-Represents_example :
    Represents toy (add_to_merkle_tree toy empty (some a)) ([] ++ a ∷ [])
add_to_merkle_tree-Represents_example =
    add_to_merkle_tree-Represents toy empty [] a (Represents-empty toy)

get_md_root-add_all_example :
    get_md_root toy (add_all toy empty (map some three)) ≡ list_root toy three
get_md_root-add_all_example = get_md_root-add_all toy three (omega arith)

get_md_root_binds_example : (three ≡ three) ⊎ Collision toy
get_md_root_binds_example =
    get_md_root_binds toy (λ x. refl) three three refl (omega arith) (refl, (refl, (refl, tt)))
      (refl, (refl, (refl, tt))) refl

merkle_cascade-add_all_example :
    merkle_cascade toy (trim_list empty.pending) (map some three) none
    ≡ trim_list (add_all toy empty (map some three)).pending
merkle_cascade-add_all_example = merkle_cascade-add_all toy empty three

-- The proof of `a` in the tree of `a` and `b`, and of that root in a tree that adds `c`.
abbrev lower : Receipt
lower = record {
  start = some a;
  start_index = 0;
  end = some b;
  end_index = 1;
  anchor = some (toy (a ++ b));
  entries = record { right = true; hash = some b } ∷ [];
}

abbrev upper : Receipt
upper = record {
  start = some (toy (a ++ b));
  start_index = 0;
  end = some c;
  end_index = 1;
  anchor = some (toy (toy (a ++ b) ++ c));
  entries = record { right = true; hash = some c } ∷ [];
}

abbrev whole : Receipt
whole = record lower {
  anchor = some (toy (toy (a ++ b) ++ c));
  entries = record { right = true; hash = some b } ∷ record { right = true; hash = some c } ∷ [];
}

lower_valid : validate toy lower ≡ true
unfolding validate equal_bytes
lower_valid = refl

upper_valid : validate toy upper ≡ true
unfolding validate equal_bytes
upper_valid = refl

whole_combined : combine_receipts (lower ∷ upper ∷ []) ≡ ok whole
unfolding combine_receipts equal_bytes
whole_combined = refl

whole-contains : contains toy whole upper ≡ true
unfolding contains equal_bytes
whole-contains = refl

combine_receipts-validate_example : (validate toy whole ≡ true) × (whole.start ≡ lower.start)
combine_receipts-validate_example =
    combine_receipts-validate toy lower (upper ∷ []) whole (lower_valid, (upper_valid, tt))
      whole_combined

contains-PassesThrough_example : PassesThrough toy whole upper
contains-PassesThrough_example = contains-PassesThrough toy whole upper whole-contains

lower_root : toy (a ++ b) ≡ root toy (node (leaf a) (leaf b))
unfolding root
lower_root = refl

validate-Proven_example : Proven toy (λ x. refl) a (node (leaf a) (leaf b))
validate-Proven_example =
    validate-Proven toy (λ x. refl) lower (node (leaf a) (leaf b)) lower_valid lower_root refl
      (refl, tt) (unfold leaves in (refl, (refl, tt)))
