-- ===== src/Bpt/Range.antt =====
-- smt/pmt/bpt_getrange.go: `GetRange` and `WalkRange` on a tree whose nodes are all loaded, with
-- heights below 256. The state is the flag `found` and the values.
pub mod Listed
pub mod Walked
pub mod Pages
use accumulate.Common.{
  ℕ, zero, suc, [], ◌∷◌, ◌++◌, List, Bool, true, false, ◌||◌, leb, if◌then◌else◌, length, replicate,
}
use accumulate.Common.Bytes.{Bytes, equal_bytes}
use accumulate.Bpt.{Entry, nil, value, node, zeros, goes_left}

-- A Value: its key and its hash.
abbrev pub BptValue : Type 0
BptValue = Bytes × Bytes

abbrev pub Walk : Type 0
Walk = Bool × List BptValue

-- `if len(values) >= count` in front of a step.
unfoldable pub unless_done : ℕ → (Walk → Walk) → Walk → Walk
unless_done count step s = if leb count (length s.1) then s else step s

-- `do` of an entry, which is `WalkRange` of a node.
unfoldable pub walk_range : ℕ → Bytes → Entry → Walk → Walk
unfolding unless_done goes_left
walk_range count key nil s = (true, s.1)
walk_range count key (value k h) s = (true, if equal_bytes key k then s.1 else s.1 ++ (k, h) ∷ [])
walk_range count key (node n l r) s =
    unless_done count
      (λ s'.
        unless_done count (walk_range count key r)
          (if s'.0 || goes_left key n.height then walk_range count key l s' else s'))
      s

unfoldable pub last_key : List BptValue → Bytes
last_key [] = zeros
last_key ((k, h) ∷ []) = k
last_key (v ∷ w ∷ vs) = last_key (w ∷ vs)

-- `GetRange`: the values, and the key of the last.
unfoldable pub get_range : Entry → Bytes → ℕ → List BptValue × Bytes
unfolding walk_range last_key
get_range root start_key zero = ([], zeros)
get_range root start_key (suc n) =
    let values = (walk_range (suc n) start_key root (false, [])).1 in (values, last_key values)

-- `FirstPossibleBptKey`
abbrev pub first_key : Bytes
first_key = replicate 32 255

-- The loop of `SaveSnapshot` that reads all values, with a number of rounds.
unfoldable pub all_ranges : ℕ → Entry → ℕ → Bytes → List BptValue
unfolding get_range
all_ranges zero root window place = []
all_ranges (suc rounds) root window place =
    let (values, next) = get_range root place window in
    if leb 1 (length values) then values ++ all_ranges rounds root window next else []
