-- ===== src/Bpt/Range/Pages.antt =====
-- `GetRange`, and the ranges that `SaveSnapshot` reads one after the other.
use mathlib.Core.List.{append_assoc}
use accumulate.Common.{
  ℕ, zero, suc, ◌-◌, ◌/◌, ◌%◌, ◌^◌, ◌<◌, ◌≡◌, ◌∙◌, ap, sym, refl, [], ◌∷◌, ◌++◌, List, none, some,
  true, false, ◌==◌, leb, if◌then◌else◌, length, take, drop, replicate, arith, length-take-drop,
  take-append-drop,
}
use accumulate.Common.Bytes.{Bytes}
use accumulate.Bpt.{Entry, nil, value, node, byte_at, goes_left}
use accumulate.Bpt.Trie.{find, count}
use accumulate.Bpt.Inserted.{IsBpt}
use accumulate.Bpt.Range.{BptValue, last_key, get_range, first_key, all_ranges}
use accumulate.Bpt.Range.Listed.{
  entries, hash_of, after_key, IsMap, place_in_map, find-children, find-entries,
  hash_of-append-absent, children-IsMap, entries-IsMap, length-entries,
}
use accumulate.Bpt.Range.Walked.{
  Starts, Starts-left, after_node, walk_range-after_key, walk_range-all,
}

byte_at-replicate : (n i b : ℕ) → i < n → byte_at (replicate n b) i ≡ b
byte_at-replicate zero i b h = absurd (omega arith)
byte_at-replicate (suc n) zero b h = refl
byte_at-replicate (suc n) (suc i) b h = byte_at-replicate n i b (omega arith)

all_bits : (m : ℕ) → m < 8 → (255 / 2 ^ (7 - m)) % 2 == 1 ≡ true
all_bits zero h = refl
all_bits (suc zero) h = refl
all_bits (suc (suc zero)) h = refl
all_bits (suc (suc (suc zero))) h = refl
all_bits (suc (suc (suc (suc zero)))) h = refl
all_bits (suc (suc (suc (suc (suc zero))))) h = refl
all_bits (suc (suc (suc (suc (suc (suc zero)))))) h = refl
all_bits (suc (suc (suc (suc (suc (suc (suc zero))))))) h = refl
all_bits (suc (suc (suc (suc (suc (suc (suc (suc m)))))))) h = absurd (omega arith)

first_key-left : (i : ℕ) → i < 256 → goes_left first_key i ≡ true
unfolding goes_left
first_key-left i h =
    rw (byte_at-replicate 32 (i / 8) 255 (omega arith)) (all_bits (i % 8) (omega arith))

-- What a range is, when these values are next.
abbrev Reads : Entry → ℕ → Bytes → List BptValue → Type 0
Reads root window place vs =
    get_range root place window ≡ (take window vs, last_key (take window vs))

Starts-Reads :
    (root : Entry) (window : ℕ) (place : Bytes) (vs : List BptValue)
    → 0 < window
    → Starts window place root vs
    → Reads root window place vs
unfolding get_range
Starts-Reads root zero place vs some_ starts = absurd (omega arith)
Starts-Reads root (suc n) place vs some_ starts = ap (λ w. (w.1, last_key w.1)) starts

get_range-after_key :
    (root : Entry) (window : ℕ) (place h : Bytes)
    → 0 < window
    → IsBpt root
    → find root place ≡ some h
    → Reads root window place (after_key place (entries root))
unfolding entries
get_range-after_key nil window place h some_ t f = absurd t
get_range-after_key (value k v) window place h some_ t f = absurd t
get_range-after_key (node n l r) window place h some_ t f =
    Starts-Reads (node n l r) window place (after_key place (entries l ++ entries r)) some_ (
      after_node window place [] n l r h some_ t f
        (walk_range-after_key window place (true ∷ []) l h some_ t.1)
        (walk_range-after_key window place (false ∷ []) r h some_ t.2))

root-entries :
    (root : Entry)
    → IsBpt root
    → IsMap (entries root) × ((k : Bytes) → find root k ≡ hash_of k (entries root))
unfolding entries
root-entries nil t = absurd t
root-entries (value k h) t = absurd t
root-entries (node n l r) t = (
  children-IsMap [] n l r t (entries-IsMap (true ∷ []) l t.1) (entries-IsMap (false ∷ []) r t.2),
  λ k.
      find-children [] n l r k t (find-entries (true ∷ []) l k t.1)
        (find-entries (false ∷ []) r k t.2),
)

get_range-first :
    (root : Entry) (window : ℕ)
    → 0 < window
    → IsBpt root
    → find root first_key ≡ none
    → Reads root window first_key (entries root)
unfolding entries
get_range-first nil window some_ t f = absurd t
get_range-first (value k v) window some_ t f = absurd t
get_range-first (node n l r) window some_ t f =
    let absent = sym ((root-entries (node n l r) t).1 first_key) ∙ f in
    let (absent_l, absent_r) = hash_of-append-absent first_key (entries l) (entries r) absent in
    Starts-Reads (node n l r) window first_key (entries l ++ entries r) some_ (
      Starts-left window first_key n l r (entries l) some_
        (first_key-left n.height (rw (t.0) (omega arith))) absent_r
        (walk_range-all window first_key (true ∷ []) l some_ first_key-left (omega arith) t.1
          absent_l))

last_split :
    (v : BptValue) (vs : List BptValue)
    → (us : List BptValue) × (k : Bytes) × (h : Bytes) × (v ∷ vs ≡ us ++ (k, h) ∷ [])
      × (last_key (v ∷ vs) ≡ k)
unfolding last_key
last_split (k, h) [] = ([], k, h, refl, refl)
last_split v (w ∷ vs) =
    let (us, k, h, split, last) = last_split w vs in (v ∷ us, k, h, ap (λ ws. v ∷ ws) split, last)

-- The values after the ones that were read.
range_after :
    (root : Entry) (window : ℕ) (us : List BptValue) (v : BptValue) (vs ws : List BptValue)
    → 0 < window
    → IsBpt root
    → entries root ≡ us ++ ((v ∷ vs) ++ ws)
    → Reads root window (last_key (v ∷ vs)) ws
range_after root window us v vs ws some_ t e =
    let (is_map, found) = root-entries root t in
    let (before, k, h, split, last) = last_split v vs in
    let place : entries root ≡ (us ++ before) ++ (k, h) ∷ ws =
      e
      ∙ ap (λ xs. us ++ (xs ++ ws)) split
      ∙ ap (λ xs. us ++ xs) (append_assoc before ((k, h) ∷ []) ws)
      ∙ sym (append_assoc us before ((k, h) ∷ ws)) in
    let (value_k, behind_k) = place_in_map k h (us ++ before) ws (rw place at is_map) in
    let reads = get_range-after_key root window k h some_ t (rw (found k, place) value_k) in
    rw last (rw (place, behind_k) at reads)

all_ranges-step :
    (rounds : ℕ) (root : Entry) (window : ℕ) (place : Bytes) (vs : List BptValue)
    → Reads root window place vs
    → all_ranges (suc rounds) root window place ≡ (
        if leb 1 (length (take window vs))
        then take window vs ++ all_ranges rounds root window (last_key (take window vs))
        else [])
unfolding all_ranges
all_ranges-step rounds root window place vs reads =
    ap (λ r. if leb 1 (length r.0) then r.0 ++ all_ranges rounds root window r.1 else []) reads

all_ranges-rest :
    (rounds : ℕ) (root : Entry) (window : ℕ) (place : Bytes) (us vs : List BptValue)
    → 0 < window
    → IsBpt root
    → length vs < rounds
    → entries root ≡ us ++ vs
    → Reads root window place vs
    → all_ranges rounds root window place ≡ vs
unfolding all_ranges
all_ranges-rest zero root window place us vs some_ t enough e reads = absurd (omega arith)
all_ranges-rest (suc rounds) root zero place us vs some_ t enough e reads = absurd (omega arith)
all_ranges-rest (suc rounds) root (suc n) place us [] some_ t enough e reads =
    all_ranges-step rounds root (suc n) place [] reads
all_ranges-rest (suc rounds) root (suc n) place us (v ∷ vs) some_ t enough e reads =
    let split = take-append-drop n vs in
    let left = length-take-drop n vs in
    let whole : entries root ≡ us ++ ((v ∷ take n vs) ++ drop n vs) = rw split e in
    let next = range_after root (suc n) us v (take n vs) (drop n vs) some_ t whole in
    let rest =
      all_ranges-rest rounds root (suc n) (last_key (v ∷ take n vs)) (us ++ (v ∷ take n vs))
        (drop n vs) some_ t (omega (arith, left, enough))
        (whole ∙ sym (append_assoc us (v ∷ take n vs) (drop n vs))) next in
    let some_read : leb 1 (length (v ∷ take n vs)) ≡ true = ground arith in
    all_ranges-step rounds root (suc n) place (v ∷ vs) reads
    ∙ rw some_read (ap (λ xs. (v ∷ take n vs) ++ xs) rest ∙ ap (λ xs. v ∷ xs) split)

-- Ranges of any positive size, read from the first key until one is empty, give each value of a
-- Patricia tree once, unless the first key itself has a value, if there are more rounds than values.
pub all_ranges-IsMap :
    (root : Entry) (rounds window : ℕ)
    → IsBpt root
    → find root first_key ≡ none
    → 0 < window
    → count root < rounds
    → IsMap (all_ranges rounds root window first_key)
      × ((k : Bytes) → hash_of k (all_ranges rounds root window first_key) ≡ find root k)
      × (length (all_ranges rounds root window first_key) ≡ count root)
all_ranges-IsMap root rounds window t absent some_ enough =
    let whole = length-entries root in
    let (is_map, found) = root-entries root t in
    let all =
      all_ranges-rest rounds root window first_key [] (entries root) some_ t
        (omega (arith, whole, enough)) refl (get_range-first root window some_ t absent) in
    rw all (is_map, (λ k. sym (found k)), whole)
