-- ===== src/Url/Pages.antt =====
-- Key page URLs: `ParseKeyPageUrl` and the parent relation.
use accumulate.Common.{ℕ, suc, ◌+◌, ◌≤◌, ◌<◌, ◌≡◌, refl, arith}
use accumulate.Common.{[], ◌∷◌, Option, none, some, true, length, Option-cases, inl, inr}
use accumulate.Common.Bytes.{Bytes}
use accumulate.Url.Text.{
  trim_suffix, split_last, split_here, parse_uint16, parse_digits, in_16_bits,
}
use accumulate.Url.Parts.{
  Url, parent_path, parent, identity, parent_of, parse_key_page_url, page_of,
}
use accumulate.Url.Order.{compare-IsPreorder, parent-shortens}

-- The lengths of the parts of a split, with the slash.
abbrev Sums : ℕ → Option (Bytes × Bytes) → Type 0
Sums n none = Unit
Sums n (some (before, after)) = n ≡ length before + 1 + length after

Sums-split_here :
    (c : ℕ) (cs : Bytes) (r : Option (Bytes × Bytes))
    → Sums (length cs) r
    → Sums (suc (length cs)) (split_here c cs r)
unfolding split_here
Sums-split_here c cs none h = ground arith
Sums-split_here c cs (some (before, after)) h = omega arith

Sums-split_last : (s : Bytes) → Sums (length s) (split_last s)
unfolding split_last
Sums-split_last [] = tt
Sums-split_last (c ∷ cs) = Sums-split_here c cs (split_last cs) (Sums-split_last cs)

in_16_bits-le : (r : Option ℕ) (n : ℕ) → in_16_bits r ≡ some n → n ≤ 65535
unfolding in_16_bits
in_16_bits-le none n h = cc
in_16_bits-le (some m) n h = ground arith

parse_uint16_range : (s : Bytes) (n : ℕ) → parse_uint16 s ≡ some n → (1 ≤ length s) × (n ≤ 65535)
unfolding parse_uint16
parse_uint16_range [] n h = cc
parse_uint16_range (c ∷ cs) n h = (omega arith, in_16_bits-le (parse_digits 0 (c ∷ cs)) n h)

page_of_parts :
    (u : Url) (r : Option (Bytes × Bytes)) (b : Url) (n k : ℕ)
    → Sums k r
    → page_of u r ≡ some (b, n)
    → (identity u ≡ b) × (2 ≤ k) × (n ≤ 65535)
unfolding page_of
page_of_parts u none b n k s h = cc
page_of_parts u (some (before, after)) b n k s h = elim (Option-cases (parse_uint16 after)) [
  | inl missing ↦ absurd (cc (rw (missing, page_of) at h))
  | inr (m, found) ↦
      (let made : ◌≡◌ {A = Option (Url × ℕ)} (some (identity u, m)) (some (b, n)) =
          rw (found, page_of) at h in
        let range = parse_uint16_range after m found in
        let index : m ≡ n = cc in (cc, omega (arith, range), omega (arith, range, index)))
]

parent_of_long : (s : Bytes) → 2 ≤ length s → (parent_path (trim_suffix s)).1 ≡ true
unfolding parent_path trim_suffix
parent_of_long [] h = absurd (omega arith)
parent_of_long (c ∷ []) h = absurd (omega arith)
parent_of_long (c ∷ d ∷ ds) h = refl

identity-parent_of : (u : Url) → 2 ≤ length u.path → parent_of (identity u) u ≡ true
unfolding parent_of identity
identity-parent_of u h = rw (parent_of_long u.path h) (compare-IsPreorder.refl_ (identity u))

-- What `ParseKeyPageUrl` takes for a page has the returned book as its parent, and an index of
-- 16 bits.
pub parse_key_page_url-parent_of :
    (u b : Url) (n : ℕ) → parse_key_page_url u ≡ some (b, n) → (parent_of b u ≡ true) × (n ≤ 65535)
unfolding parse_key_page_url
parse_key_page_url-parent_of u b n h =
    let (book, long, range) =
      page_of_parts u (split_last u.path) b n (length u.path) (Sums-split_last u.path) h in
    (rw (← book) (identity-parent_of u long), range)

-- The book's path is shorter than the page's.
pub parse_key_page_url_shortens :
    (u b : Url) (n : ℕ) → parse_key_page_url u ≡ some (b, n) → length b.path < length u.path
unfolding parse_key_page_url identity parent
parse_key_page_url_shortens u b n h =
    let (book, long, range) =
      page_of_parts u (split_last u.path) b n (length u.path) (Sums-split_last u.path) h in
    rw (← book) (parent-shortens u (parent_of_long u.path long))
