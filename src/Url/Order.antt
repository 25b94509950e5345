-- ===== src/Url/Order.antt =====
-- Comparison, equality and the parent relation of URLs.
use accumulate.Common.{ℕ, zero, suc, ◌≤◌, ◌<◌, ◌≡◌, ◌≢◌, refl, ap, arith, ◌∙◌, sym, ◌↔◌}
use accumulate.Common.{[], ◌∷◌, Option, none, some, Bool, true, false, length, Bool-cases}
use accumulate.Common.{le→leb, leb→le, inl, inr, leb, ◌==◌, if◌then◌else◌}
use accumulate.Common.Bytes.{
  Bytes, equal_bytes, equal_bytes→eq, equal_bytes_refl, compare_bytes-IsOrder,
}
use accumulate.Common.Compare.{IsPreorder}
use accumulate.Url.Text.{lower, lower_byte, equal_fold, trim_suffix, split_last, split_here}
use accumulate.Url.Parts.{
  Url, to_string, compare, equal, parent, parent_path, before_last, local_to, root_identity,
  prefix_loop, prefix_of,
}

-- EqualFold is equality of the lower cases.
equal_fold-lower : (s t : Bytes) → equal_fold s t ≡ equal_bytes (lower s) (lower t)
unfolding equal_fold lower equal_bytes
equal_fold-lower [] [] = refl
equal_fold-lower [] (d ∷ ds) = refl
equal_fold-lower (c ∷ cs) [] = refl
equal_fold-lower (c ∷ cs) (d ∷ ds) =
    ap (λ b. if lower_byte c == lower_byte d then b else false) (equal_fold-lower cs ds)

equal-equal_bytes :
    (u v : Url) → equal u v ≡ equal_bytes (lower (to_string u)) (lower (to_string v))
unfolding equal
equal-equal_bytes u v = equal_fold-lower (to_string u) (to_string v)

-- The text that URLs are compared by.
pub key : Url → Bytes
key u = lower (to_string u)

pub equal_iff : (u v : Url) → (equal u v ≡ true) ↔ (key u ≡ key v)
unfolding key
equal_iff u v = (
  λ e. equal_bytes→eq (lower (to_string u)) (lower (to_string v)) (sym (equal-equal_bytes u v) ∙ e),
  λ e. equal-equal_bytes u v ∙ rw e (equal_bytes_refl (lower (to_string v))),
)

-- `Compare` is a total order of URLs up to `Equal`, and returns 0 exactly where `Equal` holds.
pub compare-IsPreorder : IsPreorder compare equal
unfolding compare key
compare-IsPreorder = record {
  same_iff = λ a b. (
    λ e. (equal_iff a b).1 (compare_bytes-IsOrder.same→eq _ _ e),
    λ e. rw ((equal_iff a b).0 e) (compare_bytes-IsOrder.same_refl (lower (to_string b))),
  );
  refl_ = λ a. (equal_iff a a).1 refl;
  flips = λ a b. compare_bytes-IsOrder.flips (lower (to_string a)) (lower (to_string b));
  trans = λ a b c.
      compare_bytes-IsOrder.trans (lower (to_string a)) (lower (to_string b)) (lower (to_string c));
  respects = λ a b c e. rw ((equal_iff a b).0 e) refl;
}

-- `LocalTo` is reflexive, symmetric and transitive.
pub local_to-IsEquivalence :
    ((u : Url) → local_to u u ≡ true)
    × ((u v : Url) → local_to u v ≡ true → local_to v u ≡ true)
    × ((u v w : Url) → local_to u v ≡ true → local_to v w ≡ true → local_to u w ≡ true)
unfolding local_to
local_to-IsEquivalence = (
  λ u. compare-IsPreorder.refl_ (root_identity u),
  λ u v h.
      (equal_iff (root_identity v) (root_identity u)).1
        (sym ((equal_iff (root_identity u) (root_identity v)).0 h)),
  λ u v w h k. (equal_iff (root_identity u) (root_identity w)).1 (
      (equal_iff (root_identity u) (root_identity v)).0 h
      ∙ (equal_iff (root_identity v) (root_identity w)).0 k),
)

length-trim_suffix : (s : Bytes) → length (trim_suffix s) ≤ length s
unfolding trim_suffix
length-trim_suffix [] = omega arith
length-trim_suffix (c ∷ []) = ground arith
length-trim_suffix (c ∷ d ∷ ds) = omega (arith, length-trim_suffix (d ∷ ds))

split_here_shortens :
    (c n : ℕ) (cs : Bytes) (r : Option (Bytes × Bytes))
    → length (before_last r) ≤ n
    → length (before_last (split_here c cs r)) ≤ suc n
unfolding split_here before_last
split_here_shortens c n cs none h = ground arith
split_here_shortens c n cs (some (b, a)) h = omega arith

split_last_shortens : (c : ℕ) (cs : Bytes) → length (before_last (split_last (c ∷ cs))) ≤ length cs
unfolding split_last
split_last_shortens c [] = unfold before_last split_here in ground arith
split_last_shortens c (d ∷ ds) =
    split_here_shortens c (length ds) (d ∷ ds) (split_last (d ∷ ds)) (split_last_shortens d ds)

parent_path_shortens : (s : Bytes) → (parent_path s).1 ≡ true → length (parent_path s).0 < length s
unfolding parent_path
parent_path_shortens [] h = cc
parent_path_shortens (c ∷ cs) h = omega (arith, split_last_shortens c cs)

pub parent-shortens : (v : Url) → (parent v).1 ≡ true → length (parent v).0.path < length v.path
unfolding parent
parent-shortens v h =
    omega (arith, parent_path_shortens (trim_suffix v.path) h, length-trim_suffix v.path)

-- `u` is the parent of `v`, or of one of its parents, up to `Equal`.
pub data Ancestor (u : Url) : Url → Type 0 where
  direct : {v : Url} → (parent v).1 ≡ true → equal u (parent v).0 ≡ true → Ancestor u v
  above : {v : Url} → (parent v).1 ≡ true → Ancestor u (parent v).0 → Ancestor u v

-- What the answer of the loop must be.
abbrev pub Decides : Url → Url → Option Bool → Type 0
Decides u v none = ⊥
Decides u v (some true) = Ancestor u v
Decides u v (some false) = ¬ Ancestor u v

not_ancestor_of_root : (u v : Url) → (parent v).1 ≡ false → ¬ Ancestor u v
not_ancestor_of_root u v root (direct found e) = cc
not_ancestor_of_root u v root (above found a) = cc

not_ancestor_above :
    (u v : Url) → equal u (parent v).0 ≡ false → ¬ Ancestor u (parent v).0 → ¬ Ancestor u v
not_ancestor_above u v other no_ (direct found e) = cc
not_ancestor_above u v other no_ (above found a) = no_ a

Decides-parent :
    (u v : Url) (r : Option Bool)
    → (parent v).1 ≡ true
    → equal u (parent v).0 ≡ false
    → Decides u (parent v).0 r
    → Decides u v r
Decides-parent u v none found other d = d
Decides-parent u v (some true) found other d = above found d
Decides-parent u v (some false) found other d = not_ancestor_above u v other d

prefix_loop-Decides :
    (fuel : ℕ) (u v : Url) → length v.path < fuel → Decides u v (prefix_loop fuel u v)
unfolding prefix_loop
prefix_loop-Decides zero u v h = absurd (omega arith)
prefix_loop-Decides (suc fuel) u v h =
    let later = prefix_loop-Decides fuel u (parent v).0 in
    elim (Bool-cases (parent v).1) [
      | inr root ↦ rw root (not_ancestor_of_root u v root)
      | inl found ↦ elim (Bool-cases (equal u (parent v).0)) [
        | inl same_ ↦ rw (found, same_) (direct found same_)
        | inr other ↦
            rw (found, other)
              (Decides-parent u v (prefix_loop fuel u (parent v).0) found other
                (later (omega (arith, parent-shortens v found))))
      ]
    ]

prefix_of-guards :
    (u v : Url)
    → equal_bytes (lower u.authority) (lower v.authority) ≡ true
    → length u.path ≤ length v.path
    → Decides u v (prefix_of u v)
unfolding prefix_of
prefix_of-guards u v a l =
    rw (equal_fold-lower u.authority v.authority, a, le→leb _ _ l)
      (prefix_loop-Decides (suc (length v.path)) u v (omega arith))

Decides-ne-none : (u v : Url) (r : Option Bool) → Decides u v r → r ≢ none
Decides-ne-none u v none d h = d
Decides-ne-none u v (some b) d h = cc

prefix_of-ne-none : (u v : Url) → prefix_of u v ≢ none
unfolding prefix_of
prefix_of-ne-none u v h = elim (Bool-cases (equal_bytes (lower u.authority) (lower v.authority))) [
  | inr a ↦ cc (rw (prefix_of, equal_fold-lower u.authority v.authority, a) at h)
  | inl a ↦ elim (Bool-cases (leb (length u.path) (length v.path))) [
    | inr l ↦ cc (rw (prefix_of, equal_fold-lower u.authority v.authority, a, l) at h)
    | inl l ↦ Decides-ne-none u v (prefix_of u v) (prefix_of-guards u v a (leb→le _ _ l)) h
  ]
]

-- `PrefixOf` always ends, and for URLs of equal authorities, where the first path is no longer
-- than the second, it returns true exactly of the parents of a URL, at any distance.
pub prefix_of-Decides :
    (u v : Url)
    → (prefix_of u v ≢ none)
      × (equal_bytes (lower u.authority) (lower v.authority) ≡ true
          → length u.path ≤ length v.path
          → Decides u v (prefix_of u v))
prefix_of-Decides u v = (prefix_of-ne-none u v, λ a l. prefix_of-guards u v a l)
