-- ===== src/Protocol/Auth/Laws.antt =====
-- The authorities of an account are a finite set of URLs.
use accumulate.Common.{List, [], ◌∷◌, none, some, Bool, true, false, ◌≡◌, refl}
use accumulate.Common.{arith, ◌∙◌, sym, ◌↔◌, ◌||◌, ◌&&◌, not, Bool-cases, inl, inr}
use mathlib.Core.Path.{ap₂}
use accumulate.Sorted.Search.{search, is_same, binary_insert}
use accumulate.Sorted.Keys.{
  IsSorted, Before, seek, has, search-has, cases, is_negative, is_zero, is_positive,
}
use accumulate.Sorted.Sets.{insert_entry, insert_entry-old, insert_entry-new, has_respects}
use accumulate.Sorted.Removal.{delete_at, delete_at-search}
use accumulate.Url.Parts.{Url, compare, equal}
use accumulate.Url.Order.{compare-IsPreorder, equal_iff}
use accumulate.Protocol.Accounts.{AccountAuth, AuthorityEntry}
use accumulate.Protocol.Auth.{get_authority, add_authority, remove_authority, fresh, by_url}

abbrev url_of : AuthorityEntry → Url
url_of e = e.url

-- No two authorities are equal, and they stand in order.
abbrev pub IsOrdered : AccountAuth → Type 0
IsOrdered a = IsSorted (Before compare-IsPreorder url_of) a.authorities

-- Whether an entry has an equal URL, by a scan of all of them.
unfoldable pub lists_url : List AuthorityEntry → Url → Bool
lists_url [] u = false
lists_url (e ∷ es) u = equal e.url u || lists_url es u

abbrev pub has_authority : AccountAuth → Url → Bool
has_authority a u = lists_url a.authorities u

is_same-equal : (e u : Url) → is_same (some e) (λ x. compare x u) ≡ equal e u
unfolding is_same
is_same-equal e u = elim (Bool-cases (equal e u)) [
  | inl h ↦ ground (arith, h, (compare-IsPreorder.same_iff e u).1 h)
  | inr h ↦ elim (cases (compare e u)) [
    | is_negative c ↦ ground (arith, c, h)
    | is_positive c ↦ ground (arith, c, h)
    | is_zero c ↦ absurd (cc (h, (compare-IsPreorder.same_iff e u).0 c))
  ]
]

has-lists_url :
    (l : List AuthorityEntry) (u : Url) → has (seek compare-IsPreorder url_of u) l ≡ lists_url l u
unfolding has lists_url is_same
has-lists_url [] u = refl
has-lists_url (e ∷ es) u = ap₂ ◌||◌ (is_same-equal e.url u) (has-lists_url es u)

-- An equal URL is listed too.
lists_url-equal :
    (l : List AuthorityEntry) (u v : Url)
    → equal u v ≡ true
    → lists_url l u ≡ true
    → lists_url l v ≡ true
lists_url-equal l u v e h =
    sym (has-lists_url l v)
    ∙ sym (has_respects compare-IsPreorder url_of v u l ((compare-IsPreorder.same_iff u v).1 e))
    ∙ has-lists_url l u
    ∙ h

-- `GetAuthority` finds an entry of an ordered account exactly where one has an equal URL.
pub get_authority-has_authority :
    (a : AccountAuth) (u : Url)
    → IsOrdered a
    → (get_authority a u ≡ none) ↔ (has_authority a u ≡ false)
unfolding get_authority
get_authority-has_authority a u s =
    let found =
      search-has compare-IsPreorder url_of u a.authorities s ∙ has-lists_url a.authorities u in
    ((λ h. ground (arith, found)), (λ h. ground (arith, found)))

abbrev inserted : AccountAuth → Url → List AuthorityEntry × Bool
inserted a u = insert_entry (fresh u) a.authorities (by_url u)

add_authority-inserted :
    (a : AccountAuth) (u : Url)
    → add_authority a u ≡ (record { authorities = (inserted a u).0 }, (inserted a u).1)
unfolding add_authority
add_authority-inserted a u =
    elim (Bool-cases (binary_insert (fresh u) a.authorities (by_url u)).2) [
      | inl h ↦ rw h refl
      | inr h ↦ rw h refl
    ]

-- What adding must do to the set of URLs.
abbrev pub Adds : AccountAuth → Url → AccountAuth × Bool → Type 0
Adds a u (b, added) =
    IsOrdered b
    × (added ≡ not (has_authority a u))
    × ((v : Url) → has_authority b v ≡ (equal u v || has_authority a v))

Adds-old :
    (a : AccountAuth) (u : Url) → IsOrdered a → has_authority a u ≡ true → Adds a u (a, false)
Adds-old a u s h = (
  s,
  ground (arith, h),
  λ v. elim (Bool-cases (equal u v)) [
    | inl e ↦ rw e (lists_url-equal a.authorities u v e h)
    | inr e ↦ rw e refl
  ],
)

Adds-new :
    (a : AccountAuth) (u : Url)
    → IsOrdered a
    → has_authority a u ≡ false
    → Adds a u (record { authorities = (inserted a u).0 }, (inserted a u).1)
Adds-new a u s h =
    let (added, ordered, holds) =
      insert_entry-new compare-IsPreorder url_of (fresh u) a.authorities s
        (has-lists_url a.authorities u ∙ h) in
    (
      ordered,
      added ∙ ground (arith, h),
      λ v.
          sym (has-lists_url (inserted a u).0 v)
          ∙ holds v
          ∙ ap₂ ◌||◌ (is_same_url v) (has-lists_url a.authorities v),
    )
  where
    is_same_url :
        (v : Url) → is_same (some (fresh u)) (seek compare-IsPreorder url_of v) ≡ equal u v
    is_same_url v = unfold is_same in is_same-equal u v

-- Adding keeps the order, reports whether the URL was not there, and adds that URL and no other.
pub add_authority-set : (a : AccountAuth) (u : Url) → IsOrdered a → Adds a u (add_authority a u)
add_authority-set a u s = rw add_authority-inserted (elim (Bool-cases (has_authority a u)) [
  | inl h ↦
      (let same_ =
          insert_entry-old compare-IsPreorder url_of (fresh u) a.authorities s
            (has-lists_url a.authorities u ∙ h) in
        rw same_ (Adds-old a u s h))
  | inr h ↦ Adds-new a u s h
])

abbrev pub Removes : AccountAuth → Url → AccountAuth × Bool → Type 0
Removes a u (b, removed) =
    IsOrdered b
    × (removed ≡ has_authority a u)
    × ((v : Url) → has_authority b v ≡ (not (equal u v) && has_authority a v))

Removes-old :
    (a : AccountAuth) (u : Url)
    → IsOrdered a
    → has_authority a u ≡ true
    → Removes a u
        (record { authorities = delete_at a.authorities (search a.authorities (by_url u)).0 }, true)
Removes-old a u s h =
    let (ordered, holds) =
      delete_at-search compare-IsPreorder url_of u a.authorities s
        (has-lists_url a.authorities u ∙ h) in
    (
      ordered,
      sym h,
      λ v.
          sym (has-lists_url (delete_at a.authorities (search a.authorities (by_url u)).0) v)
          ∙ holds v
          ∙ ap₂ (λ b c. not b && c) (is_same-equal u v) (has-lists_url a.authorities v),
    )

Removes-new :
    (a : AccountAuth) (u : Url) → IsOrdered a → has_authority a u ≡ false → Removes a u (a, false)
Removes-new a u s h = (
  s,
  sym h,
  λ v. elim (Bool-cases (equal u v)) [
    | inr e ↦ rw e refl
    | inl e ↦ elim (Bool-cases (has_authority a v)) [
      | inr g ↦ rw (e, g) refl
      | inl g ↦ absurd (cc (h, lists_url-equal a.authorities v u (equal_symm u v e) g))
    ]
  ],
)
  where
    equal_symm : (u v : Url) → equal u v ≡ true → equal v u ≡ true
    equal_symm u v e = (equal_iff v u).1 (sym ((equal_iff u v).0 e))

-- Removing keeps the order, reports whether the URL was there, and removes that URL and no other.
pub remove_authority-set :
    (a : AccountAuth) (u : Url) → IsOrdered a → Removes a u (remove_authority a u)
unfolding remove_authority
remove_authority-set a u s =
    let found =
      search-has compare-IsPreorder url_of u a.authorities s ∙ has-lists_url a.authorities u in
    elim (Bool-cases (has_authority a u)) [
      | inl h ↦ rw (found ∙ h) (Removes-old a u s h)
      | inr h ↦ rw (found ∙ h) (Removes-new a u s h)
    ]
