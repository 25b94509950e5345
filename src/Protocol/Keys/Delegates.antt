-- ===== src/Protocol/Keys/Delegates.antt =====
-- `EntryByDelegate`: its calls of itself end at a URL that is no page's, and it finds the first entry
-- with that delegate.
use accumulate.Common.{ℕ, zero, suc, ◌+◌, ◌≤◌, ◌≡◌, refl, arith, inl, inr}
use accumulate.Common.{[], ◌∷◌, List, Option, none, some, true, false, length, Option-cases}
use accumulate.Common.{All, get_elem?, take, Bool-cases}
use accumulate.Url.Parts.{Url, parse_key_page_url, equal?}
use accumulate.Url.Pages.{parse_key_page_url_shortens}
use accumulate.Protocol.Keys.{KeySpec, KeyPage, book_loop, delegate_loop, entry_by_delegate}

-- The way from a URL to the book of the page that it names, to the book that this may be a page of, and so
-- on, up to a URL that is no page's.
pub data LeadsTo : Url → Url → Type 0 where
  no_page : (u : Url) → parse_key_page_url u ≡ none → LeadsTo u u
  page_of_book :
      (u book end : Url) (index : ℕ)
      → parse_key_page_url u ≡ some (book, index)
      → LeadsTo book end
      → LeadsTo u end

book_loop-LeadsTo : (fuel : ℕ) (u : Url) → length u.path ≤ fuel → LeadsTo u (book_loop fuel u)
unfolding book_loop
book_loop-LeadsTo zero u h = elim (Option-cases (parse_key_page_url u)) [
  | inl e ↦ no_page u e
  | inr ((b, n), e) ↦ absurd (omega (arith, parse_key_page_url_shortens u b n e))
]
book_loop-LeadsTo (suc fuel) u h = elim (Option-cases (parse_key_page_url u)) [
  | inl e ↦ rw (e, book_loop) (no_page u e)
  | inr ((b, n), e) ↦
      let rest = book_loop-LeadsTo fuel b (omega (arith, parse_key_page_url_shortens u b n e)) in
      rw (e, book_loop) (page_of_book u b (book_loop fuel b) n e rest)
]

abbrev pub Without : Url → List KeySpec → Type 0
Without u keys = All (λ k. equal? (some u) k.delegate ≡ false) keys

-- What the loop answers, from the index `i` on.
abbrev pub FirstFrom : List KeySpec → ℕ → Url → Option ℕ → Type 0
FirstFrom keys i u none = Without u keys
FirstFrom keys i u (some j) =
    (m : ℕ) × (e : KeySpec) × (j ≡ i + m)
    × (get_elem? keys m ≡ some e)
    × (equal? (some u) e.delegate ≡ true)
    × Without u (take m keys)

FirstFrom-step :
    (k : KeySpec) (ks : List KeySpec) (i : ℕ) (u : Url) (r : Option ℕ)
    → equal? (some u) k.delegate ≡ false
    → FirstFrom ks (suc i) u r
    → FirstFrom (k ∷ ks) i u r
FirstFrom-step k ks i u none d f = (d, f)
FirstFrom-step k ks i u (some j) d (m, e, at_j, here, same_, before) =
    (suc m, e, omega (arith, at_j), here, same_, (d, before))

delegate_loop-FirstFrom :
    (keys : List KeySpec) (i : ℕ) (u : Url) → FirstFrom keys i u (delegate_loop keys i u)
unfolding delegate_loop
delegate_loop-FirstFrom [] i u = tt
delegate_loop-FirstFrom (k ∷ ks) i u = elim (Bool-cases (equal? (some u) k.delegate)) [
  | inl e ↦ rw (e, delegate_loop) (0, k, omega arith, refl, e, tt)
  | inr e ↦
      rw (e, delegate_loop)
        (FirstFrom-step k ks i u (delegate_loop ks (suc i) u) e
          (delegate_loop-FirstFrom ks (suc i) u))
]

-- What `EntryByDelegate` must answer: for the URL that the owner's leads to, the first entry with that
-- delegate.
abbrev pub FirstDelegate : KeyPage → Url → Option ℕ → Type 0
FirstDelegate p owner r = (book : Url) × LeadsTo owner book × FirstFrom p.keys 0 book r

-- `EntryByDelegate` goes from the owner, as long as that is the URL of a page, to the page's book, which
-- ends, and finds the first entry with the delegate that it comes to, if there is one.
pub entry_by_delegate-FirstDelegate :
    (p : KeyPage) (owner : Url) → FirstDelegate p owner (entry_by_delegate p owner)
unfolding entry_by_delegate
entry_by_delegate-FirstDelegate p owner =
    let u = book_loop (length owner.path) owner in
    (
      u,
      book_loop-LeadsTo (length owner.path) owner (omega arith),
      delegate_loop-FirstFrom p.keys 0 u,
    )
