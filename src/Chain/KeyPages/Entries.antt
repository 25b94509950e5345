-- ===== src/Chain/KeyPages/Entries.antt =====
-- What the search of the executors, and taking an entry out of a page, do to the key hashes.
use accumulate.Common.{ℕ, zero, suc, ◌≡◌, ◌≢◌, ◌⊎◌, inl, inr, refl, ap, arith, ◌∙◌, sym}
use accumulate.Common.{List, [], ◌∷◌, Option, none, some}
use accumulate.Common.{length, get_elem?, All, Option-cases}
use accumulate.Common.{length-append}
use accumulate.Common.Bytes.{Bytes, compare_bytes-IsOrder}
use accumulate.Protocol.Keys.{KeySpec, KeySpecParams, KeyPage, remove_key_spec_at}
use accumulate.Protocol.Keys.Order.{After, IsAscending, Lacks, Finds, entry_by_key_hash-Finds}
use accumulate.Protocol.Keys.Insert.{Inserts}
use accumulate.Chain.KeyPages.{find_key_page_entry, find_by_hash}

-- The sought entry is not on the page: its key hash is on no entry, or it has none.
abbrev pub IsNew : KeySpecParams → List KeySpec → Type 0
IsNew k keys = Lacks k.key_hash keys ⊎ (k.key_hash ≡ [])

pub empty_or : (h : Bytes) → (h ≡ []) ⊎ (h ≢ [])
empty_or [] = inl refl
empty_or (x ∷ xs) = inr (λ e. cc)

find_by_hash-Finds :
    (page : KeyPage) (h : Bytes)
    → IsAscending page.keys
    → h ≢ []
    → Finds page.keys h (find_by_hash page h)
unfolding find_by_hash
find_by_hash-Finds page [] s ne = absurd (ne refl)
find_by_hash-Finds page (x ∷ xs) s ne = entry_by_key_hash-Finds page (x ∷ xs) s

-- An entry that `findKeyPageEntry` does not find is new.
pub find_key_page_entry-IsNew :
    (page : KeyPage) (sought : KeySpecParams)
    → IsAscending page.keys
    → find_key_page_entry page sought ≡ none
    → IsNew sought page.keys
unfolding find_key_page_entry
find_key_page_entry-IsNew page sought s h = elim (empty_or sought.key_hash) [
  | inl e ↦ inr e
  | inr e ↦
      (let finds = find_by_hash-Finds page sought.key_hash s e in
        elim (Option-cases (find_by_hash page sought.key_hash)) [
          | inl n ↦ inl (rw n at finds)
          | inr (i, n) ↦ absurd (cc (rw (n, find_key_page_entry) at h))
        ])
]

-- One that it finds by a key hash is an entry with that hash, or no entry has it.
pub find_key_page_entry-hash :
    (page : KeyPage) (sought : KeySpecParams) (i : ℕ)
    → IsAscending page.keys
    → sought.key_hash ≢ []
    → find_key_page_entry page sought ≡ some i
    → Lacks sought.key_hash page.keys
      ⊎ ((e : KeySpec) × (get_elem? page.keys i ≡ some e) × (e.public_key_hash ≡ sought.key_hash))
unfolding find_key_page_entry
find_key_page_entry-hash page sought i s ne h =
    let finds = find_by_hash-Finds page sought.key_hash s ne in
    elim (Option-cases (find_by_hash page sought.key_hash)) [
      | inl n ↦ inl (rw n at finds)
      | inr (j, n) ↦
          (let found : ◌≡◌ {A = Option ℕ} (some j) (some i) = rw (n, find_key_page_entry) at h in
            let same_ : j ≡ i = cc in inr (rw same_ at (rw n at finds)))
    ]

All-remove :
    (P : KeySpec → Type 0) (keys : List KeySpec) (i : ℕ)
    → All P keys
    → All P (remove_key_spec_at keys i)
unfolding remove_key_spec_at
All-remove P [] zero h = tt
All-remove P [] (suc i) h = tt
All-remove P (x ∷ ks) zero h = h.1
All-remove P (x ∷ ks) (suc i) h = (h.0, All-remove P ks i h.1)

pub remove_key_spec_at-IsAscending :
    (keys : List KeySpec) (i : ℕ) → IsAscending keys → IsAscending (remove_key_spec_at keys i)
unfolding remove_key_spec_at
remove_key_spec_at-IsAscending [] zero s = tt
remove_key_spec_at-IsAscending [] (suc i) s = tt
remove_key_spec_at-IsAscending (x ∷ ks) zero s = s.1
remove_key_spec_at-IsAscending (x ∷ ks) (suc i) s =
    (All-remove (After x) ks i s.0, remove_key_spec_at-IsAscending ks i s.1)

pub length-remove_key_spec_at :
    (keys : List KeySpec) (i : ℕ) (e : KeySpec)
    → get_elem? keys i ≡ some e
    → length keys ≡ suc (length (remove_key_spec_at keys i))
unfolding remove_key_spec_at
length-remove_key_spec_at [] i e h = cc
length-remove_key_spec_at (x ∷ ks) zero e h = refl
length-remove_key_spec_at (x ∷ ks) (suc i) e h = ap suc (length-remove_key_spec_at ks i e h)

pub Lacks-remove :
    (h : Bytes) (keys : List KeySpec) (i : ℕ) → Lacks h keys → Lacks h (remove_key_spec_at keys i)
Lacks-remove h keys i l = All-remove (λ x. x.public_key_hash ≢ h) keys i l

After-ne :
    (x y : KeySpec) (h : Bytes)
    → h ≢ []
    → After x y
    → (y.public_key_hash ≡ h)
    → x.public_key_hash ≢ h
After-ne x y h ne (inl a) e d = cc (a, e, d, compare_bytes-IsOrder.same_refl h)
After-ne x y h ne (inr (a, b)) e d = ne (sym e ∙ b)

All-After :
    (x : KeySpec) (keys : List KeySpec) (i : ℕ) (e : KeySpec)
    → All (After x) keys
    → get_elem? keys i ≡ some e
    → After x e
All-After x [] i e a h = cc
All-After x (y ∷ ks) zero e a h = let same_ : y ≡ e = cc in rw (← same_) a.0
All-After x (y ∷ ks) (suc i) e a h = All-After x ks i e a.1 h

All-ne :
    (x : KeySpec) (h : Bytes) (keys : List KeySpec)
    → h ≢ []
    → x.public_key_hash ≡ h
    → All (After x) keys
    → Lacks h keys
All-ne x h [] ne e a = tt
All-ne x h (y ∷ ks) ne e a = (
  elim a.0 [
    | inl lt ↦ λ d. cc (lt, e, d, compare_bytes-IsOrder.same_refl h)
    | inr (b, c) ↦ λ d. ne (sym e ∙ b)
  ],
  All-ne x h ks ne e a.1,
)

-- Taking out the entry with a key hash leaves none with it.
pub Lacks-removed :
    (h : Bytes) (keys : List KeySpec) (i : ℕ) (e : KeySpec)
    → h ≢ []
    → IsAscending keys
    → get_elem? keys i ≡ some e
    → e.public_key_hash ≡ h
    → Lacks h (remove_key_spec_at keys i)
unfolding remove_key_spec_at
Lacks-removed h [] i e ne s g d = cc
Lacks-removed h (x ∷ ks) zero e ne s g d =
    let same_ : x ≡ e = cc in All-ne x h ks ne (ap (λ k. k.public_key_hash) same_ ∙ d) s.0
Lacks-removed h (x ∷ ks) (suc i) e ne s g d =
    (After-ne x e h ne (All-After x ks i e s.0 g) d, Lacks-removed h ks i e ne s.1 g d)

pub length-Inserts :
    (k : KeySpec) (keys new : List KeySpec) → Inserts k keys new → length new ≡ suc (length keys)
length-Inserts k keys new (front, back, e, d) = omega (
  arith,
  ap (length {A = KeySpec}) e,
  ap (length {A = KeySpec}) d,
  length-append front back,
  length-append front (k ∷ back),
)
