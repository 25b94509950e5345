-- ===== src/Chain/KeyPages/Run.antt =====
-- A whole UpdateKeyPage transaction.
use accumulate.Common.{ℕ, suc, ◌+◌, ◌%◌, ◌^◌, ◌≡◌, ◌≢◌, inl, inr, refl, ap, arith, ◌∙◌}
use accumulate.Common.{List, [], ◌∷◌, some, Bool, false, Bool-cases, ◌==◌, ltb}
use accumulate.Common.{length, All, Option-cases, ◌&&◌, leb, map}
use accumulate.Common.Outcome.{Outcome, ok, >>=-ok, ok-subst}
use accumulate.Url.Parts.{Url, parse_key_page_url}
use accumulate.Protocol.Access.{TransactionType, clear_bit, set_bit}
use accumulate.Protocol.Keys.{KeySpec, KeySpecParams, KeyPage, KeyBook, set_threshold, is_empty}
use accumulate.Protocol.Keys.Order.{After, IsAscending}
use accumulate.Chain.KeyPages.{
  find_key_page_entry, KeyPageOperation, add_key, remove_key, update, threshold, update_allowed,
  execute_operation, execute_operations, execute_allowed, update_key, update_found, clashes,
  check_delegate, change_bits, blacklist_number, reset_nonce, did_update_key_page, is_validator,
  validate_update_key_page,
}
use accumulate.Chain.KeyPages.Invariant.{
  IsPage, Keeps, HasKeyHash, execute_add-Keeps, execute_remove-Keeps, relocate-Keeps,
}

update_key-Keeps :
    (page p : KeyPage) (book : KeyBook) (old new : KeySpecParams) (preserve_delegate : Bool)
    → IsPage page
    → new.key_hash ≢ []
    → update_key page book old new preserve_delegate ≡ ok p
    → Keeps page p
unfolding update_key update_found
update_key-Keeps page p book old new keep v ne h = elim (Bool-cases (is_empty new)) [
  | inl e ↦ absurd (cc (rw (e, update_key) at h))
  | inr e ↦
      (let (_, _, run) =
          >>=-ok _ (check_delegate page book new.delegate) p (rw (e, update_key) at h) in
        elim (Option-cases (find_key_page_entry page old)) [
          | inl n ↦ absurd (cc (rw (n, update_found) at run))
          | inr (i, n) ↦ elim (Bool-cases (clashes i (find_key_page_entry page new))) [
            | inl c ↦ absurd (cc (rw (n, c, update_found) at run))
            | inr c ↦ relocate-Keeps page p i new keep v ne c (rw (n, c, update_found) at run)
          ]
        ])
]

set_threshold-Keeps :
    (page p : KeyPage) (m : ℕ) → IsPage page → set_threshold page m ≡ ok p → Keeps page p
unfolding set_threshold
set_threshold-Keeps page p m v h = elim (Bool-cases (leb m (length page.keys) && ltb 0 m)) [
  | inl e ↦ ok-subst (Keeps page) (rw (e, set_threshold) at h) (record {
    is_page = record { ascending = v.ascending; reachable = ground (arith, e) };
    version_eq = refl;
    url_eq = refl;
  })
  | inr e ↦ elim (Bool-cases (m == 0)) [
    | inl z ↦ absurd (cc (rw (e, z, set_threshold) at h))
    | inr z ↦ absurd (cc (rw (e, z, set_threshold) at h))
  ]
]

execute_allowed-Keeps :
    (page p : KeyPage) (allow deny : List TransactionType)
    → IsPage page
    → execute_allowed page allow deny ≡ ok p
    → Keeps page p
unfolding execute_allowed
execute_allowed-Keeps page p allow deny v h =
    let (cleared, _, more) =
      >>=-ok _ (change_bits clear_bit allow (blacklist_number page.transaction_blacklist)) p h in
    let (w, _, done) = >>=-ok _ (change_bits set_bit deny cleared) p more in
    ok-subst (Keeps page) done (record {
      is_page = record { ascending = v.ascending; reachable = v.reachable };
      version_eq = refl;
      url_eq = refl;
    })

-- Each operation that succeeds keeps a page's entries in order, its threshold in reach of the
-- number of entries, its version and its URL. Of an update it is asked that the new entry has a key
-- hash.
pub execute_operation-Keeps :
    (page p : KeyPage) (book : KeyBook) (op : KeyPageOperation)
    → IsPage page
    → HasKeyHash op
    → execute_operation page book op ≡ ok p
    → Keeps page p
unfolding execute_operation
execute_operation-Keeps page p book (add_key entry) v n h = execute_add-Keeps page p book entry v h
execute_operation-Keeps page p book (remove_key entry) v n h = execute_remove-Keeps page p entry v h
execute_operation-Keeps page p book (update old new) v n h =
    update_key-Keeps page p book old new false v n h
execute_operation-Keeps page p book (threshold m) v n h = set_threshold-Keeps page p m v h
execute_operation-Keeps page p book (update_allowed allow deny) v n h =
    execute_allowed-Keeps page p allow deny v h

execute_operations-Keeps :
    (page p : KeyPage) (book : KeyBook) (ops : List KeyPageOperation)
    → IsPage page
    → All HasKeyHash ops
    → execute_operations page book ops ≡ ok p
    → Keeps page p
unfolding execute_operations
execute_operations-Keeps page p book [] v n h =
    ok-subst (Keeps page) h (record { is_page = v; version_eq = refl; url_eq = refl })
execute_operations-Keeps page p book (op ∷ ops) v n h =
    let (q, first, rest) = >>=-ok _ (execute_operation page book op) p h in
    let one = execute_operation-Keeps page q book op v n.0 first in
    let more = execute_operations-Keeps q p book ops one.is_page n.1 rest in
    record {
      is_page = more.is_page;
      version_eq = more.version_eq ∙ one.version_eq;
      url_eq = more.url_eq ∙ one.url_eq;
    }

All-reset :
    (x : KeySpec) (keys : List KeySpec)
    → All (After x) keys
    → All (After (reset_nonce x)) (map reset_nonce keys)
unfolding reset_nonce
All-reset x [] a = tt
All-reset x (y ∷ ks) a = (a.0, All-reset x ks a.1)

IsAscending-reset : (keys : List KeySpec) → IsAscending keys → IsAscending (map reset_nonce keys)
IsAscending-reset [] s = tt
IsAscending-reset (x ∷ ks) s = (All-reset x ks s.0, IsAscending-reset ks s.1)

length-reset : (keys : List KeySpec) → length (map reset_nonce keys) ≡ length keys
length-reset [] = refl
length-reset (x ∷ ks) = ap suc (length-reset ks)

unused_reset : (keys : List KeySpec) → All (λ k. k.last_used_on ≡ 0) (map reset_nonce keys)
unfolding reset_nonce
unused_reset [] = tt
unused_reset (x ∷ ks) = (refl, unused_reset ks)

-- What a transaction makes of a page: it stays a page, its version goes up, and the times of last
-- use are forgotten.
pub record Updates (old new : KeyPage) : Type 0 where
  pub is_page : IsPage new
  pub next_version : new.version ≡ (old.version + 1) % 2 ^ 64
  pub url_eq : new.url ≡ old.url
  pub unused : All (λ k. k.last_used_on ≡ 0) new.keys

did_update_key_page-Updates :
    (page p : KeyPage) → Keeps page p → Updates page (did_update_key_page p)
unfolding did_update_key_page
did_update_key_page-Updates page p k = record {
  is_page = record {
    ascending = IsAscending-reset p.keys k.is_page.ascending;
    reachable = omega (arith, k.is_page.reachable, length-reset p.keys);
  };
  next_version = ap (λ v. (v + 1) % 2 ^ 64) k.version_eq;
  url_eq = k.url_eq;
  unused = unused_reset p.keys;
}

-- An UpdateKeyPage that succeeds on a page with ordered entries and a threshold in reach, and whose new
-- entries of updates have key hashes, leaves such a page, with the next version, the same URL and no time
-- of last use, and the book it loaded was not the validators'.
pub validate_update_key_page-Updates :
    (load : Url → Outcome KeyBook) (origin : Url) (page p : KeyPage) (ops : List KeyPageOperation)
    → IsPage page
    → All HasKeyHash ops
    → validate_update_key_page load origin page ops ≡ ok p
    → Updates page p
      × ((b : Url) × (n : ℕ) × (book : KeyBook) × (parse_key_page_url origin ≡ some (b, n))
          × (load b ≡ ok book)
          × (is_validator book.book_type ≡ false))
unfolding validate_update_key_page
validate_update_key_page-Updates load origin page p ops v n h =
    elim (Option-cases (parse_key_page_url origin)) [
      | inl u ↦ absurd (cc (rw (u, validate_update_key_page) at h))
      | inr ((b, index), u) ↦
          (let (book, loaded, run) = >>=-ok _ (load b) p (rw (u, validate_update_key_page) at h) in
            elim (Bool-cases (is_validator book.book_type)) [
              | inl t ↦ absurd (cc (rw t at run))
              | inr t ↦
                  (let (q, done, last) =
                      >>=-ok _ (execute_operations page book ops) p (rw t at run) in
                    let kept = execute_operations-Keeps page q book ops v n done in
                    (
                      ok-subst (Updates page) last (did_update_key_page-Updates page q kept),
                      (b, index, book, u, loaded, t),
                    ))
            ])
    ]
