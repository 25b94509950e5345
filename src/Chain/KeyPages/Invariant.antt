-- ===== src/Chain/KeyPages/Invariant.antt =====
-- What every operation of UpdateKeyPage keeps of a key page.
use accumulate.Common.{ℕ, ◌≤◌, ◌≡◌, ◌≢◌, inl, inr, refl, ap, arith, ◌∙◌}
use accumulate.Common.{[], some, Bool, false, Bool-cases, ◌==◌}
use accumulate.Common.{length, get_elem?, Option-cases, ◌&&◌}
use accumulate.Common.Outcome.{ok, >>=-ok, ok-subst}
use accumulate.Url.Parts.{parse_key_page_url}
use accumulate.Protocol.Keys.{
  KeySpec, KeySpecParams, KeyPage, KeyBook, add_key_spec, remove_key_spec_at, is_empty,
}
use accumulate.Protocol.Keys.Order.{IsAscending, Lacks}
use accumulate.Protocol.Keys.Spec.{Fresh}
use accumulate.Protocol.Keys.Insert.{add_key_spec-AddsKey, AddsKey-length}
use accumulate.Chain.KeyPages.{
  find_key_page_entry, KeyPageOperation, add_key, remove_key, update, threshold, update_allowed,
  execute_add, execute_remove, relocate, updated, clashes, check_delegate, remove_at_index,
}
use accumulate.Chain.KeyPages.Entries.{
  find_key_page_entry-IsNew, find_key_page_entry-hash, remove_key_spec_at-IsAscending,
  length-remove_key_spec_at, Lacks-remove, Lacks-removed, length-Inserts,
}

-- The entries stand in the order of their key hashes, no two with the same, and the page does not
-- require more signatures than it has entries.
pub record IsPage (p : KeyPage) : Type 0 where
  pub ascending : IsAscending p.keys
  pub reachable : p.accept_threshold ≤ length p.keys

-- What an operation keeps.
pub record Keeps (old new : KeyPage) : Type 0 where
  pub is_page : IsPage new
  pub version_eq : new.version ≡ old.version
  pub url_eq : new.url ≡ old.url

abbrev spec : KeySpecParams → KeySpec
spec entry = record {
  public_key_hash = entry.key_hash;
  last_used_on = 0;
  delegate = entry.delegate;
}

with_keys-Keeps :
    (page : KeyPage) (k : KeySpec)
    → IsPage page
    → Fresh k page.keys
    → Keeps page (record page { keys = add_key_spec page.keys k })
with_keys-Keeps page k v f =
    let adds = add_key_spec-AddsKey page.keys k v.ascending f in
    let more = AddsKey-length k page.keys (add_key_spec page.keys k) adds in
    record {
      is_page = record { ascending = adds.0; reachable = omega (arith, v.reachable, more) };
      version_eq = refl;
      url_eq = refl;
    }

pub execute_add-Keeps :
    (page p : KeyPage) (book : KeyBook) (entry : KeySpecParams)
    → IsPage page
    → execute_add page book entry ≡ ok p
    → Keeps page p
unfolding execute_add
execute_add-Keeps page p book entry v h = elim (Bool-cases (is_empty entry)) [
  | inl e ↦ absurd (cc (rw (e, execute_add) at h))
  | inr e ↦
      (let (_, _, run) =
          >>=-ok _ (check_delegate page book entry.delegate) p (rw (e, execute_add) at h) in
        elim (Option-cases (find_key_page_entry page entry)) [
          | inr (i, n) ↦ absurd (cc (rw n at run))
          | inl n ↦ ok-subst (Keeps page) (rw n at run) (
              with_keys-Keeps page (spec entry) v
                (find_key_page_entry-IsNew page entry v.ascending n))
        ])
]

remove_at_index-Keeps : (page : KeyPage) (i : ℕ) → IsPage page → Keeps page (remove_at_index page i)
unfolding remove_at_index
remove_at_index-Keeps page i v = record {
  is_page = record {
    ascending = remove_key_spec_at-IsAscending page.keys i v.ascending;
    reachable = ground arith;
  };
  version_eq = refl;
  url_eq = refl;
}

pub execute_remove-Keeps :
    (page p : KeyPage) (entry : KeySpecParams)
    → IsPage page
    → execute_remove page entry ≡ ok p
    → Keeps page p
unfolding execute_remove
execute_remove-Keeps page p entry v h = elim (Option-cases (find_key_page_entry page entry)) [
  | inl n ↦ absurd (cc (rw (n, execute_remove) at h))
  | inr (i, n) ↦ elim (Option-cases (parse_key_page_url page.url)) [
    | inl u ↦ absurd (cc (rw (n, u, execute_remove) at h))
    | inr ((b, index), u) ↦ elim (Bool-cases ((length page.keys == 1) && (index == 1))) [
      | inl l ↦ absurd (cc (rw (n, u, l, execute_remove) at h))
      | inr l ↦
          ok-subst (Keeps page) (rw (n, u, l, execute_remove) at h) (remove_at_index-Keeps page i v)
    ]
  ]
]

-- The new entry of an update has a key hash.
abbrev pub HasKeyHash : KeyPageOperation → Type 0
HasKeyHash (update old new) = new.key_hash ≢ []
HasKeyHash (add_key entry) = Unit
HasKeyHash (remove_key entry) = Unit
HasKeyHash (threshold m) = Unit
HasKeyHash (update_allowed allow deny) = Unit

-- Without the entry that is updated, no entry has the new key hash.
Lacks-others :
    (page : KeyPage) (i : ℕ) (e : KeySpec) (new : KeySpecParams)
    → IsAscending page.keys
    → new.key_hash ≢ []
    → get_elem? page.keys i ≡ some e
    → clashes i (find_key_page_entry page new) ≡ false
    → Lacks new.key_hash (remove_key_spec_at page.keys i)
unfolding clashes
Lacks-others page i e new s ne g c = elim (Option-cases (find_key_page_entry page new)) [
  | inl n ↦ elim (find_key_page_entry-IsNew page new s n) [
    | inl l ↦ Lacks-remove new.key_hash page.keys i l
    | inr b ↦ absurd (ne b)
  ]
  | inr (j, n) ↦
      (let here : j ≡ i = ground (arith, rw (n, clashes) at c) in
        elim (find_key_page_entry-hash page new i s ne (n ∙ ap some here)) [
          | inl l ↦ Lacks-remove new.key_hash page.keys i l
          | inr (f, at_i, d) ↦ Lacks-removed new.key_hash page.keys i f ne s at_i d
        ])
]

pub relocate-Keeps :
    (page p : KeyPage) (i : ℕ) (new : KeySpecParams) (preserve_delegate : Bool)
    → IsPage page
    → new.key_hash ≢ []
    → clashes i (find_key_page_entry page new) ≡ false
    → relocate page i new preserve_delegate ≡ ok p
    → Keeps page p
unfolding relocate updated
relocate-Keeps page p i new keep v ne c h = elim (Option-cases (get_elem? page.keys i)) [
  | inl n ↦ absurd (cc (rw (n, relocate) at h))
  | inr (e, n) ↦
      (let others = remove_key_spec_at page.keys i in
        let fresh = Lacks-others page i e new v.ascending ne n c in
        let (ascending, _, inserts) =
          add_key_spec-AddsKey others (updated e new keep)
            (remove_key_spec_at-IsAscending page.keys i v.ascending) (inl fresh) in
        let size =
          length-Inserts (updated e new keep) others (add_key_spec others (updated e new keep))
            (inserts fresh) in
        let kept : Keeps page (record page { keys = add_key_spec others (updated e new keep) }) =
          record {
            is_page = record {
              ascending = ascending;
              reachable =
                  omega (arith, v.reachable, size, length-remove_key_spec_at page.keys i e n);
            };
            version_eq = refl;
            url_eq = refl;
          } in
        ok-subst (Keeps page) (rw (n, relocate) at h) kept)
]
