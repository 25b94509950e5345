-- ===== src/Chain/KeyPages.antt =====
-- internal/chain/update_key_page.go and update_key.go, with verifyIsNotPage of
-- update_account_auth.go. An operation of a type that is none of the five cannot be read from a
-- transaction, so the code's default branch is left out.
pub mod Entries
pub mod Invariant
pub mod Run
pub mod Allowed
use accumulate.Common.{
  ℕ, zero, suc, ◌+◌, ◌%◌, ◌^◌, List, [], ◌∷◌, ◌++◌, Option, none, some, Bool, true, false,
}
use accumulate.Common.{leb, ltb, ◌==◌, ◌&&◌, ◌||◌, not, if◌then◌else◌, length, get_elem?, map}
use accumulate.Common.Bytes.{Bytes}
use accumulate.Common.Outcome.{Outcome, ok, err, panic, ◌>>=◌, ◌>>◌, fail_if}
use accumulate.Url.Parts.{Url, parent_of, equal, local_to, parse_key_page_url}
use accumulate.Protocol.Accounts.{AccountAuth}
use accumulate.Protocol.Auth.{get_authority}
use accumulate.Protocol.Access.{TransactionType, allowed_transaction_bit, set_bit, clear_bit}
use accumulate.Protocol.Keys.{
  KeySpec, KeySpecParams, KeyPage, KeyBook, BookType, validator, is_empty, entry_by_key_hash,
  entry_by_delegate, add_key_spec, remove_key_spec_at, set_threshold,
}

-- `verifyIsNotPage`
unfoldable pub verify_is_not_page : AccountAuth → Url → Outcome (Unit {0})
verify_is_not_page auth account = elim (parse_key_page_url account) [
  | none ↦ ok tt
  | some (book, _) ↦ elim (get_authority auth book) [
    | none ↦ ok tt
    | some _ ↦ err "a key page is not a valid authority"
  ]
]

-- `findKeyPageEntry`: the index of the entry.
unfoldable pub find_by_delegate : KeyPage → Option Url → Option ℕ
find_by_delegate page none = none
find_by_delegate page (some d) = entry_by_delegate page d

unfoldable pub find_by_hash : KeyPage → Bytes → Option ℕ
find_by_hash page [] = none
find_by_hash page (x ∷ xs) = entry_by_key_hash page (x ∷ xs)

unfoldable pub find_key_page_entry : KeyPage → KeySpecParams → Option ℕ
unfolding find_by_delegate find_by_hash
find_key_page_entry page sought = elim (find_by_hash page sought.key_hash) [
  | some i ↦ some i
  | none ↦ find_by_delegate page sought.delegate
]

-- The checks of a new delegate, the same for an added and an updated entry.
unfoldable pub check_delegate : KeyPage → KeyBook → Option Url → Outcome (Unit {0})
unfolding verify_is_not_page
check_delegate page book none = ok tt
check_delegate page book (some d) =
    if parent_of d page.url
    then err "self-delegation is not allowed"
    else verify_is_not_page book.auth d

-- The entry after an update: `LastUsedOn` is kept.
unfoldable pub updated : KeySpec → KeySpecParams → Bool → KeySpec
updated entry new preserve_delegate = record entry {
  public_key_hash = new.key_hash;
  delegate = elim new.delegate [
    | some d ↦ some d
    | none ↦ if preserve_delegate then entry.delegate else none
  ];
}

-- `found && oldPos != newPos`
unfoldable pub clashes : ℕ → Option ℕ → Bool
clashes i none = false
clashes i (some j) = not (i == j)

-- The entry is changed in place, taken out, and put in again.
unfoldable pub relocate : KeyPage → ℕ → KeySpecParams → Bool → Outcome KeyPage
unfolding updated
relocate page i new preserve_delegate = elim (get_elem? page.keys i) [
  | none ↦ panic
  | some entry ↦ ok (record page {
    keys = add_key_spec (remove_key_spec_at page.keys i) (updated entry new preserve_delegate);
  })
]

unfoldable pub update_found : KeyPage → Option ℕ → KeySpecParams → Bool → Outcome KeyPage
unfolding find_key_page_entry clashes relocate
update_found page none new preserve_delegate = err "entry to be updated not found on the key page"
update_found page (some i) new preserve_delegate =
    if clashes i (find_key_page_entry page new)
    then err "cannot have duplicate entries on key page"
    else relocate page i new preserve_delegate

-- `updateKey`
unfoldable pub update_key :
    KeyPage → KeyBook → KeySpecParams → KeySpecParams → Bool → Outcome KeyPage
unfolding check_delegate find_key_page_entry update_found
update_key page book old new preserve_delegate =
    if is_empty new
    then err "cannot add an empty entry"
    else check_delegate page book new.delegate
      >> update_found page (find_key_page_entry page old) new preserve_delegate

pub data KeyPageOperation : Type 0 where
  add_key : KeySpecParams → KeyPageOperation
  remove_key : KeySpecParams → KeyPageOperation
  update : KeySpecParams → KeySpecParams → KeyPageOperation
  threshold : ℕ → KeyPageOperation
  update_allowed : List TransactionType → List TransactionType → KeyPageOperation

-- `AddKeyOperation`
unfoldable pub execute_add : KeyPage → KeyBook → KeySpecParams → Outcome KeyPage
unfolding check_delegate find_key_page_entry
execute_add page book entry =
    if is_empty entry
    then err "cannot add an empty entry"
    else check_delegate page book entry.delegate >> (elim (find_key_page_entry page entry) [
      | some _ ↦ err "cannot have duplicate entries on key page"
      | none ↦ ok (record page {
        keys = add_key_spec page.keys (record {
          public_key_hash = entry.key_hash;
          last_used_on = 0;
          delegate = entry.delegate;
        });
      })
    ])

-- `RemoveKeyOperation`, of the entry found. The threshold falls with the number of keys.
unfoldable pub remove_at_index : KeyPage → ℕ → KeyPage
remove_at_index page i =
    let keys = remove_key_spec_at page.keys i in
    record page {
      keys = keys;
      accept_threshold =
          if ltb (length keys) page.accept_threshold then length keys else page.accept_threshold;
    }

unfoldable pub execute_remove : KeyPage → KeySpecParams → Outcome KeyPage
unfolding find_key_page_entry remove_at_index
execute_remove page entry = elim (find_key_page_entry page entry) [
  | none ↦ err "entry to be removed not found on the key page"
  | some i ↦ elim (parse_key_page_url page.url) [
    | none ↦ err "principal is not a key page"
    | some (_, index) ↦
        if (length page.keys == 1) && (index == 1)
        then err "cannot delete last key of the highest priority page of a key book"
        else ok (remove_at_index page i)
  ]
]

-- The two loops of `UpdateAllowedKeyPageOperation`, which clear and set bits.
unfoldable pub change_bits : (ℕ → ℕ → ℕ) → List TransactionType → ℕ → Outcome ℕ
change_bits change [] v = ok v
change_bits change (t ∷ ts) v = elim (allowed_transaction_bit t) [
  | none ↦ err "transaction type %v cannot be (dis)allowed"
  | some bit ↦ change_bits change ts (change v bit)
]

unfoldable pub blacklist_number : Option ℕ → ℕ
blacklist_number none = 0
blacklist_number (some v) = v

unfoldable pub number_blacklist : ℕ → Option ℕ
number_blacklist v = if v == 0 then none else some v

unfoldable pub execute_allowed :
    KeyPage → List TransactionType → List TransactionType → Outcome KeyPage
unfolding change_bits blacklist_number number_blacklist
execute_allowed page allow deny =
    change_bits clear_bit allow (blacklist_number page.transaction_blacklist) >>= λ cleared.
    change_bits set_bit deny cleared >>= λ v.
    ok (record page { transaction_blacklist = number_blacklist v })

-- `executeOperation`
unfoldable pub execute_operation : KeyPage → KeyBook → KeyPageOperation → Outcome KeyPage
unfolding execute_add execute_remove update_key execute_allowed
execute_operation page book (add_key entry) = execute_add page book entry
execute_operation page book (remove_key entry) = execute_remove page entry
execute_operation page book (update old new) = update_key page book old new false
execute_operation page book (threshold m) = set_threshold page m
execute_operation page book (update_allowed allow deny) = execute_allowed page allow deny

unfoldable pub execute_operations : KeyPage → KeyBook → List KeyPageOperation → Outcome KeyPage
unfolding execute_operation
execute_operations page book [] = ok page
execute_operations page book (op ∷ ops) =
    execute_operation page book op >>= λ p. execute_operations p book ops

unfoldable pub reset_nonce : KeySpec → KeySpec
reset_nonce k = record k { last_used_on = 0 }

-- `didUpdateKeyPage`
unfoldable pub did_update_key_page : KeyPage → KeyPage
unfolding reset_nonce
did_update_key_page page = record page {
  version = (page.version + 1) % 2 ^ 64;
  keys = map reset_nonce page.keys;
}

unfoldable pub is_validator : BookType → Bool
is_validator t = elim t [ validator ↦ true | _ ↦ false ]

-- `UpdateKeyPage.Validate` for a page at `origin`, with the book from `load`: the page that it
-- stores.
unfoldable pub validate_update_key_page :
    (Url → Outcome KeyBook) → Url → KeyPage → List KeyPageOperation → Outcome KeyPage
unfolding execute_operations did_update_key_page is_validator
validate_update_key_page load origin page ops = elim (parse_key_page_url origin) [
  | none ↦ err "invalid principal: page url is invalid: %s"
  | some (book_url, _) ↦ load book_url >>= λ book.
      if is_validator book.book_type
      then err "UpdateKeyPage cannot be used to modify the validator key book"
      else execute_operations page book ops >>= λ p. ok (did_update_key_page p)
]
