-- ===== src/Protocol/Keys.antt =====
-- protocol/keys.go and authority.go: key pages, on the records of types_gen.go.
-- Left out of the records are the encoding fields (fieldsSet, extraData).
pub mod Order
pub mod Spec
pub mod Insert
pub mod Delegates
use accumulate.Common.{ℕ, zero, suc, List, [], ◌∷◌, ◌++◌, Option, none, some, Bool, true, false}
use accumulate.Common.{leb, ltb, ◌==◌, ◌&&◌, if◌then◌else◌, length, take, drop, map}
use accumulate.Common.Compare.{Sign, negative, same, positive}
use accumulate.Common.Bytes.{Bytes, compare_bytes}
use accumulate.Common.Outcome.{Outcome, ok, err}
use accumulate.Sorted.Search.{search, binary_insert, set}
use accumulate.Url.Parts.{Url, compare, equal?, parse_key_page_url}
use accumulate.Protocol.Accounts.{AccountAuth}

pub record KeySpec : Type 0 where
  pub public_key_hash : Bytes
  pub last_used_on : ℕ
  pub delegate : Option Url

pub record KeySpecParams : Type 0 where
  pub key_hash : Bytes
  pub delegate : Option Url

-- The blacklist is a pointer to a bit set, kept as its number.
pub record KeyPage : Type 0 where
  pub url : Url
  pub credit_balance : ℕ
  pub accept_threshold : ℕ
  pub reject_threshold : ℕ
  pub response_threshold : ℕ
  pub block_threshold : ℕ
  pub version : ℕ
  pub keys : List KeySpec
  pub transaction_blacklist : Option ℕ

pub data BookType : Type 0 where
  normal validator operator : BookType

pub record KeyBook : Type 0 where
  pub url : Url
  pub book_type : BookType
  pub auth : AccountAuth
  pub page_count : ℕ

is_nil : Option Url → Bool
is_nil none = true
is_nil (some u) = false

-- `KeySpecParams.IsEmpty`
unfoldable pub is_empty : KeySpecParams → Bool
unfolding is_nil
is_empty k = (length k.key_hash == 0) && is_nil k.delegate

-- `GetMofN`
unfoldable pub get_m_of_n : KeyPage → ℕ × ℕ
get_m_of_n p = (p.accept_threshold, length p.keys)

-- `SetThreshold`
unfoldable pub set_threshold : KeyPage → ℕ → Outcome KeyPage
set_threshold p m =
    if leb m (length p.keys) && ltb 0 m
    then ok (record p { accept_threshold = m })
    else if m == 0
    then err "cannot require 0 signatures on a key page"
    else err "cannot require %d signatures on a key page with %d keys"

-- `GetSignatureThreshold`
unfoldable pub get_signature_threshold : KeyPage → ℕ
get_signature_threshold p = if p.accept_threshold == 0 then 1 else p.accept_threshold

abbrev pub by_key_hash : Bytes → KeySpec → Sign
by_key_hash key_hash ks = compare_bytes ks.public_key_hash key_hash

-- `EntryByKeyHash`: the index of the entry, or nothing for Go's -1.
unfoldable pub entry_by_key_hash : KeyPage → Bytes → Option ℕ
entry_by_key_hash p key_hash =
    let (i, found) = search p.keys (by_key_hash key_hash) in if found then some i else none

-- `EntryByKey`
unfoldable pub entry_by_key : (Bytes → Bytes) → KeyPage → Bytes → Option ℕ
unfolding entry_by_key_hash
entry_by_key sum p key = entry_by_key_hash p (sum key)

-- The loop of `EntryByDelegate`; `i` is the index of the first entry of the list.
unfoldable pub delegate_loop : List KeySpec → ℕ → Url → Option ℕ
delegate_loop [] i owner = none
delegate_loop (k ∷ ks) i owner =
    if equal? (some owner) k.delegate then some i else delegate_loop ks (suc i) owner

-- The book that `EntryByDelegate` looks for: it calls itself with the book of a page URL until the
-- URL is no page's. Every call shortens the path, which bounds the calls.
unfoldable pub book_loop : ℕ → Url → Url
book_loop zero owner = owner
book_loop (suc fuel) owner = elim (parse_key_page_url owner) [
  | none ↦ owner
  | some (book, _) ↦ book_loop fuel book
]

-- `EntryByDelegate`
unfoldable pub entry_by_delegate : KeyPage → Url → Option ℕ
unfolding book_loop delegate_loop
entry_by_delegate p owner = delegate_loop p.keys 0 (book_loop (length owner.path) owner)

-- The comparison of `AddKeySpec` where the key hashes are equal.
unfoldable pub by_delegate : Option Url → Option Url → Sign
by_delegate none k = negative
by_delegate (some l) none = positive
by_delegate (some l) (some k) = compare l k

unfoldable pub by_spec : KeySpec → KeySpec → Sign
unfolding by_delegate
by_spec k l = elim (compare_bytes l.public_key_hash k.public_key_hash) [
  | negative ↦ negative
  | positive ↦ positive
  | same ↦ by_delegate l.delegate k.delegate
]

abbrev pub no_spec : KeySpec
no_spec = record { public_key_hash = []; last_used_on = 0; delegate = none }

-- `AddKeySpec`: the entry is written through the pointer that `BinaryInsert` returns, over an equal
-- entry or into the new slot, whose nil is never seen.
unfoldable pub add_key_spec : List KeySpec → KeySpec → List KeySpec
unfolding by_spec
add_key_spec keys k = let (l, i, _) = binary_insert no_spec keys (by_spec k) in set l i k

-- `RemoveKeySpecAt`, at an index of the page.
unfoldable pub remove_key_spec_at : List KeySpec → ℕ → List KeySpec
remove_key_spec_at keys i = take i keys ++ drop (suc i) keys

keep_delegate : KeySpec → List KeySpec
keep_delegate k = elim k.delegate [
  | none ↦ []
  | some d ↦ record { public_key_hash = []; last_used_on = 0; delegate = some d } ∷ []
]

unfoldable pub lite_keys : List KeySpec → List KeySpec
unfolding keep_delegate
lite_keys [] = []
lite_keys (k ∷ ks) = keep_delegate k ++ lite_keys ks

-- `MakeLiteSigner` of a key page.
unfoldable pub make_lite_signer : KeyPage → KeyPage
unfolding lite_keys
make_lite_signer p = record p { credit_balance = 0; keys = lite_keys p.keys }
