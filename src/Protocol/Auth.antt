-- ===== src/Protocol/Auth.antt =====
-- protocol/account_auth.go: the authorities of an account, in the order of their URLs.
pub mod Laws
use accumulate.Common.{
  ℕ, List, [], ◌∷◌, ◌++◌, Option, none, some, Bool, true, false, take, drop, suc,
}
use accumulate.Common.{if◌then◌else◌, get_elem?}
use accumulate.Common.Compare.{Sign}
use accumulate.Sorted.Search.{search, binary_insert, set}
use accumulate.Url.Parts.{Url, compare}
use accumulate.Protocol.Accounts.{AccountAuth, AuthorityEntry}

abbrev by_url : Url → AuthorityEntry → Sign
by_url entry e = compare e.url entry

-- `KeyBook` and `ManagerKeyBook`
unfoldable pub key_book : AccountAuth → Option Url
key_book a = elim (get_elem? a.authorities 0) [ none ↦ none | some e ↦ some e.url ]

unfoldable pub manager_key_book : AccountAuth → Option Url
manager_key_book a = elim (get_elem? a.authorities 1) [ none ↦ none | some e ↦ some e.url ]

unfoldable pub any_disabled : List AuthorityEntry → Bool
any_disabled [] = false
any_disabled (e ∷ es) = if e.disabled then true else any_disabled es

-- `AuthDisabled`
unfoldable pub auth_disabled : AccountAuth → Bool
unfolding any_disabled
auth_disabled a = any_disabled a.authorities

-- `GetAuthority`: the index of the entry that the returned pointer is to.
unfoldable pub get_authority : AccountAuth → Url → Option ℕ
get_authority a entry =
    let (i, found) = search a.authorities (by_url entry) in if found then some i else none

abbrev fresh : Url → AuthorityEntry
fresh entry = record { url = entry; disabled = false }

-- `AddAuthority`: the new slot is written at once, so the empty entry in it is never seen.
unfoldable pub add_authority : AccountAuth → Url → AccountAuth × Bool
add_authority a entry =
    let (l, i, added) = binary_insert (fresh entry) a.authorities (by_url entry) in
    if added
    then (record { authorities = set l i (fresh entry) }, true)
    else (record { authorities = l }, false)

-- `RemoveAuthority`
unfoldable pub remove_authority : AccountAuth → Url → AccountAuth × Bool
remove_authority a entry =
    let (i, found) = search a.authorities (by_url entry) in
    if found
    then (record { authorities = take i a.authorities ++ drop (suc i) a.authorities }, true)
    else (a, false)
