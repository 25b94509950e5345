-- ===== src/Chain/AccountAuth.antt =====
-- internal/chain/update_account_auth.go: changes to the authorities of an account. An operation of
-- a type that is none of the four cannot be read from a transaction.
pub mod Ordered
use accumulate.Common.{ℕ, zero, suc, List, [], ◌∷◌, Option, none, some, Bool, true, false}
use accumulate.Common.{if◌then◌else◌, length, ◌==◌}
use accumulate.Common.Outcome.{Outcome, ok, err, ◌>>=◌, ◌>>◌}
use accumulate.Url.Parts.{Url, local_to}
use accumulate.Protocol.Accounts.{AccountAuth, AuthorityEntry}
use accumulate.Protocol.Auth.{get_authority, add_authority, remove_authority}
use accumulate.Chain.KeyPages.{verify_is_not_page}

-- The authority of each may be nil.
pub data AccountAuthOperation : Type 0 where
  enable disable add_account_authority remove_account_authority : Option Url → AccountAuthOperation

-- The write through the pointer that `GetAuthority` returns.
unfoldable pub set_disabled_at : List AuthorityEntry → ℕ → Bool → List AuthorityEntry
set_disabled_at [] i v = []
set_disabled_at (e ∷ es) zero v = record e { disabled = v } ∷ es
set_disabled_at (e ∷ es) (suc i) v = e ∷ set_disabled_at es i v

unfoldable pub set_disabled : AccountAuth → Url → Bool → Outcome AccountAuth
unfolding set_disabled_at
set_disabled auth u v = elim (get_authority auth u) [
  | none ↦ err "%v is not an authority of %v"
  | some i ↦ ok (record { authorities = set_disabled_at auth.authorities i v })
]

-- Adding: `exists_` is the state of a local authority in the database.
unfoldable pub execute_add_authority :
    (Url → Outcome (Unit {0})) → Url → AccountAuth → Url → Outcome AccountAuth
execute_add_authority exists_ account_url auth u =
    (if local_to account_url u then exists_ u else ok tt)
    >> (verify_is_not_page auth u
        >> (let (changed, is_new) = add_authority auth u in
            if is_new then ok changed else err "duplicate authority %v"))

unfoldable pub execute_remove_authority : AccountAuth → Url → Outcome AccountAuth
execute_remove_authority auth u =
    let (changed, removed) = remove_authority auth u in
    if removed
    then (if length changed.authorities == 0
        then err "removing the last authority from an account is not allowed"
        else ok changed)
    else err "no such authority %v"

-- One round of the loop of `UpdateAccountAuth.Validate`.
unfoldable pub execute_auth_operation :
    (Url → Outcome (Unit {0})) → Url → AccountAuth → AccountAuthOperation → Outcome AccountAuth
unfolding set_disabled execute_add_authority execute_remove_authority
execute_auth_operation exists_ account_url auth (enable none) = err "authority URL is missing"
execute_auth_operation exists_ account_url auth (enable (some u)) = set_disabled auth u false
execute_auth_operation exists_ account_url auth (disable none) = err "authority URL is missing"
execute_auth_operation exists_ account_url auth (disable (some u)) = set_disabled auth u true
execute_auth_operation exists_ account_url auth (add_account_authority none) =
    err "authority URL is missing"
execute_auth_operation exists_ account_url auth (add_account_authority (some u)) =
    execute_add_authority exists_ account_url auth u
execute_auth_operation exists_ account_url auth (remove_account_authority none) =
    err "authority URL is missing"
execute_auth_operation exists_ account_url auth (remove_account_authority (some u)) =
    execute_remove_authority auth u

-- `UpdateAccountAuth.Validate` on the authorities of the principal: what it stores.
unfoldable pub validate_update_account_auth :
    (Url → Outcome (Unit {0})) → Url → AccountAuth → List AccountAuthOperation → Outcome AccountAuth
unfolding execute_auth_operation
validate_update_account_auth exists_ account_url auth [] = ok auth
validate_update_account_auth exists_ account_url auth (op ∷ ops) =
    execute_auth_operation exists_ account_url auth op >>= λ changed.
    validate_update_account_auth exists_ account_url changed ops
