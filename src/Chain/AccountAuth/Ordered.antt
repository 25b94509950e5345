-- ===== src/Chain/AccountAuth/Ordered.antt =====
-- The authorities of an account stay an ordered set that is not empty.
use accumulate.Common.{ℕ, zero, suc, ◌≡◌, ◌≢◌, refl, ap, arith, inl, inr}
use accumulate.Common.{List, [], ◌∷◌, none, some, Bool, true, false, Bool-cases}
use accumulate.Common.{if◌then◌else◌, length, ◌==◌, All, Option-cases}
use accumulate.Common.Compare.{negative}
use accumulate.Common.Outcome.{Outcome, ok, >>=-ok, ok-subst}
use accumulate.Url.Parts.{Url, local_to, compare}
use accumulate.Url.Order.{compare-IsPreorder}
use accumulate.Sorted.Keys.{IsSorted}
use accumulate.Protocol.Accounts.{AccountAuth, AuthorityEntry}
use accumulate.Protocol.Auth.{get_authority, add_authority, remove_authority}
use accumulate.Protocol.Auth.Laws.{
  IsOrdered, has_authority, lists_url, add_authority-set, remove_authority-set,
}
use accumulate.Chain.KeyPages.{verify_is_not_page}
use accumulate.Chain.AccountAuth.{
  AccountAuthOperation, enable, disable, add_account_authority, remove_account_authority,
  set_disabled_at, set_disabled, execute_add_authority, execute_remove_authority,
  execute_auth_operation, validate_update_account_auth,
}

-- The URLs are in order, without repetition, and there is one.
pub record IsAuth (a : AccountAuth) : Type 0 where
  pub ordered : IsOrdered a
  pub governed : a.authorities ≢ []

After : AuthorityEntry → AuthorityEntry → Type 0
After x y = compare x.url y.url ≡ negative

All-set_disabled_at :
    (x : AuthorityEntry) (es : List AuthorityEntry) (i : ℕ) (v : Bool)
    → All (After x) es
    → All (After x) (set_disabled_at es i v)
unfolding set_disabled_at After
All-set_disabled_at x [] i v h = tt
All-set_disabled_at x (e ∷ es) zero v h = h
All-set_disabled_at x (e ∷ es) (suc i) v h = (h.0, All-set_disabled_at x es i v h.1)

IsSorted-set_disabled_at :
    (es : List AuthorityEntry) (i : ℕ) (v : Bool)
    → IsSorted After es
    → IsSorted After (set_disabled_at es i v)
unfolding set_disabled_at After
IsSorted-set_disabled_at [] i v s = tt
IsSorted-set_disabled_at (e ∷ es) zero v s = s
IsSorted-set_disabled_at (e ∷ es) (suc i) v s =
    (All-set_disabled_at e es i v s.0, IsSorted-set_disabled_at es i v s.1)

set_disabled_at-ne :
    (es : List AuthorityEntry) (i : ℕ) (v : Bool) → es ≢ [] → set_disabled_at es i v ≢ []
unfolding set_disabled_at
set_disabled_at-ne [] i v ne e = ne refl
set_disabled_at-ne (x ∷ es) zero v ne e = cc
set_disabled_at-ne (x ∷ es) (suc i) v ne e = cc

set_disabled-IsAuth :
    (a b : AccountAuth) (u : Url) (v : Bool) → IsAuth a → set_disabled a u v ≡ ok b → IsAuth b
unfolding set_disabled After
set_disabled-IsAuth a b u v h e = elim (Option-cases (get_authority a u)) [
  | inl n ↦ absurd (cc (rw (n, set_disabled) at e))
  | inr (i, n) ↦ ok-subst IsAuth (rw (n, set_disabled) at e) (record {
    ordered = IsSorted-set_disabled_at a.authorities i v h.ordered;
    governed = set_disabled_at-ne a.authorities i v h.governed;
  })
]

has_authority-ne : (a : AccountAuth) (u : Url) → has_authority a u ≡ true → a.authorities ≢ []
unfolding lists_url
has_authority-ne a u h e = cc (rw (e, lists_url) at h)

execute_add_authority-IsAuth :
    (exists_ : Url → Outcome (Unit {0})) (account_url : Url) (a b : AccountAuth) (u : Url)
    → IsAuth a
    → execute_add_authority exists_ account_url a u ≡ ok b
    → IsAuth b
unfolding execute_add_authority
execute_add_authority-IsAuth exists_ account_url a b u h e =
    let (_, _, r₁) = >>=-ok _ (if local_to account_url u then exists_ u else ok tt) b e in
    let (_, _, r₂) = >>=-ok _ (verify_is_not_page a u) b r₁ in
    let (ordered, added, holds) = add_authority-set a u h.ordered in
    elim (Bool-cases (add_authority a u).1) [
      | inr n ↦ absurd (cc (rw n at r₂))
      | inl n ↦ ok-subst IsAuth (rw n at r₂) (record {
        ordered = ordered;
        governed =
            has_authority-ne (add_authority a u).0 u
              (ground (arith, holds u, compare-IsPreorder.refl_ u));
      })
    ]

execute_remove_authority-IsAuth :
    (a b : AccountAuth) (u : Url) → IsAuth a → execute_remove_authority a u ≡ ok b → IsAuth b
unfolding execute_remove_authority
execute_remove_authority-IsAuth a b u h e =
    let (ordered, removed, holds) = remove_authority-set a u h.ordered in
    elim (Bool-cases (remove_authority a u).1) [
      | inr n ↦ absurd (cc (rw (n, execute_remove_authority) at e))
      | inl n ↦ elim (Bool-cases (length (remove_authority a u).0.authorities == 0)) [
        | inl z ↦ absurd (cc (rw (n, z, execute_remove_authority) at e))
        | inr z ↦ ok-subst IsAuth (rw (n, z, execute_remove_authority) at e) (record {
          ordered = ordered;
          governed = λ empty_. ground (arith, z, ap (length {A = AuthorityEntry}) empty_);
        })
      ]
    ]

execute_auth_operation-IsAuth :
    (exists_ : Url → Outcome (Unit {0})) (account_url : Url) (a b : AccountAuth)
    (op : AccountAuthOperation)
    → IsAuth a
    → execute_auth_operation exists_ account_url a op ≡ ok b
    → IsAuth b
unfolding execute_auth_operation
execute_auth_operation-IsAuth exists_ account_url a b (enable none) h e = cc
execute_auth_operation-IsAuth exists_ account_url a b (enable (some u)) h e =
    set_disabled-IsAuth a b u false h e
execute_auth_operation-IsAuth exists_ account_url a b (disable none) h e = cc
execute_auth_operation-IsAuth exists_ account_url a b (disable (some u)) h e =
    set_disabled-IsAuth a b u true h e
execute_auth_operation-IsAuth exists_ account_url a b (add_account_authority none) h e = cc
execute_auth_operation-IsAuth exists_ account_url a b (add_account_authority (some u)) h e =
    execute_add_authority-IsAuth exists_ account_url a b u h e
execute_auth_operation-IsAuth exists_ account_url a b (remove_account_authority none) h e = cc
execute_auth_operation-IsAuth exists_ account_url a b (remove_account_authority (some u)) h e =
    execute_remove_authority-IsAuth a b u h e

-- An UpdateAccountAuth that succeeds on an account with ordered authorities, of which there is at
-- least one, leaves such an account, whatever its operations.
pub validate_update_account_auth-IsAuth :
    (exists_ : Url → Outcome (Unit {0})) (account_url : Url) (a b : AccountAuth)
    (ops : List AccountAuthOperation)
    → IsAuth a
    → validate_update_account_auth exists_ account_url a ops ≡ ok b
    → IsAuth b
unfolding validate_update_account_auth
validate_update_account_auth-IsAuth exists_ account_url a b [] h e = ok-subst IsAuth e h
validate_update_account_auth-IsAuth exists_ account_url a b (op ∷ ops) h e =
    let (c, first, rest) = >>=-ok _ (execute_auth_operation exists_ account_url a op) b e in
    validate_update_account_auth-IsAuth exists_ account_url c b ops
      (execute_auth_operation-IsAuth exists_ account_url a c op h first) rest
