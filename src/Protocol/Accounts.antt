-- ===== src/Protocol/Accounts.antt =====
-- protocol/token_account.go, credits_account.go and lock.go, on the records of types_gen.go.
-- The encoding fields (fieldsSet, extraData) are left out. A uint64 is a number below 2^64.
use accumulate.Common.{ℕ, ◌+◌, ◌-◌, ◌%◌, ◌^◌, List, Option, none, some, Bool, true, false, leb, ltb}
use accumulate.Common.{if◌then◌else◌}
use accumulate.Common.Bytes.{Bytes}
use accumulate.Common.Int.{ℤ, ◌+ℤ◌, ◌-ℤ◌, leb_ℤ, is_negative}
use accumulate.Common.Outcome.{Outcome, ok, err}
use accumulate.Url.Parts.{Url}

pub record AuthorityEntry : Type 0 where
  pub url : Url
  pub disabled : Bool

pub record AccountAuth : Type 0 where
  pub authorities : List AuthorityEntry

pub record TokenAccount : Type 0 where
  pub url : Url
  pub auth : AccountAuth
  pub token_url : Url
  pub balance : ℤ

pub record LiteTokenAccount : Type 0 where
  pub url : Url
  pub token_url : Url
  pub balance : ℤ
  pub lock_height : ℕ

pub record TokenIssuer : Type 0 where
  pub url : Url
  pub auth : AccountAuth
  pub symbol : Bytes
  pub precision : ℕ
  pub properties : Option Url
  pub issued : ℤ
  pub supply_limit : Option ℤ

pub record LiteIdentity : Type 0 where
  pub url : Url
  pub credit_balance : ℕ
  pub last_used_on : ℕ

-- `CreditTokens`, `CanDebitTokens` and `DebitTokens` are the same code for both kinds of token
-- account: here they act on the balance. The amount is nil or a number.
unfoldable pub credit_tokens : ℤ → Option ℤ → ℤ × Bool
credit_tokens balance none = (balance, false)
credit_tokens balance (some amount) =
    if is_negative amount then (balance, false) else (balance +ℤ amount, true)

unfoldable pub can_debit_tokens : ℤ → Option ℤ → Bool
can_debit_tokens balance none = false
can_debit_tokens balance (some amount) = leb_ℤ amount balance

unfoldable pub debit_tokens : ℤ → ℤ → ℤ × Bool
unfolding can_debit_tokens
debit_tokens balance amount =
    if can_debit_tokens balance (some amount) then (balance -ℤ amount, true) else (balance, false)

-- `TokenIssuer.Issue`: the issued amount is changed also where the limit is passed.
unfoldable pub within_limit : ℤ → Option ℤ → Bool
within_limit issued none = true
within_limit issued (some limit) = leb_ℤ issued limit

unfoldable pub issue : TokenIssuer → ℤ → TokenIssuer × Bool
unfolding within_limit
issue i amount =
    (record i { issued = i.issued +ℤ amount }, within_limit (i.issued +ℤ amount) i.supply_limit)

-- `CreditCredits`, `CanDebitCredits` and `DebitCredits`, the same code for a lite identity and a
-- key page, on the credit balance. The sum of two uint64 wraps.
unfoldable pub credit_credits : ℕ → ℕ → ℕ
credit_credits balance amount = (balance + amount) % 2 ^ 64

unfoldable pub can_debit_credits : ℕ → ℕ → Bool
can_debit_credits balance amount = leb amount balance

unfoldable pub debit_credits : ℕ → ℕ → ℕ × Bool
unfolding can_debit_credits
debit_credits balance amount =
    if can_debit_credits balance amount then (balance - amount, true) else (balance, false)

-- `LiteTokenAccount.SetLockHeight`
unfoldable pub set_lock_height : LiteTokenAccount → ℕ → Outcome LiteTokenAccount
set_lock_height l v =
    if ltb v l.lock_height
    then err "cannot reduce lockup period"
    else ok (record l { lock_height = v })
