-- ===== src/Chain/Tokens.antt =====
-- internal/chain: send_tokens.go, issue_tokens.go, burn_tokens.go, synthetic_burn_tokens.go and, into
-- an account that exists, synthetic_deposit_tokens.go. An executor returns the account that it
-- stores and the transactions that it submits. `sum` is the digest of an account's id.
pub mod Amounts
pub mod Conservation
pub mod Supply
pub mod Moves
pub mod Ledger
pub mod Balance
use accumulate.Common.{ℕ, List, [], ◌∷◌, Option, none, some, Bool, true, false}
use Prim.Native.String.{String}
use accumulate.Common.{ltb, ◌==◌, ◌||◌, not, if◌then◌else◌}
use accumulate.Common.Bytes.{Bytes, equal_bytes}
use accumulate.Common.Int.{ℤ, pos, ◌+ℤ◌, ◌-ℤ◌, is_negative}
use accumulate.Common.Outcome.{Outcome, ok, err, ◌>>=◌, ◌>>◌}
use accumulate.Url.Parts.{Url, equal, account_id}
use accumulate.Protocol.Accounts.{
  TokenAccount, LiteTokenAccount, TokenIssuer, credit_tokens, debit_tokens, can_debit_tokens, issue,
}

-- The principal of a transaction.
pub data Account : Type 0 where
  token_account : TokenAccount → Account
  lite_token_account : LiteTokenAccount → Account
  token_issuer : TokenIssuer → Account
  other_account : Account

pub record TokenRecipient : Type 0 where
  pub url : Option Url
  pub amount : ℤ

-- A SyntheticDepositTokens and the account it is sent to.
pub record Deposit : Type 0 where
  pub to : Url
  pub token : Url
  pub amount : ℤ
  pub is_issuer : Bool
  pub is_refund : Bool

-- What the handlers use of the two kinds of token account, AccountWithTokens.
pub record Holding : Type 0 where
  pub token_url : Url
  pub balance : ℤ

unfoldable pub holding : Account → Option Holding
holding (token_account a) = some (record { token_url = a.token_url; balance = a.balance })
holding (lite_token_account a) = some (record { token_url = a.token_url; balance = a.balance })
holding (token_issuer i) = none
holding other_account = none

unfoldable pub with_balance : Account → ℤ → Account
with_balance (token_account a) b = token_account (record a { balance = b })
with_balance (lite_token_account a) b = lite_token_account (record a { balance = b })
with_balance (token_issuer i) b = token_issuer i
with_balance other_account b = other_account

-- `GetLockHeight` of an account that can be locked, and 0 of the others.
unfoldable pub lock_height_of : Account → ℕ
lock_height_of (lite_token_account a) = a.lock_height
lock_height_of (token_account a) = 0
lock_height_of (token_issuer i) = 0
lock_height_of other_account = 0

-- The loop that adds up the amounts.
unfoldable pub total_loop : List TokenRecipient → ℤ → Outcome ℤ
total_loop [] total = ok total
total_loop (r ∷ rs) total =
    if is_negative r.amount
    then err "amount can't be a negative value"
    else total_loop rs (total +ℤ r.amount)

unfoldable pub member : Bytes → List Bytes → Bool
member x [] = false
member x (y ∷ ys) = equal_bytes x y || member x ys

-- The lock of an account in SendTokens: `major` is the index of the last major block, if any.
unfoldable pub check_lock : ℕ → Outcome (Option ℕ) → Outcome (Unit {0})
check_lock height major =
    if height == 0
    then ok tt
    else major >>= λ entry. elim entry [
      | none ↦ err "account is locked until major block %d (currently at 0)"
      | some index ↦
          if ltb index height
          then err "account is locked until major block %d (currently at %d)"
          else ok tt
    ]

unfoldable pub debit_holding : String → Account → Holding → ℤ → Outcome Account
debit_holding message account h amount =
    let (balance, done) = debit_tokens h.balance amount in
    if done then ok (with_balance account balance) else err message

unfoldable pub missing_url : List TokenRecipient → Bool
missing_url [] = false
missing_url (r ∷ rs) = elim r.url [ none ↦ true | some u ↦ missing_url rs ]

-- `Issue` of the total.
unfoldable pub issue_total : TokenIssuer → ℤ → Outcome TokenIssuer
issue_total issuer total =
    let (issued, done) = issue issuer total in
    if done then ok issued else err "cannot exceed supply limit"

unfoldable pub recipients : Option Url → ℤ → List TokenRecipient → List TokenRecipient
recipients none amount to = to
recipients (some u) amount to = record { url = some u; amount = amount } ∷ to

module _ (sum : Bytes → Bytes) where
  -- The loop that submits the deposits; `seen` is the map of ids.
  unfoldable pub submit_loop :
      Url → Bool → List TokenRecipient → List Bytes → Outcome (List Deposit)
  submit_loop token is_issuer [] seen = ok []
  submit_loop token is_issuer (r ∷ rs) seen = elim r.url [
    | none ↦ err "output %d is missing recipient URL"
    | some u ↦
        (let rest = submit_loop token is_issuer rs (account_id sum u ∷ seen) in
          if member (account_id sum u) seen
          then err "duplicate recipient passed in request"
          else rest >>= λ ds. ok (
              record {
                to = u;
                token = token;
                amount = r.amount;
                is_issuer = is_issuer;
                is_refund = false;
              }
              ∷ ds))
  ]

  -- `SendTokens.Validate`
  unfoldable pub send_tokens :
      Outcome (Option ℕ) → Account → List TokenRecipient → Outcome (Account × List Deposit)
  unfolding holding total_loop debit_holding submit_loop check_lock lock_height_of
  send_tokens major account to = elim (holding account) [
    | none ↦ err "invalid principal: want %v or %v, got %v"
    | some h ↦ total_loop to (pos 0) >>= λ total.
        debit_holding "insufficient balance: have %v, want %v" account h total >>= λ debited.
        submit_loop h.token_url false to [] >>= λ deposits.
        check_lock (lock_height_of account) major >> ok (debited, deposits)
  ]

  -- `IssueTokens.Validate`, with the old fields Recipient and Amount of the body.
  unfoldable pub issue_tokens :
      Account → Option Url → ℤ → List TokenRecipient → Outcome (TokenIssuer × List Deposit)
  unfolding total_loop issue_total submit_loop recipients missing_url
  issue_tokens account recipient amount body_to = elim account [
    | token_issuer issuer ↦
        (let to = recipients recipient amount body_to in
          if missing_url to
          then err "recipient URL is missing"
          else total_loop to (pos 0) >>= λ total. issue_total issuer total >>= λ issued.
              submit_loop issuer.url true to [] >>= λ deposits. ok (issued, deposits))
    | _ ↦ err "invalid principal: want chain type %v, got %v"
  ]

-- `BurnTokens.Validate`: the account and the amount of the SyntheticBurnTokens.
unfoldable pub burn_tokens : Account → ℤ → Outcome (Account × ℤ)
unfolding holding debit_holding
burn_tokens account amount = elim (holding account) [
  | none ↦ err "invalid principal: want chain type %v or %v, got %v"
  | some h ↦
      if is_negative amount
      then err "amount can't be a negative value"
      else if not (can_debit_tokens h.balance (some amount))
      then err "cannot burn more tokens than is available in account"
      else debit_holding "unable to debit balance from account" account h amount >>= λ debited.
          ok (debited, amount)
]

-- `SyntheticBurnTokens.Validate`
unfoldable pub synthetic_burn_tokens : Account → ℤ → Outcome TokenIssuer
synthetic_burn_tokens account amount = elim account [
  | token_issuer issuer ↦
      if is_negative amount
      then err "amount can't be a negative value"
      else ok (record issuer { issued = issuer.issued -ℤ amount })
  | _ ↦ err "invalid principal: want chain type %v, got %v"
]

unfoldable pub credit_holding : Account → Holding → ℤ → Outcome Account
credit_holding account h amount =
    let (balance, done) = credit_tokens h.balance (some amount) in
    if done
    then ok (with_balance account balance)
    else err "unable to add deposit balance to account"

-- `SyntheticDepositTokens.Validate` where the principal exists.
unfoldable pub synthetic_deposit_tokens : Account → Deposit → Outcome Account
unfolding holding credit_holding
synthetic_deposit_tokens account body = elim (holding account) [
  | none ↦ err "invalid principal: want account type %v or %v, got %v"
  | some h ↦
      if not (equal h.token_url body.token)
      then err "token type mismatch: want %s, got %s"
      else if is_negative body.amount
      then err "amount can't be a negative value"
      else credit_holding account h body.amount
]

-- What `DidFail` of a deposit produces: a deposit back to `cause`, or a burn of the amount.
pub data Refund : Type 0 where
  nothing : Refund
  burn_back : ℤ → Refund
  deposit_back : Deposit → Refund

unfoldable pub did_fail : Url → Deposit → Refund
did_fail cause body =
    if body.is_refund
    then nothing
    else if body.is_issuer
    then burn_back body.amount
    else deposit_back (record {
      to = cause;
      token = body.token;
      amount = body.amount;
      is_issuer = false;
      is_refund = true;
    })
