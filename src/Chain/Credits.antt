-- ===== src/Chain/Credits.antt =====
-- internal/chain/add_credits.go and synthetic_deposit_credits.go: tokens are burnt for credits, which a
-- second transaction deposits. The ledger is its amount of burnt ACME; to load it may fail.
pub mod Spent
pub mod Settled
pub mod Rate
use accumulate.Common.{
  ℕ, zero, suc, ◌+◌, ◌-◌, ◌*◌, ◌/◌, ◌%◌, ◌^◌, [], ◌∷◌, Option, none, some, Bool, true, false, not,
  ◌==◌, ◌&&◌, ltb, if◌then◌else◌,
}
use accumulate.Common.Bytes.{Bytes}
use accumulate.Common.Int.{ℤ, pos, negsuc, pos_part, neg_part, ◌+ℤ◌, ◌-ℤ◌, leb_ℤ}
use accumulate.Common.Outcome.{Outcome, ok, err, panic, ◌>>=◌}
use accumulate.Url.Parts.{Url, equal, root_identity}
use accumulate.Protocol.Accounts.{LiteIdentity, credit_credits}
use accumulate.Protocol.Keys.{KeyPage}
use accumulate.Protocol.Lite.{parse_lite_identity, parse_lite_token_key}
use accumulate.Chain.Tokens.{Account, Holding, holding, Deposit, debit_holding}

pub record AddCreditsBody : Type 0 where
  pub recipient : Option Url
  pub amount : ℤ
  pub oracle : ℕ

-- A SyntheticDepositCredits and the account it is sent to.
pub record CreditDeposit : Type 0 where
  pub to : Url
  pub amount : ℕ
  pub acme_refund : Option ℤ
  pub is_refund : Bool

abbrev pub acme_url : Url
acme_url = record {
  user_info = [];
  authority = b'A' ∷ b'C' ∷ b'M' ∷ b'E' ∷ [];
  path = [];
  query = [];
  fragment = [];
}

-- `int64(CreditUnitsPerFiatUnit * price)` of a uint64 price.
unfoldable pub credit_rate : ℕ → ℤ
credit_rate price =
    let bits = (10000 * price) % 2 ^ 64 in
    if ltb bits (2 ^ 63) then pos bits else negsuc (2 ^ 64 - bits - 1)

-- big.Int's Div of a natural number, which rounds so that the remainder is not negative. To divide by 0
-- is a panic.
unfoldable pub div_by : ℕ → ℤ → Outcome ℤ
div_by a (pos zero) = panic
div_by a (pos (suc n)) = ok (pos (a / suc n))
div_by a (negsuc n) = ok (pos 0 -ℤ pos (a / suc n))

-- big.Int's Div by a positive number.
unfoldable pub div_pos : ℤ → ℕ → ℤ
div_pos (pos a) n = pos (a / n)
div_pos (negsuc a) n = negsuc (a / n)

unfoldable pub scale : ℤ → ℕ → ℤ
scale (pos a) n = pos (a * n)
scale (negsuc a) n = pos 0 -ℤ pos (suc a * n)

-- big.Int's Uint64, the low bits of the absolute value; Int64 is 0 for the same numbers.
unfoldable pub low_64 : ℤ → ℕ
low_64 x = (pos_part x + neg_part x) % 2 ^ 64

-- `minSpend`: MinimumCreditPurchase * AcmeOraclePrecision * AcmePrecision over the rate.
unfoldable pub min_spend : ℕ → Outcome ℤ
unfolding div_by credit_rate
min_spend price = div_by (100 * 10000 * 10 ^ 8) (credit_rate price)

-- The credits of an amount that is not negative.
unfoldable pub credits_of : ℕ → ℤ → ℤ
unfolding div_pos scale credit_rate
credits_of price amount = div_pos (scale (credit_rate price) (pos_part amount)) (10000 * 10 ^ 8)

module _ (sum : Bytes → Bytes) where
  -- A lite token account is turned into its lite identity.
  unfoldable pub credit_recipient : Url → Url
  credit_recipient u = elim (parse_lite_token_key sum u) [
    | ok (some key) ↦ root_identity u
    | ok none ↦ u
    | err e ↦ u
    | panic ↦ u
  ]

  unfoldable pub deposit_of : ℕ → ℤ → Url → ℤ → CreditDeposit
  unfolding credits_of low_64 credit_recipient
  deposit_of price least recipient amount = record {
    to = credit_recipient recipient;
    amount = low_64 (credits_of price amount);
    acme_refund = if not (leb_ℤ amount least) then some (amount -ℤ least) else none;
    is_refund = false;
  }

  -- `AddCredits.Validate` from the debit on: the account, the burnt ACME and the deposit.
  unfoldable pub spend :
      ℕ → Outcome ℤ → Account → Holding → Url → ℤ → ℤ → Outcome (Account × ℤ × CreditDeposit)
  unfolding debit_holding deposit_of
  spend price ledger account h recipient amount least =
      debit_holding "insufficient balance: have %v, want %v" account h amount >>= λ debited.
      ledger >>= λ burnt. ok (debited, burnt +ℤ least, deposit_of price least recipient amount)

  -- `AddCredits.Validate` from the choice of the account on.
  unfoldable pub from_holding :
      ℕ → Outcome ℤ → Account → Url → ℤ → ℤ → Outcome (Account × ℤ × CreditDeposit)
  unfolding spend holding
  from_holding price ledger account recipient amount least = elim (holding account) [
    | none ↦ err "not a token account: %q"
    | some h ↦
        if not (equal acme_url h.token_url)
        then err "%q tokens cannot be converted into credits"
        else spend price ledger account h recipient amount least
  ]

  -- `AddCredits.Validate`
  unfoldable pub add_credits :
      ℕ → Outcome ℤ → Account → AddCreditsBody → Outcome (Account × ℤ × CreditDeposit)
  unfolding from_holding min_spend
  add_credits price ledger account body = elim body.recipient [
    | none ↦ err "invalid payload: missing recipient"
    | some recipient ↦
        if leb_ℤ body.amount (pos 0)
        then err "invalid ACME amount specified for credit purchase, must be greater than zero"
        else if body.oracle == 0
        then err "cannot purchase credits, transaction oracle must be greater than zero"
        else if price == 0
        then err "cannot purchase credits: acme oracle price has not been set"
        else if not (body.oracle == price)
        then err "oracle doesn't match"
        else (min_spend price >>= λ least.
            if not (leb_ℤ least body.amount)
            then err "amount is less than minimum"
            else if low_64 (credits_of price body.amount) == 0
            then err "no credits can be purchased with specified ACME amount %v"
            else from_holding price ledger account recipient body.amount least)
  ]

-- The principal of a deposit of credits; `missing` is nil.
pub data Signer : Type 0 where
  missing : Signer
  lite_identity : LiteIdentity → Signer
  key_page : KeyPage → Signer
  other_signer : Signer

-- The ledger after a deposit.
unfoldable pub burn_refund : ℤ → Option ℤ → ℤ
burn_refund burnt none = burnt
burn_refund burnt (some refund) = burnt +ℤ refund

module _ (sum : Bytes → Bytes) where
  -- The account that takes the credits: a new lite identity where there is none.
  unfoldable pub signer_of : Url → Signer → Outcome Signer
  signer_of principal missing = elim (parse_lite_identity sum principal) [
    | ok (some key) ↦
        ok (lite_identity (record { url = principal; credit_balance = 0; last_used_on = 0 }))
    | ok none ↦ err "%v not found"
    | err e ↦ err "%v not found"
    | panic ↦ panic
  ]
  signer_of principal (lite_identity l) = ok (lite_identity l)
  signer_of principal (key_page p) = ok (key_page p)
  signer_of principal other_signer = err "invalid principal: want account type %v or %v, got %v"

unfoldable pub credit_signer : Signer → ℕ → Signer
credit_signer missing n = missing
credit_signer (lite_identity l) n =
    lite_identity (record l { credit_balance = credit_credits l.credit_balance n })
credit_signer (key_page p) n =
    key_page (record p { credit_balance = credit_credits p.credit_balance n })
credit_signer other_signer n = other_signer

-- `SyntheticDepositCredits.Validate`: the signer and the burnt ACME.
unfoldable pub synthetic_deposit_credits :
    (Bytes → Bytes) → Outcome ℤ → Url → Signer → CreditDeposit → Outcome (Signer × ℤ)
unfolding signer_of credit_signer burn_refund
synthetic_deposit_credits sum ledger principal signer body =
    signer_of sum principal signer >>= λ account.
    ledger >>= λ burnt. ok (credit_signer account body.amount, burn_refund burnt body.acme_refund)

-- `DidFail`: the deposit of tokens that goes back to the source.
unfoldable pub credits_did_fail : Url → CreditDeposit → Option Deposit
credits_did_fail source body = elim body.acme_refund [
  | none ↦ none
  | some refund ↦
      if body.is_refund
      then none
      else some (record {
        to = source;
        token = acme_url;
        amount = refund;
        is_issuer = false;
        is_refund = true;
      })
]
