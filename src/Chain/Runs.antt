-- ===== src/Chain/Runs.antt =====
-- Runs of the executors of tokens.
use accumulate.Protocol.Auth.{get_authority}
use accumulate.Sorted.Search.{search}
use accumulate.Url.Parts.{compare}
use accumulate.Common.Bytes.{compare_bytes}
use accumulate.Common.{Bool, ℕ, ◌≤◌, ◌≡◌, arith, refl, List, [], ◌∷◌, none, some, true, false}
use accumulate.Common.Bytes.{Bytes, equal_bytes}
use accumulate.Common.Int.{pos, ◌+ℤ◌, ◌-ℤ◌}
use accumulate.Common.Outcome.{ok}
use accumulate.Url.Parts.{Url, account_id, equal}
use accumulate.Protocol.Accounts.{
  AccountAuth, TokenIssuer, debit_tokens, can_debit_tokens, credit_tokens, issue,
}
use accumulate.Chain.Tokens.{
  Account, TokenRecipient, Deposit, lite_token_account, token_issuer, send_tokens, burn_tokens,
  synthetic_deposit_tokens, issue_tokens, member, with_balance, holding, lock_height_of,
}
use accumulate.Chain.Tokens.Conservation.{Sends, send_tokens-Sends}
use accumulate.Chain.Tokens.Ledger.{Ledger, balance_of, Balanced, burn, Reaches, done, next}
use accumulate.Chain.AccountAuth.{disable, validate_update_account_auth}
use accumulate.Chain.AccountAuth.Ordered.{IsAuth, validate_update_account_auth-IsAuth}
use accumulate.Chain.Tokens.Balance.{Reaches-Balanced}
use accumulate.Protocol.Accounts.{set_lock_height}
use accumulate.Chain.Locks.{
  lock_account, EarlySteps, EarlyStep, StaysLocked, EarlySteps-StaysLocked,
}

abbrev named : ℕ → Url
named c = record { user_info = []; authority = c ∷ []; path = []; query = []; fragment = [] }

abbrev lite : ℕ → Account
lite n =
    lite_token_account
      (record { url = named b'a'; token_url = named b't'; balance = pos n; lock_height = 2 })

abbrev plain_sum : Bytes → Bytes
plain_sum s = s

abbrev to_b : List TokenRecipient
to_b = record { url = some (named b'b'); amount = pos 3 } ∷ []

abbrev paid : Deposit
paid = record {
  to = named b'b';
  token = named b't';
  amount = pos 3;
  is_issuer = false;
  is_refund = false;
}

send_runs : send_tokens plain_sum (ok (some 5)) (lite 10) to_b ≡ ok (lite 7, paid ∷ [])
unfolding send_tokens account_id debit_tokens ◌+ℤ◌ member with_balance ◌-ℤ◌
send_runs = refl

send_tokens-Sends_example : Sends plain_sum (ok (some 5)) (lite 10) to_b (lite 7) (paid ∷ [])
send_tokens-Sends_example =
    send_tokens-Sends plain_sum (ok (some 5)) (lite 10) (lite 7) to_b (paid ∷ []) send_runs

burn_runs : burn_tokens (lite 10) (pos 4) ≡ ok (lite 6, pos 4)
unfolding burn_tokens can_debit_tokens debit_tokens with_balance ◌-ℤ◌
burn_runs = refl

deposit_runs : synthetic_deposit_tokens (lite 7) paid ≡ ok (lite 10)
unfolding synthetic_deposit_tokens equal equal_bytes credit_tokens with_balance ◌+ℤ◌
deposit_runs = refl

abbrev issuer : ℕ → TokenIssuer
issuer n = record {
  url = named b't';
  auth = record { authorities = [] };
  symbol = b'T' ∷ [];
  precision = 8;
  properties = none;
  issued = pos n;
  supply_limit = some (pos 20);
}

abbrev issued_to_b : Deposit
issued_to_b = record paid { is_issuer = true }

issue_runs :
    issue_tokens plain_sum (token_issuer (issuer 10)) none (pos 0) to_b
    ≡ ok (issuer 13, issued_to_b ∷ [])
unfolding issue_tokens account_id issue ◌+ℤ◌ member
issue_runs = refl

abbrev before_burn : Ledger
before_burn = record { issuer = issuer 10; accounts = lite 10 ∷ []; deposits = []; burns = [] }

abbrev after_burn : Ledger
after_burn = record before_burn { accounts = lite 6 ∷ []; burns = pos 4 ∷ [] }

before_burn-Balanced : Balanced before_burn
unfolding ◌+ℤ◌ balance_of holding
before_burn-Balanced = refl

burnt : Reaches plain_sum before_burn after_burn
burnt =
    next before_burn after_burn after_burn
      (burn before_burn [] [] (lite 10) (lite 6) (pos 4) (pos 4) refl burn_runs) (done after_burn)

Reaches-Balanced_example : Balanced after_burn
Reaches-Balanced_example =
    Reaches-Balanced plain_sum before_burn after_burn burnt before_burn-Balanced

abbrev governed_by : ℕ → Bool → AccountAuth
governed_by c disabled = record { authorities = record { url = named c; disabled = disabled } ∷ [] }

disable_runs :
    validate_update_account_auth
      (λ u. ok tt)
      (named b'a')
      (governed_by b'b' false)
      (disable (some (named b'b')) ∷ [])
    ≡ ok (governed_by b'b' true)
unfolding validate_update_account_auth get_authority search compare compare_bytes
disable_runs = refl

governed_by-IsAuth : IsAuth (governed_by b'b' false)
governed_by-IsAuth = record { ordered = (tt, tt); governed = λ e. cc }

validate_update_account_auth-IsAuth_example : IsAuth (governed_by b'b' true)
validate_update_account_auth-IsAuth_example =
    validate_update_account_auth-IsAuth (λ u. ok tt) (named b'a') (governed_by b'b' false)
      (governed_by b'b' true) (disable (some (named b'b')) ∷ []) governed_by-IsAuth disable_runs

abbrev locked_until_6 : Account
locked_until_6 =
    lite_token_account
      (record { url = named b'a'; token_url = named b't'; balance = pos 10; lock_height = 6 })

lock_runs : lock_account (lite 10) 6 ≡ ok locked_until_6
unfolding lock_account set_lock_height
lock_runs = refl

locked_steps : EarlySteps plain_sum 2 (lite 7) locked_until_6
locked_steps =
    EarlySteps.next (lite 7) (lite 10) locked_until_6
      (EarlyStep.deposit (lite 7) (lite 10) paid deposit_runs)
      (EarlySteps.next (lite 10) locked_until_6 locked_until_6
        (EarlyStep.lock (lite 10) locked_until_6 6 lock_runs) (EarlySteps.done locked_until_6))

lite-locked : 2 ≤ lock_height_of (lite 7)
unfolding lock_height_of
lite-locked = omega arith

EarlySteps-StaysLocked_example : StaysLocked 2 (lite 7) locked_until_6
EarlySteps-StaysLocked_example =
    EarlySteps-StaysLocked plain_sum 2 (omega arith) (lite 7) locked_until_6 locked_steps
      lite-locked
