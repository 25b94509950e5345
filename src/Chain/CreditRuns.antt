-- ===== src/Chain/CreditRuns.antt =====
-- Runs of AddCredits and of the deposit of credits.
use accumulate.Common.{ℕ, ◌*◌, ◌/◌, ◌%◌, ◌^◌, ◌≤◌, ◌≡◌, refl, [], ◌∷◌, none, some, false, arith}
use accumulate.Common.Bytes.{Bytes, equal_bytes}
use accumulate.Common.Int.{pos, ◌+ℤ◌, ◌-ℤ◌}
use accumulate.Common.Outcome.{ok, ◌>>=◌}
use accumulate.Url.Parts.{Url, equal}
use accumulate.Protocol.Accounts.{debit_tokens}
use accumulate.Protocol.Lite.{decode_hex, parse_lite_token_key}
use accumulate.Chain.Tokens.{Account, lite_token_account, with_balance}
use accumulate.Chain.Credits.{
  AddCreditsBody, CreditDeposit, acme_url, add_credits, missing, signer_of, credit_signer,
  synthetic_deposit_credits, credits_did_fail,
}
use accumulate.Chain.Credits.Spent.{Spends}
use accumulate.Chain.Credits.Settled.{GoesBack, add_credits-Settles}
use accumulate.Chain.Credits.Rate.{add_credits-Buys}

abbrev plain_sum : Bytes → Bytes
plain_sum s = s

abbrev alice : Url
alice = record { user_info = []; authority = b'a' ∷ []; path = []; query = []; fragment = [] }

abbrev acme : ℕ → Account
acme n =
    lite_token_account
      (record { url = alice; token_url = acme_url; balance = pos n; lock_height = 0 })

abbrev body : ℕ → ℕ → AddCreditsBody
body price n = record { recipient = some alice; amount = pos n; oracle = price }

abbrev deposit : CreditDeposit
deposit = record { to = alice; amount = 150; acme_refund = some (pos 100000); is_refund = false }

spend_runs :
    add_credits plain_sum 50000 (ok (pos 7)) (acme 1000000) (body 50000 300000)
    ≡ ok (acme 700000, pos 200007, deposit)
unfolding add_credits equal equal_bytes debit_tokens with_balance ◌+ℤ◌ parse_lite_token_key ◌-ℤ◌
spend_runs = refl

add_credits-Settles_example :
    Spends 50000 (ok (pos 7)) (acme 1000000) (body 50000 300000) (acme 700000) (pos 200007) deposit
    × (synthetic_deposit_credits plain_sum (ok (pos 9)) alice missing deposit ≡ (
        signer_of plain_sum alice missing >>= λ account.
        ok (credit_signer account 150, pos 9 +ℤ pos 100000)))
    × GoesBack alice (some (pos 100000)) (credits_did_fail alice deposit)
add_credits-Settles_example =
    add_credits-Settles plain_sum 50000 (ok (pos 7)) (acme 1000000) (body 50000 300000)
      (acme 700000) (pos 200007) deposit (pos 9) alice alice missing spend_runs

add_credits-Buys_example :
    (n : ℕ) × ((body 50000 300000).amount ≡ pos n)
    × (150 ≡ ((10000 * 50000) * n / 10 ^ 12) % 2 ^ 64)
    × (99 ≤ (10000 * 50000) * n / 10 ^ 12)
add_credits-Buys_example =
    add_credits-Buys plain_sum 50000 (ok (pos 7)) (acme 1000000) (body 50000 300000) (acme 700000)
      (pos 200007) deposit (omega arith) spend_runs

-- The least amount is rounded down, and buys one credit less than MinimumCreditPurchase.
least_runs :
    add_credits plain_sum 3 (ok (pos 0)) (acme (10 ^ 10)) (body 3 3333333333)
    ≡ ok (
      acme 6666666667,
      pos 3333333333,
      record { to = alice; amount = 99; acme_refund = none; is_refund = false },
    )
unfolding add_credits equal equal_bytes debit_tokens with_balance ◌+ℤ◌ parse_lite_token_key ◌-ℤ◌
least_runs = refl

hex_runs : decode_hex (b'0' ∷ b'f' ∷ b'A' ∷ b'9' ∷ []) ≡ some (15 ∷ 169 ∷ [])
unfolding decode_hex
hex_runs = refl
