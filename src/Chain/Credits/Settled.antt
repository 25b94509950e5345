-- ===== src/Chain/Credits/Settled.antt =====
-- What becomes of the tokens that AddCredits takes.
use accumulate.Common.{
  ℕ, ◌≡◌, ap, refl, inl, inr, Option, none, some, true, false, arith, Option-cases,
}
use accumulate.Common.Bytes.{Bytes}
use accumulate.Common.Int.{ℤ, pos, ◌+ℤ◌, +ℤ_parts, eq_of_parts}
use accumulate.Common.Outcome.{Outcome, ok, ◌>>=◌}
use accumulate.Url.Parts.{Url}
use accumulate.Chain.Tokens.{Account, Deposit}
use accumulate.Chain.Credits.{
  acme_url, AddCreditsBody, CreditDeposit, add_credits, Signer, signer_of, credit_signer,
  burn_refund, synthetic_deposit_credits, credits_did_fail,
}
use accumulate.Chain.Credits.Spent.{or_zero, Spends, add_credits-Spends}

-- What must go back to the source where the deposit of credits fails: nothing, or the refund in ACME, which
-- is not sent back again.
abbrev pub GoesBack : Url → Option ℤ → Option Deposit → Type 0
GoesBack source none sent = sent ≡ none
GoesBack source (some refund) sent =
    (d : Deposit) × (sent ≡ some d)
    × (d.to ≡ source)
    × (d.token ≡ acme_url)
    × (d.amount ≡ refund)
    × (d.is_issuer ≡ false)
    × (d.is_refund ≡ true)

burn_refund-or_zero : (burnt : ℤ) (o : Option ℤ) → burn_refund burnt o ≡ burnt +ℤ or_zero o
unfolding burn_refund
burn_refund-or_zero burnt none =
    eq_of_parts burnt (burnt +ℤ pos 0) (omega (arith, +ℤ_parts burnt (pos 0)))
burn_refund-or_zero burnt (some x) = refl

credits_did_fail-GoesBack :
    (source : Url) (d : CreditDeposit)
    → d.is_refund ≡ false
    → GoesBack source d.acme_refund (credits_did_fail source d)
unfolding credits_did_fail
credits_did_fail-GoesBack source d first = elim (Option-cases d.acme_refund) [
  | inl n ↦ rw (n, credits_did_fail) refl
  | inr (x, n) ↦ rw (n, credits_did_fail, first) (_, refl, refl, refl, refl, refl, refl)
]

-- Where AddCredits succeeds the account, which holds ACME and enough of it, pays the amount. A part of it
-- is burnt in the ledger, and the deposit of the credits carries the rest: where the deposit is executed
-- it credits the signer and burns the rest too, and where it fails the rest goes back to the source, in
-- ACME, and nothing does where there is no rest.
pub add_credits-Settles :
    (sum : Bytes → Bytes) (price : ℕ) (ledger : Outcome ℤ) (a : Account) (body : AddCreditsBody)
    (new : Account) (burnt' : ℤ) (d : CreditDeposit) (now : ℤ) (principal source : Url)
    (signer : Signer)
    → add_credits sum price ledger a body ≡ ok (new, burnt', d)
    → Spends price ledger a body new burnt' d
      × (synthetic_deposit_credits sum (ok now) principal signer d ≡ (
          signer_of sum principal signer >>= λ account.
          ok (credit_signer account d.amount, now +ℤ or_zero d.acme_refund)))
      × GoesBack source d.acme_refund (credits_did_fail source d)
unfolding synthetic_deposit_credits
add_credits-Settles sum price ledger a body new burnt' d now principal source signer e =
    let spent = add_credits-Spends sum price ledger a body new burnt' d e in
    (
      spent,
      ap
          (λ total. signer_of sum principal signer >>= λ account.
            ok (credit_signer account d.amount, total))
          (burn_refund-or_zero now d.acme_refund),
      credits_did_fail-GoesBack source d spent.first_time,
    )
