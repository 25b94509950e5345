-- ===== src/Chain/Tokens/Supply.antt =====
-- The other handlers of tokens: issue, burn and deposit.
use accumulate.Common.{◌≡◌, refl, ap, arith, ◌∙◌, sym, inl, inr}
use accumulate.Common.{List, [], Option, true, false, Bool-cases}
use accumulate.Common.{Option-cases}
use accumulate.Common.Bytes.{Bytes}
use accumulate.Common.Int.{
  ℤ, pos, ◌+ℤ◌, ◌-ℤ◌, ◌≤ℤ◌, is_negative, pos_part, neg_part, +ℤ_parts, eq_of_parts, leb_ℤ,
}
use accumulate.Common.Outcome.{ok, ◌>>=◌, >>=-ok, ok-subst}
use accumulate.Url.Parts.{Url, equal}
use accumulate.Protocol.Accounts.{TokenIssuer, can_debit_tokens, credit_tokens, issue, within_limit}
use accumulate.Chain.Tokens.{
  Account, TokenRecipient, Deposit, holding, token_account, lite_token_account, token_issuer,
  other_account, total_loop, debit_holding, submit_loop, credit_holding, burn_tokens,
  synthetic_deposit_tokens, issue_tokens, issue_total, recipients, missing_url,
}
use accumulate.Chain.Tokens.Amounts.{
  sum_amounts, wanted, deposited, NoneNegative, total_loop-sum_amounts, Submits,
  submit_loop-Submits,
}
use accumulate.Chain.Tokens.Conservation.{NowHolds, holding-with_balance, debit_holding-NowHolds}

-- The balance of an account changes from `old` to `new` and its token stays.
pub record Changes (a b : Account) (old new : ℤ) : Type 0 where
  pub token : Url
  pub held : NowHolds a token old
  pub holds : NowHolds b token new

-- BurnTokens takes the amount off a balance that has it, and submits that amount.
abbrev pub Burns : Account → ℤ → Account × ℤ → Type 0
Burns a amount (b, burnt) =
    (burnt ≡ amount)
    × (is_negative amount ≡ false)
    × ((old : ℤ) × (amount ≤ℤ old) × Changes a b old (old -ℤ amount))

-- Where BurnTokens succeeds the amount is not negative, is taken off a balance that has it, and is
-- what is submitted to the issuer.
pub burn_tokens-Burns :
    (a : Account) (amount : ℤ) (r : Account × ℤ) → burn_tokens a amount ≡ ok r → Burns a amount r
unfolding burn_tokens can_debit_tokens
burn_tokens-Burns a amount r e = elim (Option-cases (holding a)) [
  | inl n ↦ absurd (cc (rw (n, burn_tokens) at e))
  | inr (h, n) ↦ elim (Bool-cases (is_negative amount)) [
    | inl m ↦ absurd (cc (rw (n, m, burn_tokens) at e))
    | inr m ↦ elim (Bool-cases (leb_ℤ amount h.balance)) [
      | inr l ↦ absurd (cc (rw (n, m, l, burn_tokens) at e))
      | inl l ↦
          (let (debited, debits, done) =
              >>=-ok _ (debit_holding _ a h amount) r (rw (n, m, l, burn_tokens) at e) in
            let (holds, enough) = debit_holding-NowHolds _ a debited h amount n debits in
            ok-subst (Burns a amount) done (
              refl,
              m,
              (h.balance, enough, record { token = h.token_url; held = n; holds = holds }),
            ))
    ]
  ]
]

-- A deposit adds its amount, in the token of the account.
abbrev pub Credits : Account → Deposit → Account → Type 0
Credits a d b =
    (is_negative d.amount ≡ false)
    × ((old : ℤ) × (c : Changes a b old (old +ℤ d.amount)) × (equal c.token d.token ≡ true))

-- Where SyntheticDepositTokens succeeds on an account, the account has the token of the deposit, and
-- its balance grows by the amount, which is not negative.
pub synthetic_deposit_tokens-Credits :
    (a b : Account) (d : Deposit) → synthetic_deposit_tokens a d ≡ ok b → Credits a d b
unfolding synthetic_deposit_tokens credit_holding credit_tokens
synthetic_deposit_tokens-Credits a b d e = elim (Option-cases (holding a)) [
  | inl n ↦ absurd (cc (rw (n, synthetic_deposit_tokens) at e))
  | inr (h, n) ↦ elim (Bool-cases (equal h.token_url d.token)) [
    | inr t ↦ absurd (cc (rw (n, t, synthetic_deposit_tokens) at e))
    | inl t ↦ elim (Bool-cases (is_negative d.amount)) [
      | inl m ↦ absurd (cc (rw (n, t, m, synthetic_deposit_tokens) at e))
      | inr m ↦
          ok-subst (Credits a d) (rw (n, t, m, synthetic_deposit_tokens, credit_holding) at e) (
            m,
            (
              h.balance,
              record {
                token = h.token_url;
                held = n;
                holds = holding-with_balance a h (h.balance +ℤ d.amount) n;
              },
              t,
            ),
          )
    ]
  ]
]

-- IssueTokens counts what it deposits as issued, within the supply limit.
abbrev pub Issues :
    (Bytes → Bytes) → Account → List TokenRecipient → TokenIssuer × List Deposit → Type 0
Issues sum a to (new, ds) =
    (issuer : TokenIssuer) × (a ≡ token_issuer issuer)
    × (new ≡ record issuer { issued = issuer.issued +ℤ sum_amounts (deposited ds) })
    × (within_limit new.issued new.supply_limit ≡ true)
    × NoneNegative (deposited ds)
    × Submits sum issuer.url true to [] ds

issue_total-ok :
    (i new : TokenIssuer) (total : ℤ)
    → issue_total i total ≡ ok new
    → (new ≡ record i { issued = i.issued +ℤ total })
      × (within_limit new.issued new.supply_limit ≡ true)
unfolding issue_total issue
issue_total-ok i new total e = elim (Bool-cases (within_limit (i.issued +ℤ total) i.supply_limit)) [
  | inr w ↦ absurd (cc (rw (w, issue_total, issue) at e))
  | inl w ↦
      ok-subst
        (λ x.
          (x ≡ record i { issued = i.issued +ℤ total })
          × (within_limit x.issued x.supply_limit ≡ true))
        (rw (w, issue_total, issue) at e) (refl, w)
]

issue_recipients :
    (sum : Bytes → Bytes) (i : TokenIssuer) (to : List TokenRecipient)
    (r : TokenIssuer × List Deposit)
    → (total_loop to (pos 0) >>= λ total. issue_total i total >>= λ issued.
        submit_loop sum i.url true to [] >>= λ deposits. ok (issued, deposits))
      ≡ ok r
    → Issues sum (token_issuer i) to r
issue_recipients sum i to r e =
    let (total, totals, r₁) = >>=-ok _ (total_loop to (pos 0)) r e in
    let (issued, issues, r₂) = >>=-ok _ (issue_total i total) r r₁ in
    let (deposits, submitted, done) = >>=-ok _ (submit_loop sum i.url true to []) r r₂ in
    let (sums, none_) = total_loop-sum_amounts to (pos 0) total totals in
    let (made, within) = issue_total-ok i issued total issues in
    let s = submit_loop-Submits sum i.url true to [] deposits submitted in
    let amount : total ≡ sum_amounts (deposited deposits) =
      total_sum (wanted to) total sums ∙ ap sum_amounts (sym s.amounts) in
    ok-subst (Issues sum (token_issuer i) to) done (
      i,
      refl,
      made ∙ ap (λ x. record i { issued = i.issued +ℤ x }) amount,
      within,
      rw s.amounts none_,
      s,
    )
  where
    total_sum : (xs : List ℤ) (total : ℤ) → total ≡ pos 0 +ℤ sum_amounts xs → total ≡ sum_amounts xs
    total_sum xs total sums =
        eq_of_parts total (sum_amounts xs)
          (omega (arith, +ℤ_parts (pos 0) (sum_amounts xs), ap pos_part sums, ap neg_part sums))

-- Where IssueTokens succeeds the issued amount grows by what is deposited, stays within the supply
-- limit, and there is one deposit to each recipient, none negative and no two to one account.
pub issue_tokens-Issues :
    (sum : Bytes → Bytes) (a : Account) (recipient : Option Url) (amount : ℤ)
    (to : List TokenRecipient) (r : TokenIssuer × List Deposit)
    → issue_tokens sum a recipient amount to ≡ ok r
    → Issues sum a (recipients recipient amount to) r
unfolding issue_tokens
issue_tokens-Issues sum (token_account a) recipient amount to r e = cc
issue_tokens-Issues sum (lite_token_account a) recipient amount to r e = cc
issue_tokens-Issues sum other_account recipient amount to r e = cc
issue_tokens-Issues sum (token_issuer i) recipient amount to r e =
    elim (Bool-cases (missing_url (recipients recipient amount to))) [
      | inl m ↦ absurd (cc (rw (m, issue_tokens) at e))
      | inr m ↦
          issue_recipients sum i (recipients recipient amount to) r (rw (m, issue_tokens) at e)
    ]
