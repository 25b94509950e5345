-- ===== src/Chain/Credits/Spent.antt =====
-- The tokens that AddCredits takes are burnt, or sent back.
use accumulate.Common.{
  ℕ, ◌<◌, ◌≡◌, refl, inl, inr, Option, none, some, Bool, true, false, not, ◌==◌, if◌then◌else◌,
  arith, Bool-cases, Option-cases,
}
use accumulate.Common.Bytes.{Bytes}
use accumulate.Common.Int.{ℤ, pos, ◌+ℤ◌, ◌-ℤ◌, ◌≤ℤ◌, leb_ℤ, +ℤ_parts, -ℤ_parts, eq_of_parts}
use accumulate.Common.Outcome.{Outcome, ok, >>=-ok, ok-subst, not_failed}
use accumulate.Url.Parts.{Url, equal}
use accumulate.Chain.Tokens.{Account, Holding, holding, debit_holding}
use accumulate.Chain.Tokens.Conservation.{NowHolds, debit_holding-NowHolds}
use accumulate.Chain.Credits.{
  AddCreditsBody, CreditDeposit, acme_url, min_spend, credits_of, low_64, deposit_of, spend,
  from_holding, add_credits,
}

-- The part of the amount that may come back.
abbrev pub or_zero : Option ℤ → ℤ
or_zero none = pos 0
or_zero (some x) = x

-- What AddCredits has done: the account holds ACME and has paid the amount, which is burnt now or may
-- come back.
pub record Spends (price : ℕ) (ledger : Outcome ℤ) (a : Account) (body : AddCreditsBody)
    (new : Account) (burnt' : ℤ) (d : CreditDeposit) : Type 0 where
  pub before : Holding
  pub least : ℤ
  pub burnt : ℤ
  pub held : holding a ≡ some before
  pub acme : equal acme_url before.token_url ≡ true
  pub pays : NowHolds new before.token_url (before.balance -ℤ body.amount)
  pub solvent : body.amount ≤ℤ before.balance
  pub ledger_loads : ledger ≡ ok burnt
  pub splits : burnt' +ℤ or_zero d.acme_refund ≡ burnt +ℤ body.amount
  pub refund_positive : pos 0 ≤ℤ or_zero d.acme_refund
  pub least_eq : min_spend price ≡ ok least
  pub least_le : least ≤ℤ body.amount
  pub credits : d.amount ≡ low_64 (credits_of price body.amount)
  pub some_credits : 0 < d.amount
  pub first_time : d.is_refund ≡ false

-- The amount at least, and the refund, are the amount.
least_and_refund :
    (burnt least amount : ℤ)
    → least ≤ℤ amount
    → ((burnt +ℤ least)
          +ℤ or_zero (if not (leb_ℤ amount least) then some (amount -ℤ least) else none)
        ≡ burnt +ℤ amount)
      × (pos 0 ≤ℤ or_zero (if not (leb_ℤ amount least) then some (amount -ℤ least) else none))
least_and_refund burnt least amount enough = elim (Bool-cases (leb_ℤ amount least)) [
  | inl t ↦
      let at_most : amount ≤ℤ least = ground (arith, t) in
      rw t (
        eq_of_parts _ _ (
            omega (
              arith,
              at_most,
              enough,
              +ℤ_parts burnt least,
              +ℤ_parts (burnt +ℤ least) (pos 0),
              +ℤ_parts burnt amount,
            )),
        omega arith,
      )
  | inr f ↦ rw f (
    eq_of_parts _ _ (
        omega (
          arith,
          enough,
          +ℤ_parts burnt least,
          +ℤ_parts (burnt +ℤ least) (amount -ℤ least),
          +ℤ_parts burnt amount,
          -ℤ_parts amount least,
        )),
    omega (arith, enough, -ℤ_parts amount least),
  )
]

true_of_not : (b : Bool) → not b ≡ false → b ≡ true
true_of_not true e = refl
true_of_not false e = cc e

le_of_not_less : (x y : ℤ) → not (leb_ℤ x y) ≡ false → x ≤ℤ y
le_of_not_less x y e = let t = true_of_not _ e in ground (arith, t)

module _ (sum : Bytes → Bytes) (price : ℕ) (ledger : Outcome ℤ) (a : Account)
    (body : AddCreditsBody) (new : Account) (burnt' : ℤ) (d : CreditDeposit) where
  spend-Spends :
      (h : Holding) (recipient : Url) (least : ℤ)
      → holding a ≡ some h
      → equal acme_url h.token_url ≡ true
      → min_spend price ≡ ok least
      → least ≤ℤ body.amount
      → (low_64 (credits_of price body.amount) == 0) ≡ false
      → spend sum price ledger a h recipient body.amount least ≡ ok (new, burnt', d)
      → Spends price ledger a body new burnt' d
  unfolding spend deposit_of
  spend-Spends h recipient least held acme least_eq enough some_ e =
      let (debited, debits, r₁) = >>=-ok _ (debit_holding _ a h body.amount) (new, burnt', d) e in
      let (burnt, loaded, done) = >>=-ok _ ledger (new, burnt', d) r₁ in
      let (pays, solvent) = debit_holding-NowHolds _ a debited h body.amount held debits in
      let (splits, positive) = least_and_refund burnt least body.amount enough in
      ok-subst (λ x. Spends price ledger a body x.0 x.1 x.2) done
        (record {
          before = h;
          least = least;
          burnt = burnt;
          held = held;
          acme = acme;
          pays = pays;
          solvent = solvent;
          ledger_loads = loaded;
          splits = splits;
          refund_positive = positive;
          least_eq = least_eq;
          least_le = enough;
          credits = refl;
          some_credits = ground (arith, some_);
          first_time = refl;
        })

  from_holding-Spends :
      (recipient : Url) (least : ℤ)
      → min_spend price ≡ ok least
      → least ≤ℤ body.amount
      → (low_64 (credits_of price body.amount) == 0) ≡ false
      → from_holding sum price ledger a recipient body.amount least ≡ ok (new, burnt', d)
      → Spends price ledger a body new burnt' d
  unfolding from_holding
  from_holding-Spends recipient least least_eq enough some_ e = elim (Option-cases (holding a)) [
    | inl none_ ↦ absurd (cc (rw (from_holding, none_) at e))
    | inr (h, held) ↦
        let (acme, spent) =
          not_failed (not (equal acme_url h.token_url)) _ _ _ (rw (from_holding, held) at e) in
        spend-Spends h recipient least held (true_of_not _ acme) least_eq enough some_ spent
  ]

  pub add_credits-Spends :
      add_credits sum price ledger a body ≡ ok (new, burnt', d)
      → Spends price ledger a body new burnt' d
  unfolding add_credits
  add_credits-Spends e = elim (Option-cases body.recipient) [
    | inl n ↦ absurd (cc (rw (add_credits, n) at e))
    | inr (u, n) ↦
        let (z₁, e₁) = not_failed (leb_ℤ body.amount (pos 0)) _ _ _ (rw (add_credits, n) at e) in
        let (z₂, e₂) = not_failed (body.oracle == 0) _ _ _ e₁ in
        let (z₃, e₃) = not_failed (price == 0) _ _ _ e₂ in
        let (z₄, e₄) = not_failed (not (body.oracle == price)) _ _ _ e₃ in
        let (least, least_eq, e₅) = >>=-ok _ (min_spend price) (new, burnt', d) e₄ in
        let (low, e₆) = not_failed (not (leb_ℤ least body.amount)) _ _ _ e₅ in
        let (some_, e₇) = not_failed (low_64 (credits_of price body.amount) == 0) _ _ _ e₆ in
        from_holding-Spends u least least_eq (le_of_not_less least body.amount low) some_ e₇
  ]
