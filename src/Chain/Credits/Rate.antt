-- ===== src/Chain/Credits/Rate.antt =====
-- What AddCredits gives for the tokens.
use accumulate.Common.{
  ℕ, zero, suc, ◌*◌, ◌/◌, ◌%◌, ◌^◌, ◌≤◌, ◌<◌, ◌≡◌, ◌∙◌, ap, refl, inl, inr, true, ◌==◌, ltb, arith,
  Bool-cases,
}
use mathlib.Core.Path.{subst}
use native.Mathlib.Nat.{mod-lt, div-add-mod'}
use accumulate.Common.Bytes.{Bytes}
use accumulate.Common.Int.{ℤ, pos, negsuc, ◌≤ℤ◌}
use accumulate.Common.Outcome.{Outcome, ok}
use accumulate.Chain.Tokens.{Account}
use accumulate.Chain.Credits.{
  AddCreditsBody, CreditDeposit, credit_rate, div_by, div_pos, scale, low_64, min_spend, credits_of,
  add_credits,
}
use accumulate.Chain.Credits.Spent.{add_credits-Spends}

div_by-pos : (a s : ℕ) → 0 < s → div_by a (pos s) ≡ ok (pos (a / s))
unfolding div_by
div_by-pos a zero h = absurd (omega arith)
div_by-pos a (suc s) h = refl

credit_rate-pos : (price : ℕ) → price < 10 ^ 8 → credit_rate price ≡ pos (10000 * price)
unfolding credit_rate
credit_rate-pos price h =
    let bits : (10000 * price) % 2 ^ 64 ≡ 10000 * price = omega arith in
    let small : ltb (10000 * price) (2 ^ 63) ≡ true = ground arith in rw (bits, small) refl

-- The least amount at a rate buys at least 99 credits.
worth : (s n : ℕ) → 0 < s → s < 10 ^ 12 → 10 ^ 14 / s ≤ n → 99 ≤ (s * n) / 10 ^ 12
worth s n pos_ small enough =
    let q = 10 ^ 14 / s in
    let rem = mod-lt (10 ^ 14) {m = s} pos_ in
    let whole = div-add-mod' (10 ^ 14) s in
    let more : q * s ≤ s * n = grind (arith, enough) in omega (arith, more, whole, rem, small)

priced :
    (price : ℕ) (least : ℤ)
    → price < 10 ^ 8
    → min_spend price ≡ ok least
    → (0 < price) × (least ≡ pos (10 ^ 14 / (10000 * price)))
unfolding min_spend div_by
priced price least small e = elim (Bool-cases (price == 0)) [
  | inl z ↦
      let none_ : price ≡ 0 = ground (arith, z) in
      let free : credit_rate price ≡ pos 0 =
        credit_rate-pos price small ∙ ap pos (omega (arith, none_)) in
      absurd (cc (rw (min_spend, free) at e))
  | inr z ↦
      let some_ : 0 < price = ground (arith, z) in
      let at : min_spend price ≡ ok (pos (10 ^ 14 / (10000 * price))) =
        ap (div_by (10 ^ 14)) (credit_rate-pos price small)
        ∙ div_by-pos (10 ^ 14) (10000 * price) (omega (arith, some_)) in
      (some_, cc (at, e))
]

enough_is_pos : (k : ℕ) (amount : ℤ) → pos k ≤ℤ amount → (n : ℕ) × (amount ≡ pos n) × (k ≤ n)
enough_is_pos k (pos n) h = (n, refl, omega (arith, h))
enough_is_pos k (negsuc n) h = absurd (omega (arith, h))

-- Where AddCredits succeeds at a price below 10^8, the deposit has the credits that the amount is worth at
-- the price, rounded down, in 64 bits, and before they are cut to 64 bits these are 99 at least.
pub add_credits-Buys :
    (sum : Bytes → Bytes) (price : ℕ) (ledger : Outcome ℤ) (a : Account) (body : AddCreditsBody)
    (new : Account) (burnt' : ℤ) (d : CreditDeposit)
    → price < 10 ^ 8
    → add_credits sum price ledger a body ≡ ok (new, burnt', d)
    → (n : ℕ) × (body.amount ≡ pos n)
      × (d.amount ≡ ((10000 * price) * n / 10 ^ 12) % 2 ^ 64)
      × (99 ≤ (10000 * price) * n / 10 ^ 12)
unfolding credits_of div_pos scale low_64
add_credits-Buys sum price ledger a body new burnt' d small e =
    let s = add_credits-Spends sum price ledger a body new burnt' d e in
    let (some_, least) = priced price s.least small s.least_eq in
    let (n, amount, enough) =
      enough_is_pos (10 ^ 14 / (10000 * price)) body.amount
        (subst (λ x. x ≤ℤ body.amount) least s.least_le) in
    let value : credits_of price body.amount ≡ pos ((10000 * price) * n / 10 ^ 12) =
      ap (credits_of price) amount
      ∙ ap (λ r. div_pos (scale r n) (10000 * 10 ^ 8)) (credit_rate-pos price small) in
    let credits : d.amount ≡ ((10000 * price) * n / 10 ^ 12) % 2 ^ 64 =
      s.credits ∙ ap low_64 value ∙ ap (λ x. x % 2 ^ 64) (omega arith) in
    (
      n,
      amount,
      credits,
      worth (10000 * price) n (omega (arith, some_)) (omega (arith, small)) enough,
    )
