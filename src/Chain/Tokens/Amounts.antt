-- ===== src/Chain/Tokens/Amounts.antt =====
-- What the loops over the recipients add up and submit.
use accumulate.Common.{◌≡◌, refl, ap, arith, ◌∙◌, sym, inl, inr, map}
use accumulate.Common.{List, [], ◌∷◌, some, Bool, false, Bool-cases}
use accumulate.Common.{All, Option-cases}
use accumulate.Common.Bytes.{Bytes}
use accumulate.Common.Int.{ℤ, pos, ◌+ℤ◌, ◌-ℤ◌, is_negative, +ℤ_parts, -ℤ_parts, eq_of_parts}
use accumulate.Common.Outcome.{ok, >>=-ok, ok-subst}
use accumulate.Url.Parts.{Url, account_id}
use accumulate.Chain.Tokens.{TokenRecipient, Deposit, total_loop, member, submit_loop}

abbrev pub sum_amounts : List ℤ → ℤ
sum_amounts [] = pos 0
sum_amounts (x ∷ xs) = x +ℤ sum_amounts xs

abbrev pub wanted : List TokenRecipient → List ℤ
wanted rs = map (λ r. r.amount) rs

abbrev pub deposited : List Deposit → List ℤ
deposited ds = map (λ d. d.amount) ds

abbrev pub NoneNegative : List ℤ → Type 0
NoneNegative xs = All (λ x. is_negative x ≡ false) xs

pub +ℤ_zero : (a : ℤ) → a +ℤ pos 0 ≡ a
+ℤ_zero a = eq_of_parts (a +ℤ pos 0) a (omega (arith, +ℤ_parts a (pos 0)))

pub +ℤ_assoc : (a b c : ℤ) → (a +ℤ b) +ℤ c ≡ a +ℤ (b +ℤ c)
+ℤ_assoc a b c =
    eq_of_parts ((a +ℤ b) +ℤ c) (a +ℤ (b +ℤ c))
      (omega (arith, +ℤ_parts a b, +ℤ_parts (a +ℤ b) c, +ℤ_parts b c, +ℤ_parts a (b +ℤ c)))

pub -ℤ-+ℤ : (a b : ℤ) → (a -ℤ b) +ℤ b ≡ a
-ℤ-+ℤ a b = eq_of_parts ((a -ℤ b) +ℤ b) a (omega (arith, -ℤ_parts a b, +ℤ_parts (a -ℤ b) b))

-- The loop returns the sum, and only where no amount is negative.
pub total_loop-sum_amounts :
    (rs : List TokenRecipient) (start total : ℤ)
    → total_loop rs start ≡ ok total
    → (total ≡ start +ℤ sum_amounts (wanted rs)) × NoneNegative (wanted rs)
unfolding total_loop
total_loop-sum_amounts [] start total h =
    (let same_ : start ≡ total = cc in sym same_ ∙ sym (+ℤ_zero start), tt)
total_loop-sum_amounts (r ∷ rs) start total h = elim (Bool-cases (is_negative r.amount)) [
  | inl e ↦ absurd (cc (rw (e, total_loop) at h))
  | inr e ↦
      (let (sums, none_) =
          total_loop-sum_amounts rs (start +ℤ r.amount) total (rw (e, total_loop) at h) in
        (sums ∙ +ℤ_assoc start r.amount (sum_amounts (wanted rs)), (e, none_)))
]

module _ (sum : Bytes → Bytes) where
  -- No deposit goes to an account that is among those before it.
  abbrev pub Apart : List Bytes → List Deposit → Type 0
  Apart seen [] = Unit
  Apart seen (d ∷ ds) =
      (member (account_id sum d.to) seen ≡ false) × Apart (account_id sum d.to ∷ seen) ds

  -- What a submitted deposit says besides its amount and its recipient.
  abbrev pub Marked : Url → Bool → Deposit → Type 0
  Marked token is_issuer d = (d.token ≡ token) × (d.is_issuer ≡ is_issuer) × (d.is_refund ≡ false)

  pub record Submits (token : Url) (is_issuer : Bool) (rs : List TokenRecipient) (seen : List Bytes)
      (ds : List Deposit) : Type 0 where
    pub amounts : deposited ds ≡ wanted rs
    pub targets : map (λ d. some d.to) ds ≡ map (λ r. r.url) rs
    pub marked : All (Marked token is_issuer) ds
    pub apart : Apart seen ds

  pub submit_loop-Submits :
      (token : Url) (is_issuer : Bool) (rs : List TokenRecipient) (seen : List Bytes)
      (ds : List Deposit)
      → submit_loop sum token is_issuer rs seen ≡ ok ds
      → Submits token is_issuer rs seen ds
  unfolding submit_loop
  submit_loop-Submits token is_issuer [] seen ds h =
      ok-subst (Submits token is_issuer [] seen) h
        (record { amounts = refl; targets = refl; marked = tt; apart = tt })
  submit_loop-Submits token is_issuer (r ∷ rs) seen ds h = elim (Option-cases r.url) [
    | inl u ↦ absurd (cc (rw (u, submit_loop) at h))
    | inr (u, e) ↦ elim (Bool-cases (member (account_id sum u) seen)) [
      | inl m ↦ absurd (cc (rw (e, m, submit_loop) at h))
      | inr m ↦
          (let (rest, more, done) =
              >>=-ok _ (submit_loop sum token is_issuer rs (account_id sum u ∷ seen)) ds
                (rw (e, m, submit_loop) at h) in
            let s = submit_loop-Submits token is_issuer rs (account_id sum u ∷ seen) rest more in
            ok-subst (Submits token is_issuer (r ∷ rs) seen) done (record {
              amounts = ap (λ t. r.amount ∷ t) s.amounts;
              targets = rw (e, s.targets) refl;
              marked = ((refl, refl, refl), s.marked);
              apart = (m, s.apart);
            }))
    ]
  ]
