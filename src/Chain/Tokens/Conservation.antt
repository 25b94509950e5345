-- ===== src/Chain/Tokens/Conservation.antt =====
-- No handler makes or loses tokens: what leaves a balance is in the transactions submitted.
use accumulate.Common.{ℕ, ◌≤◌, ◌≡◌, ◌⊎◌, ap, arith, ◌∙◌, inl, inr}
use accumulate.Common.{List, [], Option, some, false, Bool-cases, leb→le}
use accumulate.Common.{Option-cases, ltb, ◌==◌, ==_iff}
use accumulate.Common.Bytes.{Bytes}
use accumulate.Common.Int.{
  ℤ, pos, ◌+ℤ◌, ◌-ℤ◌, ◌≤ℤ◌, is_negative, pos_part, neg_part, +ℤ_parts, -ℤ_parts, eq_of_parts, leb_ℤ,
}
use Prim.Native.String.{String}
use accumulate.Common.Outcome.{Outcome, ok, >>=-ok, ok-subst}
use accumulate.Url.Parts.{Url}
use accumulate.Protocol.Accounts.{debit_tokens, can_debit_tokens}
use accumulate.Chain.Tokens.{
  Account, TokenRecipient, Deposit, Holding, holding, with_balance, token_account,
  lite_token_account, token_issuer, other_account, total_loop, debit_holding, submit_loop,
  check_lock, lock_height_of, send_tokens,
}
use accumulate.Chain.Tokens.Amounts.{
  sum_amounts, wanted, deposited, NoneNegative, -ℤ-+ℤ, total_loop-sum_amounts, Submits,
  submit_loop-Submits,
}

pub holding-with_balance :
    (a : Account) (h : Holding) (b : ℤ)
    → holding a ≡ some h
    → holding (with_balance a b) ≡ some (record h { balance = b })
unfolding holding with_balance
holding-with_balance (token_account a) h b e = cc
holding-with_balance (lite_token_account a) h b e = cc
holding-with_balance (token_issuer i) h b e = cc
holding-with_balance other_account h b e = cc

-- An account whose balance changed to `b`.
abbrev pub NowHolds : Account → Url → ℤ → Type 0
NowHolds a token b = holding a ≡ some (record { token_url = token; balance = b })

-- A debit takes the amount from a balance that has it.
pub debit_holding-NowHolds :
    (message : String) (a a' : Account) (h : Holding) (amount : ℤ)
    → holding a ≡ some h
    → debit_holding message a h amount ≡ ok a'
    → NowHolds a' h.token_url (h.balance -ℤ amount) × (amount ≤ℤ h.balance)
unfolding debit_holding debit_tokens can_debit_tokens
debit_holding-NowHolds message a a' h amount e d = elim (Bool-cases (leb_ℤ amount h.balance)) [
  | inl l ↦
      (let enough = leb→le _ _ l in
        ok-subst (λ x. NowHolds x h.token_url (h.balance -ℤ amount) × (amount ≤ℤ h.balance))
          (rw (l, debit_holding) at d) (holding-with_balance a h (h.balance -ℤ amount) e, enough))
  | inr l ↦ absurd (cc (rw (l, debit_holding) at d))
]

-- What SendTokens must do: the account pays for its deposits, keeps a balance that is not negative,
-- and is not locked beyond the last major block.
pub record Sends (sum : Bytes → Bytes) (major : Outcome (Option ℕ)) (a : Account)
    (to : List TokenRecipient) (new : Account) (ds : List Deposit) : Type 0 where
  pub before : Holding
  pub balance : ℤ
  pub held : holding a ≡ some before
  pub holds : NowHolds new before.token_url balance
  pub conserved : balance +ℤ sum_amounts (deposited ds) ≡ before.balance
  pub solvent : is_negative balance ≡ false
  pub none_negative : NoneNegative (deposited ds)
  pub submits : Submits sum before.token_url false to [] ds
  pub unlocked : (lock_height_of a ≡ 0) ⊎ ((n : ℕ) × (major ≡ ok (some n)) × (lock_height_of a ≤ n))

check_lock-unlocked :
    (height : ℕ) (major : Outcome (Option ℕ)) (u : Unit {0})
    → check_lock height major ≡ ok u
    → (height ≡ 0) ⊎ ((n : ℕ) × (major ≡ ok (some n)) × (height ≤ n))
unfolding check_lock
check_lock-unlocked height major u h = elim (Bool-cases (height == 0)) [
  | inl z ↦ inl ((==_iff height 0).0 z)
  | inr z ↦
      (let (entry, loaded, rest) = >>=-ok _ major u (rw (z, check_lock) at h) in
        elim (Option-cases entry) [
          | inl n ↦ absurd (cc (rw n at rest))
          | inr (index, n) ↦ elim (Bool-cases (ltb index height)) [
            | inl l ↦ absurd (cc (rw (n, l) at rest))
            | inr l ↦ inr (index, loaded ∙ ap ok n, ground (arith, l))
          ]
        ])
]

-- Where SendTokens succeeds the account pays exactly for the deposits submitted, one to each
-- recipient, and was not locked.
pub send_tokens-Sends :
    (sum : Bytes → Bytes) (major : Outcome (Option ℕ)) (a new : Account) (to : List TokenRecipient)
    (ds : List Deposit)
    → send_tokens sum major a to ≡ ok (new, ds)
    → Sends sum major a to new ds
unfolding send_tokens
send_tokens-Sends sum major a new to ds e = elim (Option-cases (holding a)) [
  | inl n ↦ absurd (cc (rw (n, send_tokens) at e))
  | inr (h, n) ↦
      (let (total, totals, r₁) =
          >>=-ok _ (total_loop to (pos 0)) (new, ds) (rw (n, send_tokens) at e) in
        let (debited, debits, r₂) = >>=-ok _ (debit_holding _ a h total) (new, ds) r₁ in
        let (deposits, submitted, r₃) =
          >>=-ok _ (submit_loop sum h.token_url false to []) (new, ds) r₂ in
        let (u, checked, done) = >>=-ok _ (check_lock (lock_height_of a) major) (new, ds) r₃ in
        let (sums, none_) = total_loop-sum_amounts to (pos 0) total totals in
        let (holds, enough) = debit_holding-NowHolds _ a debited h total n debits in
        let s = submit_loop-Submits sum h.token_url false to [] deposits submitted in
        ok-subst (λ x. Sends sum major a to x.0 x.1) done
          (record {
            before = h;
            balance = h.balance -ℤ total;
            held = n;
            holds = holds;
            conserved =
                ap (λ x. (h.balance -ℤ total) +ℤ sum_amounts x) s.amounts
                ∙ ap (λ x. (h.balance -ℤ total) +ℤ x) (total_sum (wanted to) total sums)
                ∙ -ℤ-+ℤ h.balance total;
            solvent = ground (arith, enough, -ℤ_parts h.balance total);
            none_negative = rw s.amounts none_;
            submits = s;
            unlocked = check_lock-unlocked (lock_height_of a) major u checked;
          }))
]
  where
    total_sum : (xs : List ℤ) (total : ℤ) → total ≡ pos 0 +ℤ sum_amounts xs → sum_amounts xs ≡ total
    total_sum xs total sums =
        eq_of_parts (sum_amounts xs) total
          (omega (arith, +ℤ_parts (pos 0) (sum_amounts xs), ap pos_part sums, ap neg_part sums))
