-- ===== src/Chain/Locks.antt =====
-- internal/chain/lock_account.go, and the lock of an account in the handlers that store it again.
use accumulate.Common.{
  ℕ, ◌≤◌, ◌<◌, ◌≡◌, arith, List, Option, some, inl, inr, Bool-cases, Option-cases, ltb, refl,
}
use accumulate.Common.Bytes.{Bytes}
use accumulate.Common.Int.{ℤ, ◌+ℤ◌, ◌≤ℤ◌, is_negative, +ℤ_parts}
use accumulate.Common.Outcome.{Outcome, ok, err, ◌>>=◌, ok-subst}
use accumulate.Url.Parts.{equal}
use accumulate.Protocol.Accounts.{set_lock_height, credit_tokens}
use accumulate.Chain.Tokens.{
  Account, TokenRecipient, Deposit, Holding, holding, with_balance, token_account,
  lite_token_account, token_issuer, other_account, credit_holding, lock_height_of, send_tokens,
  synthetic_deposit_tokens,
}
use accumulate.Chain.Tokens.Conservation.{send_tokens-Sends}
use accumulate.Chain.Tokens.Supply.{synthetic_deposit_tokens-Credits}
use accumulate.Chain.Tokens.Ledger.{balance_of}

-- `LockAccount.Validate`: only a lite token account can be locked.
unfoldable pub lock_account : Account → ℕ → Outcome Account
lock_account account height = elim account [
  | lite_token_account l ↦ set_lock_height l height >>= λ locked. ok (lite_token_account locked)
  | _ ↦ err "locking is not supported for %v accounts"
]

-- A transaction of the account that succeeds: it is locked, it is sent tokens, or it sends some
-- while the last major block, if there is one, is before `n`.
pub data EarlyStep (sum : Bytes → Bytes) (n : ℕ) : Account → Account → Type 0 where
  lock : (a b : Account) (height : ℕ) → lock_account a height ≡ ok b → EarlyStep sum n a b
  deposit :
      (a b : Account) (d : Deposit) → synthetic_deposit_tokens a d ≡ ok b → EarlyStep sum n a b
  send :
      (a b : Account) (major : Outcome (Option ℕ)) (to : List TokenRecipient) (ds : List Deposit)
      → ((k : ℕ) → major ≡ ok (some k) → k < n)
      → send_tokens sum major a to ≡ ok (b, ds)
      → EarlyStep sum n a b

pub data EarlySteps (sum : Bytes → Bytes) (n : ℕ) : Account → Account → Type 0 where
  done : (a : Account) → EarlySteps sum n a a
  next : (a b c : Account) → EarlyStep sum n a b → EarlySteps sum n b c → EarlySteps sum n a c

-- `b` is locked as far as `n` if `a` is, and has at least its balance.
abbrev pub StaysLocked : ℕ → Account → Account → Type 0
StaysLocked n a b = (n ≤ lock_height_of b) × (balance_of a ≤ℤ balance_of b)

balance_of-holding : (a : Account) (h : Holding) → holding a ≡ some h → balance_of a ≡ h.balance
unfolding balance_of
balance_of-holding a h e = rw (e, balance_of) refl

lock_height_of-with_balance :
    (a : Account) (x : ℤ) → lock_height_of (with_balance a x) ≡ lock_height_of a
unfolding lock_height_of with_balance
lock_height_of-with_balance (token_account a) x = refl
lock_height_of-with_balance (lite_token_account a) x = refl
lock_height_of-with_balance (token_issuer i) x = refl
lock_height_of-with_balance other_account x = refl

-- A deposit keeps the lock.
lock_height_of-deposit :
    (a b : Account) (d : Deposit)
    → synthetic_deposit_tokens a d ≡ ok b
    → lock_height_of b ≡ lock_height_of a
unfolding synthetic_deposit_tokens credit_holding credit_tokens
lock_height_of-deposit a b d e = elim (Option-cases (holding a)) [
  | inl n ↦ absurd (cc (rw (n, synthetic_deposit_tokens) at e))
  | inr (h, n) ↦ elim (Bool-cases (equal h.token_url d.token)) [
    | inr t ↦ absurd (cc (rw (n, t, synthetic_deposit_tokens) at e))
    | inl t ↦ elim (Bool-cases (is_negative d.amount)) [
      | inl m ↦ absurd (cc (rw (n, t, m, synthetic_deposit_tokens) at e))
      | inr m ↦
          ok-subst (λ x. lock_height_of x ≡ lock_height_of a)
            (rw (n, t, m, synthetic_deposit_tokens, credit_holding) at e)
            (lock_height_of-with_balance a (h.balance +ℤ d.amount))
    ]
  ]
]

-- A new lock is not before the old one, and the balance stays.
lock_account-StaysLocked :
    (a b : Account) (n height : ℕ)
    → n ≤ lock_height_of a
    → lock_account a height ≡ ok b
    → StaysLocked n a b
unfolding lock_account set_lock_height lock_height_of balance_of holding
lock_account-StaysLocked (token_account a) b n height h e = absurd cc
lock_account-StaysLocked (token_issuer i) b n height h e = absurd cc
lock_account-StaysLocked other_account b n height h e = absurd cc
lock_account-StaysLocked (lite_token_account l) b n height h e =
    elim (Bool-cases (ltb height l.lock_height)) [
      | inl t ↦ absurd (cc (rw (t, lock_account, set_lock_height) at e))
      | inr f ↦
          ok-subst (StaysLocked n (lite_token_account l))
            (rw (f, lock_account, set_lock_height) at e) (ground (arith, f, h), omega arith)
    ]

deposit-StaysLocked :
    (a b : Account) (n : ℕ) (d : Deposit)
    → n ≤ lock_height_of a
    → synthetic_deposit_tokens a d ≡ ok b
    → StaysLocked n a b
deposit-StaysLocked a b n d h e =
    let (sign, (old, c, t)) = synthetic_deposit_tokens-Credits a b d e in
    let before = balance_of-holding a _ c.held in
    let after = balance_of-holding b _ c.holds in
    (
      omega (arith, lock_height_of-deposit a b d e),
      rw (before, after) (ground (arith, sign, +ℤ_parts old d.amount)),
    )

module _ (sum : Bytes → Bytes) (n : ℕ) (positive : 0 < n) where
  EarlyStep-StaysLocked :
      (a b : Account) → EarlyStep sum n a b → n ≤ lock_height_of a → StaysLocked n a b
  EarlyStep-StaysLocked a b (lock _ _ height e) h = lock_account-StaysLocked a b n height h e
  EarlyStep-StaysLocked a b (deposit _ _ d e) h = deposit-StaysLocked a b n d h e
  EarlyStep-StaysLocked a b (send _ _ major to ds early e) h =
      elim (send_tokens-Sends sum major a b to ds e).unlocked [
        | inl z ↦ absurd (omega (arith, z))
        | inr (k, loaded, past) ↦ absurd (omega (arith, early k loaded))
      ]

  -- An account that is locked as far as block `n`, which is not 0, stays locked as far, and has no
  -- less than its balance, after any locks, deposits and sends that succeed while the last major
  -- block, if there is one, is before `n`.
  pub EarlySteps-StaysLocked :
      (a b : Account) → EarlySteps sum n a b → n ≤ lock_height_of a → StaysLocked n a b
  EarlySteps-StaysLocked a b (done _) h = (h, omega arith)
  EarlySteps-StaysLocked a c (next _ b _ s rest) h =
      let (locked, more) = EarlyStep-StaysLocked a b s h in
      let (still, most) = EarlySteps-StaysLocked b c rest locked in (still, omega arith)
