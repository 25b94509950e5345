-- ===== src/Chain/Tokens/Balance.antt =====
-- Every step of the ledger keeps it balanced.
use accumulate.Common.{ℕ, ◌≡◌, refl, ap, ◌∙◌, sym, inl, inr}
use accumulate.Common.{List, ◌∷◌, ◌++◌, Option, Bool-cases}
use accumulate.Common.Bytes.{Bytes}
use accumulate.Common.Int.{ℤ, ◌+ℤ◌, ◌-ℤ◌, is_negative}
use accumulate.Common.Outcome.{Outcome, ok, ok-subst}
use accumulate.Url.Parts.{Url}
use accumulate.Protocol.Accounts.{TokenIssuer}
use accumulate.Chain.Tokens.{
  Account, TokenRecipient, Deposit, token_issuer, synthetic_burn_tokens, did_fail, Refund, nothing,
  burn_back, deposit_back, recipients,
}
use accumulate.Chain.Tokens.Amounts.{sum_amounts, deposited, -ℤ-+ℤ}
use accumulate.Chain.Tokens.Conservation.{NowHolds, Sends, send_tokens-Sends}
use accumulate.Chain.Tokens.Supply.{
  Burns, burn_tokens-Burns, Credits, synthetic_deposit_tokens-Credits, Issues, issue_tokens-Issues,
}
use accumulate.Chain.Tokens.Moves.{move_out, move_in, move_burn, recalled, issue_in, settle_out}
use accumulate.Chain.Tokens.Ledger.{
  total, total-append, total-middle, sum_amounts-deposited, Ledger, balance_of, Balanced, Step,
  send, burn, issue, deposit, settle, refund, recall, Reaches, done, next,
}

-- The balances, with one account told apart.
balances :
    (accounts front back : List Account) (a : Account) (token : Url) (v : ℤ)
    → accounts ≡ front ++ a ∷ back
    → NowHolds a token v
    → total balance_of accounts ≡ v +ℤ total balance_of (front ++ back)
unfolding balance_of
balances accounts front back a token v e h =
    ap (total balance_of) e
    ∙ total-middle balance_of front back a
    ∙ ap (λ x. x +ℤ total balance_of (front ++ back)) held
  where
    held : balance_of a ≡ v
    held = rw (h, balance_of) refl

submitted :
    (ds rest : List Deposit)
    → total (λ d. d.amount) (ds ++ rest) ≡ sum_amounts (deposited ds) +ℤ total (λ d. d.amount) rest
submitted ds rest =
    total-append (λ d. d.amount) ds rest
    ∙ ap (λ x. x +ℤ total (λ d. d.amount) rest) (sym (sum_amounts-deposited ds))

send-Balanced :
    (sum : Bytes → Bytes) (l : Ledger) (front back : List Account) (a b : Account)
    (major : Outcome (Option ℕ)) (to : List TokenRecipient) (ds : List Deposit)
    → l.accounts ≡ front ++ a ∷ back
    → Sends sum major a to b ds
    → Balanced l
    → Balanced (record l { accounts = front ++ b ∷ back; deposits = ds ++ l.deposits })
send-Balanced sum l front back a b major to ds e s h =
    h
    ∙ ap (λ x. (x +ℤ D) +ℤ N)
        (balances l.accounts front back a s.before.token_url s.before.balance e s.held)
    ∙ move_out s.balance (sum_amounts (deposited ds)) T D N s.before.balance s.conserved
    ∙ ap (λ x. (x +ℤ (sum_amounts (deposited ds) +ℤ D)) +ℤ N)
        (sym (balances (front ++ b ∷ back) front back b s.before.token_url s.balance refl s.holds))
    ∙ ap (λ x. (total balance_of (front ++ b ∷ back) +ℤ x) +ℤ N) (sym (submitted ds l.deposits))
  where
    T : ℤ
    T = total balance_of (front ++ back)

    D : ℤ
    D = total (λ d. d.amount) l.deposits

    N : ℤ
    N = total (λ x. x) l.burns

burn-Balanced :
    (l : Ledger) (front back : List Account) (a b : Account) (amount m : ℤ)
    → l.accounts ≡ front ++ a ∷ back
    → Burns a amount (b, m)
    → Balanced l
    → Balanced (record l { accounts = front ++ b ∷ back; burns = m ∷ l.burns })
burn-Balanced l front back a b amount m e (same_, _, (old, _, c)) h =
    h
    ∙ ap (λ x. (x +ℤ D) +ℤ N) (balances l.accounts front back a c.token old e c.held)
    ∙ move_burn (old -ℤ amount) amount T D N old (-ℤ-+ℤ old amount)
    ∙ ap (λ x. (x +ℤ D) +ℤ (amount +ℤ N))
        (sym (balances (front ++ b ∷ back) front back b c.token (old -ℤ amount) refl c.holds))
    ∙ ap (λ x. (total balance_of (front ++ b ∷ back) +ℤ D) +ℤ (x +ℤ N)) (sym same_)
  where
    T : ℤ
    T = total balance_of (front ++ back)

    D : ℤ
    D = total (λ d. d.amount) l.deposits

    N : ℤ
    N = total (λ x. x) l.burns

deposit-Balanced :
    (l : Ledger) (front back : List Account) (a b : Account) (before after : List Deposit)
    (d : Deposit)
    → l.accounts ≡ front ++ a ∷ back
    → l.deposits ≡ before ++ d ∷ after
    → Credits a d b
    → Balanced l
    → Balanced (record l { accounts = front ++ b ∷ back; deposits = before ++ after })
deposit-Balanced l front back a b before after d e f (_, (old, c, _)) h =
    h
    ∙ ap (λ x. (x +ℤ total (λ y. y.amount) l.deposits) +ℤ N)
        (balances l.accounts front back a c.token old e c.held)
    ∙ ap (λ x. ((old +ℤ T) +ℤ x) +ℤ N)
        (ap (total (λ y. y.amount)) f ∙ total-middle (λ y. y.amount) before after d)
    ∙ move_in old d.amount T (total (λ y. y.amount) (before ++ after)) N
    ∙ ap (λ x. (x +ℤ total (λ y. y.amount) (before ++ after)) +ℤ N)
        (sym (balances (front ++ b ∷ back) front back b c.token (old +ℤ d.amount) refl c.holds))
  where
    T : ℤ
    T = total balance_of (front ++ back)

    N : ℤ
    N = total (λ x. x) l.burns

issue-Balanced :
    (sum : Bytes → Bytes) (l : Ledger) (to : List TokenRecipient) (i : TokenIssuer)
    (ds : List Deposit)
    → Issues sum (token_issuer l.issuer) to (i, ds)
    → Balanced l
    → Balanced (record l { issuer = i; deposits = ds ++ l.deposits })
issue-Balanced sum l to i ds (j, same_, made, _, _, _) h =
    ap (λ x. x.issued) made
    ∙ ap (λ x. x.issued +ℤ sum_amounts (deposited ds)) issuer_eq
    ∙ issue_in l.issuer.issued (sum_amounts (deposited ds)) (total balance_of l.accounts)
        (total (λ d. d.amount) l.deposits) (total (λ x. x) l.burns) h
    ∙ ap (λ x. (total balance_of l.accounts +ℤ x) +ℤ total (λ y. y) l.burns)
        (sym (submitted ds l.deposits))
  where
    issuer_eq : j ≡ l.issuer
    issuer_eq = cc

settle-Balanced :
    (l : Ledger) (before after : List ℤ) (m : ℤ) (i : TokenIssuer)
    → l.burns ≡ before ++ m ∷ after
    → synthetic_burn_tokens (token_issuer l.issuer) m ≡ ok i
    → Balanced l
    → Balanced (record l { issuer = i; burns = before ++ after })
unfolding synthetic_burn_tokens
settle-Balanced l before after m i e r h = elim (Bool-cases (is_negative m)) [
  | inl n ↦ absurd (cc (rw (n, synthetic_burn_tokens) at r))
  | inr n ↦
      ok-subst (λ x. Balanced (record l { issuer = x; burns = before ++ after }))
        (rw (n, synthetic_burn_tokens) at r)
        (settle_out l.issuer.issued m
          (total balance_of l.accounts +ℤ total (λ d. d.amount) l.deposits)
          (total (λ x. x) (before ++ after))
          (h
            ∙ ap
                (λ x.
                  (total balance_of l.accounts +ℤ total (λ d. d.amount) l.deposits)
                  +ℤ total (λ y. y) x)
                e
            ∙ ap (λ x. (total balance_of l.accounts +ℤ total (λ d. d.amount) l.deposits) +ℤ x)
                (total-middle (λ x. x) before after m)))
]

-- What failed deposits send back is the amount they had.
did_fail-amount :
    (cause : Url) (d : Deposit) (r : Refund)
    → did_fail cause d ≡ r
    → ((back : Deposit) → r ≡ deposit_back back → back.amount ≡ d.amount)
      × ((m : ℤ) → r ≡ burn_back m → m ≡ d.amount)
unfolding did_fail
did_fail-amount cause d r e = elim (Bool-cases d.is_refund) [
  | inl f ↦ (let same_ : nothing ≡ r = rw (f, did_fail) at e in ((λ back g. cc), (λ m g. cc)))
  | inr f ↦ elim (Bool-cases d.is_issuer) [
    | inl g ↦
        (let same_ : burn_back d.amount ≡ r = rw (f, g, did_fail) at e in
          ((λ back k. cc), (λ m k. cc)))
    | inr g ↦ (let same_ = rw (f, g, did_fail) at e in ((λ back k. cc), (λ m k. cc)))
  ]
]

-- Each transaction keeps the tokens issued equal to the balances and what is under way.
pub Step-Balanced : (sum : Bytes → Bytes) (l m : Ledger) → Step sum l m → Balanced l → Balanced m
Step-Balanced sum _ _ (send l front back a b major to ds e s) h =
    send-Balanced sum l front back a b major to ds e (send_tokens-Sends sum major a b to ds s) h
Step-Balanced sum _ _ (burn l front back a b amount x e s) h =
    burn-Balanced l front back a b amount x e (burn_tokens-Burns a amount (b, x) s) h
Step-Balanced sum _ _ (issue l i recipient amount to ds s) h =
    issue-Balanced sum l (recipients recipient amount to) i ds
      (issue_tokens-Issues sum (token_issuer l.issuer) recipient amount to (i, ds) s) h
Step-Balanced sum _ _ (deposit l front back a b before after d e f s) h =
    deposit-Balanced l front back a b before after d e f (synthetic_deposit_tokens-Credits a b d s)
      h
Step-Balanced sum _ _ (settle l before after x i e s) h = settle-Balanced l before after x i e s h
Step-Balanced sum _ _ (refund l before after d back cause e s) h =
    let amount = (did_fail-amount cause d (deposit_back back) s).0 back refl in
    h
    ∙ ap (λ x. (total balance_of l.accounts +ℤ x) +ℤ total (λ y. y) l.burns)
        (ap (total (λ y. y.amount)) e
          ∙ total-middle (λ y. y.amount) before after d
          ∙ ap (λ x. x +ℤ total (λ y. y.amount) (before ++ after)) (sym amount)
          ∙ sym (total-middle (λ y. y.amount) before after back))
Step-Balanced sum _ _ (recall l before after d x cause e s) h =
    let amount = (did_fail-amount cause d (burn_back x) s).1 x refl in
    h
    ∙ ap (λ y. (total balance_of l.accounts +ℤ y) +ℤ total (λ z. z) l.burns)
        (ap (total (λ y. y.amount)) e ∙ total-middle (λ y. y.amount) before after d)
    ∙ recalled (total balance_of l.accounts) d.amount (total (λ y. y.amount) (before ++ after))
        (total (λ z. z) l.burns)
    ∙ ap
        (λ y.
          (total balance_of l.accounts +ℤ total (λ z. z.amount) (before ++ after))
          +ℤ (y +ℤ total (λ z. z) l.burns))
        (sym amount)

-- From a ledger where the tokens issued are those on the accounts or under way, sending, issuing,
-- burning, depositing and refunding in any order lead only to ledgers where they are.
pub Reaches-Balanced :
    (sum : Bytes → Bytes) (l m : Ledger) → Reaches sum l m → Balanced l → Balanced m
Reaches-Balanced sum _ _ (done l) h = h
Reaches-Balanced sum _ _ (next l k m s r) h = Reaches-Balanced sum k m r (Step-Balanced sum l k s h)
